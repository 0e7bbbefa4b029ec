-- ===== src/Lifecycle/Validation/Profiles.antt =====
-- internal/lifecycle/validation.go: a profile is valid when its resources are the canonical ones.
use aksagent_sandbox.Base.{
  ◌≡◌, refl, sym, ap, ◌∙◌, ◌↔◌, String, true, Option, none, some, List, [], ◌∷◌, arith, Bool-cases,
  inl, inr, first-none,
}
use aksagent_sandbox.Base.Int.{ℤ, eqb_ℤ, eq_of_parts}
use aksagent_sandbox.ApiTypes.{ProfileName, SandboxProfile}
use aksagent_sandbox.Lifecycle.Validation.{
  Formats, canonical_profile, apply_profile_defaults, with_canonical, or_text, same_quantity,
  compare_all, against, validate_profile,
}

module _ (f : Formats) where
  -- Two texts of one quantity.
  pub record SameQuantity (a b : String) : Type 0 where
    pub quantity : ℤ
    pub left : f.parse_quantity a ≡ some quantity
    pub right : f.parse_quantity b ≡ some quantity

  pub record IsCanonical (p : SandboxProfile) : Type 0 where
    pub canonical : SandboxProfile
    pub is_named : canonical_profile p.name ≡ some canonical
    pub same_cpu : SameQuantity p.cpu canonical.cpu
    pub same_memory : SameQuantity p.memory canonical.memory
    pub same_storage : SameQuantity p.storage canonical.storage

  eqb_ℤ→eq : (a b : ℤ) → eqb_ℤ a b ≡ true → a ≡ b
  eqb_ℤ→eq a b h = ground (arith, eq_of_parts a b)

  eqb_ℤ_refl : (a : ℤ) → eqb_ℤ a a ≡ true
  eqb_ℤ_refl a = ground arith

  same_quantity_values :
      (name : ProfileName) (a b : String) (x y : Option ℤ)
      → f.parse_quantity a ≡ x
      → f.parse_quantity b ≡ y
      → same_quantity f name a x y ≡ none
      → SameQuantity a b
  unfolding same_quantity
  same_quantity_values name a b none y p r h = cc
  same_quantity_values name a b (some q) none p r h = cc
  same_quantity_values name a b (some q) (some e) p r h = elim (Bool-cases (eqb_ℤ q e)) [
    | inl t ↦ record { quantity = q; left = p; right = r ∙ ap some (sym (eqb_ℤ→eq q e t)) }
    | inr t ↦ cc (rw t at h)
  ]

  same_quantity-none :
      (name : ProfileName) (a b : String)
      → SameQuantity a b
      → same_quantity f name a (f.parse_quantity a) (f.parse_quantity b) ≡ none
  unfolding same_quantity
  same_quantity-none name a b s = rw (s.left, s.right, eqb_ℤ_refl s.quantity) refl

  compare_cons :
      (name : ProfileName) (a b : String) (rest : List (String × String))
      → (compare_all f name ((a, b) ∷ rest) ≡ none)
        ↔ (SameQuantity a b × (compare_all f name rest ≡ none))
  unfolding compare_all
  compare_cons name a b rest =
      let r = same_quantity f name a (f.parse_quantity a) (f.parse_quantity b) in
      let split = first-none r (compare_all f name rest) in
      (
        λ h.
            let (l, k) = split.0 h in
            (
              same_quantity_values name a b (f.parse_quantity a) (f.parse_quantity b) refl refl l,
              k,
            ),
        λ h. split.1 (same_quantity-none name a b h.0, h.1),
      )

  compare_three :
      (name : ProfileName) (a a' b b' c c' : String)
      → (compare_all f name ((a, a') ∷ (b, b') ∷ (c, c') ∷ []) ≡ none)
        ↔ (SameQuantity a a' × SameQuantity b b' × SameQuantity c c')
  unfolding compare_all
  compare_three name a a' b b' c c' =
      let one = compare_cons name a a' ((b, b') ∷ (c, c') ∷ []) in
      let two = compare_cons name b b' ((c, c') ∷ []) in
      let three = compare_cons name c c' [] in
      (
        λ h. let (x, h1) = one.0 h in let (y, h2) = two.0 h1 in (x, y, (three.0 h2).0),
        λ (x, y, z). one.1 (x, two.1 (y, three.1 (z, refl))),
      )

  against-IsCanonical :
      (p : SandboxProfile) (c : Option SandboxProfile)
      → canonical_profile p.name ≡ c
      → against f p c ≡ none
      → IsCanonical p
  unfolding against
  against-IsCanonical p none e h = cc
  against-IsCanonical p (some c) e h =
      let (x, y, z) =
        (compare_three p.name p.cpu c.cpu p.memory c.memory p.storage c.storage).0 h in
      record { canonical = c; is_named = e; same_cpu = x; same_memory = y; same_storage = z }

  -- A profile is valid exactly when its name is that of a profile and each of its resources is the
  -- quantity of that profile, in whatever notation.
  pub validate_profile_iff : (p : SandboxProfile) → (validate_profile f p ≡ none) ↔ IsCanonical p
  unfolding validate_profile against
  validate_profile_iff p = (
    against-IsCanonical p (canonical_profile p.name) refl,
    λ i.
        let c = i.canonical in
        rw (i.is_named, against)
          ((compare_three p.name p.cpu c.cpu p.memory c.memory p.storage c.storage).1
            (i.same_cpu, i.same_memory, i.same_storage)),
  )

  abbrev Parses : String → Type 0
  Parses a = (q : ℤ) × (f.parse_quantity a ≡ some q)

  same_text : (a : String) → Parses a → SameQuantity a a
  same_text a h = record { quantity = h.0; left = h.1; right = h.1 }

  -- The three canonical texts of a profile parse.
  abbrev pub ParsesAll : SandboxProfile → Type 0
  ParsesAll c = Parses c.cpu × Parses c.memory × Parses c.storage

  with_canonical-IsCanonical :
      (p c : SandboxProfile)
      → canonical_profile p.name ≡ some c
      → (p.cpu ≡ "") × (p.memory ≡ "") × (p.storage ≡ "")
      → ParsesAll c
      → IsCanonical (with_canonical p (some c))
  unfolding with_canonical or_text
  with_canonical-IsCanonical p c e (a, b, d) (x, y, z) = record {
    canonical = c;
    is_named = e;
    same_cpu = rw a (same_text c.cpu x);
    same_memory = rw b (same_text c.memory y);
    same_storage = rw d (same_text c.storage z);
  }

  -- Defaults are valid: a profile with one of the names and no resources passes the validation after
  -- `ApplyProfileDefaults`, if the canonical texts parse.
  pub apply_profile_defaults-valid :
      (p c : SandboxProfile)
      → canonical_profile p.name ≡ some c
      → (p.cpu ≡ "") × (p.memory ≡ "") × (p.storage ≡ "")
      → ParsesAll c
      → validate_profile f (apply_profile_defaults p) ≡ none
  unfolding apply_profile_defaults
  apply_profile_defaults-valid p c e blank parses =
      (validate_profile_iff (with_canonical p (canonical_profile p.name))).1
        (rw e (with_canonical-IsCanonical p c e blank parses))
