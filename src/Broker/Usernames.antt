-- ===== src/Broker/Usernames.antt =====
-- internal/broker/broker.go: parseServiceAccountUsername.
use mathlib.Core.Path.{subst}
use aksagent_sandbox.Base.{
  ◌≡◌, refl, sym, ap, ◌∙◌, ◌↔◌, ◌++◌, false, Option, none, some, List, [], ◌∷◌, arith, All,
}
use aksagent_sandbox.Base.Bytes.{
  Bytes, split, strip_prefix, join, join-split, split-Lacks, Lacks, split-append, split_part,
  strip_prefix→append,
}
use aksagent_sandbox.Broker.{
  is_empty, two_parts, after_prefix, account_prefix, colon, parse_service_account_username,
}

-- A part of a username: not empty, and without a colon.
pub record IsPart (p : Bytes) : Type 0 where
  pub is_nonempty : is_empty p ≡ false
  pub lacks : Lacks colon p

two_parts-inversion :
    (ps : List Bytes) (a b : Bytes)
    → two_parts ps ≡ some (a, b)
    → (ps ≡ a ∷ b ∷ []) × (is_empty a ≡ false) × (is_empty b ≡ false)
unfolding two_parts
two_parts-inversion [] a b h = cc
two_parts-inversion (p ∷ []) a b h = cc
two_parts-inversion (p ∷ q ∷ []) a b h = ground arith
two_parts-inversion (p ∷ q ∷ r ∷ ps) a b h = cc

-- What a parsed pair says of the rest of the name.
abbrev Parts : Bytes → Bytes → Bytes → Type 0
Parts ns name rest = IsPart ns × IsPart name × (rest ≡ ns ++ colon ∷ name)

split_parts :
    (rest ns name : Bytes)
    → split colon rest ≡ ns ∷ name ∷ []
    → Lacks colon ns × Lacks colon name × (rest ≡ ns ++ colon ∷ name)
unfolding join
split_parts rest ns name h =
    let lacks = subst (All (Lacks colon)) h (split-Lacks colon rest) in
    (lacks.0, lacks.1.0, sym (join-split colon rest) ∙ ap (join colon) h)

after_prefix-inversion :
    (o : Option Bytes) (ns name : Bytes)
    → after_prefix o ≡ some (ns, name)
    → (rest : Bytes) × (o ≡ some rest) × Parts ns name rest
unfolding after_prefix
after_prefix-inversion none ns name h = cc
after_prefix-inversion (some rest) ns name h =
    let (e, a, b) = two_parts-inversion (split colon rest) ns name h in
    let (la, lb, r) = split_parts rest ns name e in
    (
      rest,
      refl,
      (record { is_nonempty = a; lacks = la }, record { is_nonempty = b; lacks = lb }, r),
    )

two_parts_of :
    (ns name : Bytes) → IsPart ns → IsPart name → two_parts (ns ∷ name ∷ []) ≡ some (ns, name)
unfolding two_parts
two_parts_of ns name p q = rw (p.is_nonempty, q.is_nonempty) refl

-- What the parser accepts, and what it makes of it: the prefix, then two parts with a colon between
-- them, neither of them empty or with a colon of its own.
pub parse_iff :
    (username ns name : Bytes)
    → (parse_service_account_username username ≡ some (ns, name))
      ↔ (IsPart ns × IsPart name × (username ≡ account_prefix ++ (ns ++ colon ∷ name)))
unfolding parse_service_account_username after_prefix
parse_iff username ns name = (
  λ h.
      let (rest, e, (p, q, r)) =
        after_prefix-inversion (strip_prefix account_prefix username) ns name h in
      (p, q, strip_prefix→append account_prefix username rest e ∙ ap (λ x. account_prefix ++ x) r),
  λ (p, q, e).
      rw (e, split-append colon ns name p.lacks, split_part colon name q.lacks)
        (two_parts_of ns name p q),
)
