-- ===== src/Lifecycle/Secrets/Keys.antt =====
-- internal/lifecycle/validation.go: the search finds a key exactly when there is one.
use aksagent_sandbox.Base.{
  ℕ, suc, ◌≡◌, refl, ◌↔◌, false, none, List, [], ◌∷◌, ◌++◌, first-none, Bool-cases, inl, inr,
}
use aksagent_sandbox.Lifecycle.Secrets.{
  Json, scalar, object, array, Fields, end, field, Items, nil, cons, Step, key_step, index_step,
  is_secret_key, find_secret, find_in_fields, find_in_items, secret_like_field,
}

abbrev mutual
  -- No key, at any depth, is secret-like.
  pub IsClean : Json → Type 0
  IsClean scalar = Unit
  IsClean (object fs) = CleanFields fs
  IsClean (array is) = CleanItems is

  pub CleanFields : Fields → Type 0
  CleanFields end = Unit
  CleanFields (field key child rest) =
      (is_secret_key key ≡ false) × IsClean child × CleanFields rest

  pub CleanItems : Items → Type 0
  CleanItems nil = Unit
  CleanItems (cons child rest) = IsClean child × CleanItems rest

mutual
  unfolding find_secret

  value_iff : (v : Json) (path : List Step) → (find_secret v path ≡ none) ↔ IsClean v
  value_iff scalar path = (λ h. tt, λ h. refl)
  value_iff (object fs) path = fields_iff fs path
  value_iff (array is) path = items_iff is 0 path

  fields_iff : (fs : Fields) (path : List Step) → (find_in_fields fs path ≡ none) ↔ CleanFields fs
  fields_iff end path = (λ h. tt, λ h. refl)
  fields_iff (field key child rest) path =
      let next = path ++ key_step key ∷ [] in
      let split = first-none (find_secret child next) (find_in_fields rest path) in
      let inner = value_iff child next in
      let outer = fields_iff rest path in
      elim (Bool-cases (is_secret_key key)) [
        | inl b ↦ rw b (λ h. cc, λ h. cc)
        | inr b ↦ rw b (
          λ h. (refl, inner.0 (split.0 h).0, outer.0 (split.0 h).1),
          λ h. split.1 (inner.1 h.1, outer.1 h.2),
        )
      ]

  items_iff :
      (is : Items) (i : ℕ) (path : List Step) → (find_in_items is i path ≡ none) ↔ CleanItems is
  items_iff nil i path = (λ h. tt, λ h. refl)
  items_iff (cons child rest) i path =
      let next = path ++ index_step i ∷ [] in
      let split = first-none (find_secret child next) (find_in_items rest (suc i) path) in
      let inner = value_iff child next in
      let outer = items_iff rest (suc i) path in
      (λ h. (inner.0 (split.0 h).0, outer.0 (split.0 h).1), λ h. split.1 (inner.1 h.0, outer.1 h.1))

-- `SecretLikeField` finds nothing exactly when no key at any depth of the value is secret-like,
-- whatever the order of the fields.
pub secret_like_field_iff : (v : Json) → (secret_like_field v ≡ none) ↔ IsClean v
unfolding secret_like_field
secret_like_field_iff v = value_iff v []
