-- ===== src/Lifecycle/Secrets/Examples.antt =====
-- A value with a key `API-Token` inside a list, and one without secret-like keys.
use aksagent_sandbox.Base.{◌≡◌, refl, ◌↔◌, none, some, [], ◌∷◌}
use aksagent_sandbox.Lifecycle.Secrets.{
  Json, scalar, object, array, end, field, nil, cons, key_step, index_step, secret_like_field,
}
use aksagent_sandbox.Lifecycle.Secrets.Keys.{IsClean, secret_like_field_iff}

abbrev leaking : Json
leaking = object (field "env" (array (cons (object (field "API-Token" scalar end)) nil)) end)

abbrev harmless : Json
harmless = object (field "env" (array (cons scalar nil)) end)

leak_found :
    secret_like_field leaking ≡ some (key_step "env" ∷ index_step 0 ∷ key_step "API-Token" ∷ [])
unfolding secret_like_field
leak_found = refl

secret_like_field_iff_example : (secret_like_field harmless ≡ none) ↔ IsClean harmless
secret_like_field_iff_example = secret_like_field_iff harmless
