-- ===== src/Lifecycle/Secrets.antt =====
-- internal/lifecycle/validation.go: the search for secret-like keys in a decoded JSON value. An
-- object lists its fields in the order in which Go iterates over the map, which may be any. A path
-- is a list of its steps, which the code prints with dots and brackets.
pub mod Keys
mod Examples
use aksagent_sandbox.Base.{
  ℕ, suc, ◌+◌, Bool, true, false, ◌&&◌, ◌||◌, Option, none, some, String, List, [], ◌∷◌, ◌++◌, leb,
  if◌then◌else◌, first,
}
use aksagent_sandbox.Base.Bytes.{Bytes, codes}
use aksagent_sandbox.Base.Text.{contains}

mutual
  pub data Json : Type 0 where
    scalar : Json
    object : Fields → Json
    array : Items → Json

  pub data Fields : Type 0 where
    end : Fields
    field : String → Json → Fields → Fields

  pub data Items : Type 0 where
    nil : Items
    cons : Json → Items → Items

pub data Step : Type 0 where
  key_step : String → Step
  index_step : ℕ → Step

-- normalizeKey
pub normalize_key : Bytes → Bytes
normalize_key [] = []
normalize_key (c ∷ cs) =
    let rest = normalize_key cs in
    if leb 65 c && leb c 90
    then (c + 32) ∷ rest
    else if leb 97 c && leb c 122
    then c ∷ rest
    else rest

abbrev pub secret_terms : List String
secret_terms =
    "password" ∷ "passwd" ∷ "secret" ∷ "token" ∷ "credential" ∷ "privatekey" ∷ "clientsecret"
    ∷ "accesskey" ∷ "authorization" ∷ "bearer" ∷ []

any_term : List String → Bytes → Bool
unfolding contains
any_term [] key = false
any_term (t ∷ ts) key = contains key (codes t) || any_term ts key

unfoldable pub is_secret_key : String → Bool
unfolding any_term normalize_key
is_secret_key key = any_term secret_terms (normalize_key (codes key))

unfoldable mutual
  unfolding first is_secret_key

  -- findSecretLikeField
  pub find_secret : Json → List Step → Option (List Step)
  find_secret scalar path = none
  find_secret (object fs) path = find_in_fields fs path
  find_secret (array is) path = find_in_items is 0 path

  pub find_in_fields : Fields → List Step → Option (List Step)
  find_in_fields end path = none
  find_in_fields (field key child rest) path =
      let next = path ++ key_step key ∷ [] in
      if is_secret_key key
      then some next
      else first (find_secret child next) (find_in_fields rest path)

  pub find_in_items : Items → ℕ → List Step → Option (List Step)
  find_in_items nil i path = none
  find_in_items (cons child rest) i path =
      first (find_secret child (path ++ index_step i ∷ [])) (find_in_items rest (suc i) path)

-- SecretLikeField, of the value that JSON gives.
unfoldable pub secret_like_field : Json → Option (List Step)
unfolding find_secret
secret_like_field v = find_secret v []
