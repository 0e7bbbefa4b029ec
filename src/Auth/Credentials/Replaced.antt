-- ===== src/Auth/Credentials/Replaced.antt =====
-- internal/auth/credentials.go: what StoreRefresh leaves in the store and in the cache.
use mathlib.Core.Path.{subst}
use aksagent_sandbox.Base.{
  ℕ, ◌≡◌, refl, ap, ◌∙◌, String, Option, none, some, Result, ok, err, arith,
}
use aksagent_sandbox.Base.Map.{find, find-delete_self}
use aksagent_sandbox.Auth.Credentials.{
  StoredCredential, ReadError, missing, read_fault, Services, Cache, CredentialManager, Held, abort,
  finish, Done, released, close_lease, written, replace_credential, locked_store, store_refresh,
}
use aksagent_sandbox.Auth.Credentials.Fresh.{Vault}

module _ {W : Type 0} (services : Services W) (m : CredentialManager) (user : String)
    (vault : Vault services user) where
  open services use {lock, unlock, read, write, refresh, now}
  open vault use {newest}

  -- The same for a credential that a login has stored.
  abbrev Replaced : String → Held W Unit → Type 0
  Replaced credential (abort e cache w) = Unit {0}
  Replaced credential (finish a cache w) =
      (find user cache ≡ none) × ((newest w).value ≡ credential)

  abbrev Forgotten : String → Done services m user Unit → Type 0
  Forgotten credential (err e, cache, w) = Unit {0}
  Forgotten credential (ok a, cache, w) = (find user cache ≡ none) × ((newest w).value ≡ credential)

  written-Replaced :
      (credential : String) (cache : Cache) (w : W) (p : Result ℕ String × W)
      → write user credential w ≡ p
      → Replaced credential (written services m user cache p)
  unfolding written
  written-Replaced credential cache w (err e, w1) h = tt
  written-Replaced credential cache w (ok v, w1) h =
      (find-delete_self user cache, ap (λ s. s.value) (vault.write_newest credential v w w1 h))

  replace_credential-Replaced :
      (credential : String) (cache : Cache) (p : Result ReadError StoredCredential × W)
      → Replaced credential (replace_credential services m user credential cache p)
  unfolding replace_credential
  replace_credential-Replaced credential cache (err (read_fault n), w) = tt
  replace_credential-Replaced credential cache (err missing, w) =
      written-Replaced credential cache w (write user credential w) refl
  replace_credential-Replaced credential cache (ok _, w) =
      written-Replaced credential cache w (write user credential w) refl

  released-Forgotten :
      (credential : String) (a : Unit) (cache : Cache) (p : Option ℕ × W)
      → (find user cache ≡ none) × ((newest p.1).value ≡ credential)
      → Forgotten credential (released services m user a cache p)
  unfolding released
  released-Forgotten credential a cache (some e, w) c = tt
  released-Forgotten credential a cache (none, w) c = c

  close_lease-Forgotten :
      (credential : String) (h : Held W Unit)
      → Replaced credential h
      → Forgotten credential (close_lease services m user h)
  unfolding close_lease
  close_lease-Forgotten credential (abort e cache w) c = tt
  close_lease-Forgotten credential (finish a cache w) c =
      released-Forgotten credential a cache (unlock user w)
        (c.0, ap (λ s. s.value) (vault.unlock_keeps w) ∙ c.1)

  locked_store-Forgotten :
      (credential : String) (cache : Cache) (p : Option ℕ × W)
      → Forgotten credential (locked_store services m user credential cache p)
  unfolding locked_store
  locked_store-Forgotten credential cache (some e, w) = tt
  locked_store-Forgotten credential cache (none, w) =
      close_lease-Forgotten credential
        (replace_credential services m user credential cache (read user w))
        (replace_credential-Replaced credential cache (read user w))

  store_refresh-Forgotten :
      (credential : String) (cache : Cache) (w : W)
      → Forgotten credential (store_refresh services m user credential cache w)
  unfolding store_refresh
  store_refresh-Forgotten credential cache w =
      ground (arith, locked_store-Forgotten credential cache (lock user w))

  -- When `StoreRefresh` succeeds, the given credential is the stored one and the cache has no token
  -- of the user.
  pub store_refresh-replaces :
      (credential : String) (cache cache' : Cache) (w w' : W)
      → store_refresh services m user credential cache w ≡ (ok tt, cache', w')
      → (find user cache' ≡ none) × ((newest w').value ≡ credential)
  store_refresh-replaces credential cache cache' w w' h =
      subst (Forgotten credential) h (store_refresh-Forgotten credential cache w)
