-- ===== src/Auth/Credentials/Lease.antt =====
-- internal/auth/credentials.go: every lease that is taken is given back, on every path.
use aksagent_sandbox.Base.{
  ℕ, suc, ◌+◌, ◌≡◌, refl, ◌∙◌, String, Option, none, some, Result, ok, err, arith,
}
use aksagent_sandbox.Auth.Credentials.{
  StoredCredential, RefreshResult, CachedAccess, ReadError, missing, read_fault, RefreshError,
  invalid_grant, refresh_fault, Services, Cache, CredentialManager, Held, abort, finish, released,
  close_lease, remember, rotated, use_result, second_refresh, reread, first_refresh, from_cache,
  cached, stored, locked_access, access_token, written, replace_credential, locked_store,
  store_refresh,
}

-- Counters of the leases of one user that were taken and of the releases that were asked for.
pub record LeaseCount {W : Type 0} (services : Services W) (user : String) : Type 0 where
  pub taken : W → ℕ
  pub given : W → ℕ
  pub lock_taken :
      (w w' : W)
      → services.lock user w ≡ (none, w')
      → (taken w' ≡ suc (taken w)) × (given w' ≡ given w)
  pub lock_refused :
      (w w' : W) (e : ℕ)
      → services.lock user w ≡ (some e, w')
      → (taken w' ≡ taken w) × (given w' ≡ given w)
  pub unlock_given :
      (w : W)
      → (taken (services.unlock user w).1 ≡ taken w)
        × (given (services.unlock user w).1 ≡ suc (given w))
  pub read_keeps :
      (w : W)
      → (taken (services.read user w).1 ≡ taken w) × (given (services.read user w).1 ≡ given w)
  pub write_keeps :
      (v : String) (w : W)
      → (taken (services.write user v w).1 ≡ taken w)
        × (given (services.write user v w).1 ≡ given w)
  pub refresh_keeps :
      (v : String) (w : W)
      → (taken (services.refresh v w).1 ≡ taken w) × (given (services.refresh v w).1 ≡ given w)

module _ {W : Type 0} (services : Services W) (m : CredentialManager) (user : String)
    (count : LeaseCount services user) where
  open services use {lock, unlock, read, write, refresh, now}
  open count use {taken, given}

  -- Neither counter differs between two states of the world.
  abbrev Same : W → W → Type 0
  Same w w' = (taken w' ≡ taken w) × (given w' ≡ given w)

  abbrev world : {A : Type 0} → Held W A → W
  world (abort e cache w) = w
  world (finish a cache w) = w

  Same-trans : {w w1 w2 : W} → Same w w1 → Same w1 w2 → Same w w2
  Same-trans p q = (q.0 ∙ p.0, q.1 ∙ p.1)

  released_world :
      {A : Type 0} (a : A) (cache : Cache) (p : Option ℕ × W)
      → (released services m user a cache p).2 ≡ p.1
  unfolding released
  released_world a cache (none, w) = refl
  released_world a cache (some e, w) = refl

  rotated-Same :
      (r : RefreshResult) (cache : Cache) (p : Result ℕ String × W)
      → Same p.1 (world (rotated services m user r cache p))
  unfolding rotated remember
  rotated-Same r cache (err e, w) = (refl, refl)
  rotated-Same r cache (ok v, w) = ground arith

  use_result-Same :
      (current : StoredCredential) (r : RefreshResult) (cache : Cache) (w : W)
      → Same w (world (use_result services m user current r cache w))
  unfolding use_result remember
  use_result-Same current r cache w = ground (
    arith,
    Same-trans (count.write_keeps r.refresh_token w)
        (rotated-Same r cache (write user r.refresh_token w)),
  )

  second_refresh-Same :
      (latest : StoredCredential) (cache : Cache) (p : Result RefreshError RefreshResult × W)
      → Same p.1 (world (second_refresh services m user latest cache p))
  unfolding second_refresh
  second_refresh-Same latest cache (err invalid_grant, w) = (refl, refl)
  second_refresh-Same latest cache (err (refresh_fault n), w) = (refl, refl)
  second_refresh-Same latest cache (ok r, w) = use_result-Same latest r cache w

  reread-Same :
      (current : StoredCredential) (cache : Cache) (p : Result ReadError StoredCredential × W)
      → Same p.1 (world (reread services m user current cache p))
  unfolding reread
  reread-Same current cache (err e, w) = (refl, refl)
  reread-Same current cache (ok latest, w) = ground (
    arith,
    Same-trans (count.refresh_keeps latest.value w)
        (second_refresh-Same latest cache (refresh latest.value w)),
  )

  first_refresh-Same :
      (current : StoredCredential) (cache : Cache) (p : Result RefreshError RefreshResult × W)
      → Same p.1 (world (first_refresh services m user current cache p))
  unfolding first_refresh
  first_refresh-Same current cache (err invalid_grant, w) =
      Same-trans (count.read_keeps w) (reread-Same current cache (read user w))
  first_refresh-Same current cache (err (refresh_fault n), w) = (refl, refl)
  first_refresh-Same current cache (ok r, w) = use_result-Same current r cache w

  from_cache-Same :
      (current : StoredCredential) (cache : Cache) (w : W) (o : Option CachedAccess)
      → Same w (world (from_cache services m user current cache w o))
  unfolding from_cache
  from_cache-Same current cache w (some v) = (refl, refl)
  from_cache-Same current cache w none =
      Same-trans (count.refresh_keeps current.value w)
        (first_refresh-Same current cache (refresh current.value w))

  stored-Same :
      (cache : Cache) (p : Result ReadError StoredCredential × W)
      → Same p.1 (world (stored services m user cache p))
  unfolding stored
  stored-Same cache (err missing, w) = (refl, refl)
  stored-Same cache (err (read_fault n), w) = (refl, refl)
  stored-Same cache (ok current, w) =
      ground (arith, from_cache-Same current cache w (cached m cache user current.version (now w)))

  written-Same :
      (cache : Cache) (p : Result ℕ String × W) → Same p.1 (world (written services m user cache p))
  unfolding written
  written-Same cache (err e, w) = (refl, refl)
  written-Same cache (ok _, w) = (refl, refl)

  replace_credential-Same :
      (credential : String) (cache : Cache) (p : Result ReadError StoredCredential × W)
      → Same p.1 (world (replace_credential services m user credential cache p))
  unfolding replace_credential
  replace_credential-Same credential cache (err (read_fault n), w) = (refl, refl)
  replace_credential-Same credential cache (err missing, w) =
      Same-trans (count.write_keeps credential w) (written-Same cache (write user credential w))
  replace_credential-Same credential cache (ok _, w) =
      Same-trans (count.write_keeps credential w) (written-Same cache (write user credential w))

  -- As many leases were given back between two states as were taken.
  abbrev pub Balanced : W → W → Type 0
  Balanced w w' = taken w' + given w ≡ given w' + taken w

  unlock-Balanced :
      (w w1 w2 : W) → lock user w ≡ (none, w1) → Same w1 w2 → Balanced w (unlock user w2).1
  unlock-Balanced w w1 w2 l s = omega (arith, count.lock_taken w w1 l, count.unlock_given w2)

  close_lease-Balanced :
      {A : Type 0} (w w1 : W) (h : Held W A)
      → lock user w ≡ (none, w1)
      → Same w1 (world h)
      → Balanced w (close_lease services m user h).2
  unfolding close_lease
  close_lease-Balanced w w1 (abort e cache w2) l s = unlock-Balanced w w1 w2 l s
  close_lease-Balanced w w1 (finish a cache w2) l s =
      rw (released_world a cache (unlock user w2)) (unlock-Balanced w w1 w2 l s)

  locked_access-Balanced :
      (cache : Cache) (w : W) (p : Option ℕ × W)
      → lock user w ≡ p
      → Balanced w (locked_access services m user cache p).2
  unfolding locked_access
  locked_access-Balanced cache w (some e, w1) l = omega (arith, count.lock_refused w w1 e l)
  locked_access-Balanced cache w (none, w1) l =
      close_lease-Balanced w w1 (stored services m user cache (read user w1)) l
        (Same-trans (count.read_keeps w1) (stored-Same cache (read user w1)))

  locked_store-Balanced :
      (credential : String) (cache : Cache) (w : W) (p : Option ℕ × W)
      → lock user w ≡ p
      → Balanced w (locked_store services m user credential cache p).2
  unfolding locked_store
  locked_store-Balanced credential cache w (some e, w1) l =
      omega (arith, count.lock_refused w w1 e l)
  locked_store-Balanced credential cache w (none, w1) l =
      close_lease-Balanced w w1 (replace_credential services m user credential cache (read user w1))
        l
        (Same-trans (count.read_keeps w1) (replace_credential-Same credential cache (read user w1)))

  -- `AccessToken` asks for the release of exactly the leases that it took, whatever it returns.
  pub access_token-Balanced :
      (cache : Cache) (w : W) → Balanced w (access_token services m user cache w).2
  unfolding access_token
  access_token-Balanced cache w = ground (arith, locked_access-Balanced cache w (lock user w) refl)

  -- So does `StoreRefresh`.
  pub store_refresh-Balanced :
      (credential : String) (cache : Cache) (w : W)
      → Balanced w (store_refresh services m user credential cache w).2
  unfolding store_refresh
  store_refresh-Balanced credential cache w =
      ground (arith, locked_store-Balanced credential cache w (lock user w) refl)
