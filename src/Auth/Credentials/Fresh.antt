-- ===== src/Auth/Credentials/Fresh.antt =====
-- internal/auth/credentials.go: the cache answers for the credential that is stored.
use mathlib.Core.Path.{subst}
use aksagent_sandbox.Base.{
  ℕ, ◌≡◌, refl, sym, ap, ◌∙◌, String, Option, none, some, Result, ok, err, arith, eq_iff,
}
use aksagent_sandbox.Base.Map.{find, find-put_self}
use aksagent_sandbox.Auth.Credentials.{
  StoredCredential, RefreshResult, CachedAccess, ReadError, missing, read_fault, RefreshError,
  invalid_grant, refresh_fault, Services, Cache, CredentialManager, Held, abort, finish, Done,
  released, close_lease, remember, rotated, use_result, second_refresh, reread, first_refresh,
  from_cache, usable, cached, stored, locked_access, access_token,
}

-- The secret of one user while its lease is held: no one else writes it, and the calls of GitHub
-- and of the locker leave it alone.
pub record Vault {W : Type 0} (services : Services W) (user : String) : Type 0 where
  pub newest : W → StoredCredential
  pub read_newest :
      (w w' : W) (c : StoredCredential) → services.read user w ≡ (ok c, w') → c ≡ newest w'
  pub write_newest :
      (v version : String) (w w' : W)
      → services.write user v w ≡ (ok version, w')
      → newest w' ≡ record { value = v; version = version }
  pub refresh_keeps : (v : String) (w : W) → newest (services.refresh v w).1 ≡ newest w
  pub unlock_keeps : (w : W) → newest (services.unlock user w).1 ≡ newest w

-- The cache holds the token and its expiry, made from the given version of the credential.
pub record IsCached (user : String) (cache : Cache) (token : String) (expires : ℕ)
    (version : String) : Type 0 where
  pub entry : CachedAccess
  pub is_entry : find user cache ≡ some entry
  pub is_token : entry.token ≡ token
  pub is_expiry : entry.expires_at ≡ expires
  pub is_version : entry.source_version ≡ version

module _ {W : Type 0} (services : Services W) (m : CredentialManager) (user : String)
    (vault : Vault services user) where
  open services use {lock, unlock, read, write, refresh, now}
  open vault use {newest}

  -- What holds where the code is about to give the lease back.
  abbrev Coherent : Held W (String × ℕ) → Type 0
  Coherent (abort e cache w) = Unit {0}
  Coherent (finish a cache w) = IsCached user cache a.0 a.1 (newest w).version

  remember-Coherent :
      (r : RefreshResult) (version : String) (cache : Cache) (w : W)
      → version ≡ (newest w).version
      → Coherent (remember services m user r version cache w)
  unfolding remember
  remember-Coherent r version cache w e = record {
    entry = record {
      token = r.access_token;
      expires_at = r.access_expires_at;
      source_version = version;
    };
    is_entry = find-put_self user _ cache;
    is_token = refl;
    is_expiry = refl;
    is_version = e;
  }

  rotated-Coherent :
      (r : RefreshResult) (v : String) (cache : Cache) (w : W) (p : Result ℕ String × W)
      → write user v w ≡ p
      → Coherent (rotated services m user r cache p)
  unfolding rotated
  rotated-Coherent r v cache w (err e, w1) h = tt
  rotated-Coherent r v cache w (ok version, w1) h =
      let good =
        remember-Coherent r version cache w1
          (sym (ap (λ c. c.version) (vault.write_newest v version w w1 h))) in
      ground (arith, good)

  use_result-Coherent :
      (current : StoredCredential) (r : RefreshResult) (cache : Cache) (w : W)
      → current.version ≡ (newest w).version
      → Coherent (use_result services m user current r cache w)
  unfolding use_result
  use_result-Coherent current r cache w e = ground (
    arith,
    remember-Coherent r current.version cache w e,
    rotated-Coherent r r.refresh_token cache w (write user r.refresh_token w) refl,
  )

  second_refresh-Coherent :
      (latest : StoredCredential) (cache : Cache) (p : Result RefreshError RefreshResult × W)
      → latest.version ≡ (newest p.1).version
      → Coherent (second_refresh services m user latest cache p)
  unfolding second_refresh
  second_refresh-Coherent latest cache (err invalid_grant, w) e = tt
  second_refresh-Coherent latest cache (err (refresh_fault n), w) e = tt
  second_refresh-Coherent latest cache (ok r, w) e = use_result-Coherent latest r cache w e

  -- A refresh leaves the version that was read the newest.
  kept :
      (c : StoredCredential) (v : String) (w : W)
      → c ≡ newest w
      → c.version ≡ (newest (refresh v w).1).version
  kept c v w e = ap (λ s. s.version) (e ∙ sym (vault.refresh_keeps v w))

  reread-Coherent :
      (current : StoredCredential) (cache : Cache) (w : W)
      (p : Result ReadError StoredCredential × W)
      → read user w ≡ p
      → Coherent (reread services m user current cache p)
  unfolding reread
  reread-Coherent current cache w (err e, w1) h = tt
  reread-Coherent current cache w (ok latest, w1) h = ground (
    arith,
    second_refresh-Coherent latest cache (refresh latest.value w1)
        (kept latest latest.value w1 (vault.read_newest w w1 latest h)),
  )

  first_refresh-Coherent :
      (current : StoredCredential) (cache : Cache) (p : Result RefreshError RefreshResult × W)
      → current.version ≡ (newest p.1).version
      → Coherent (first_refresh services m user current cache p)
  unfolding first_refresh
  first_refresh-Coherent current cache (err invalid_grant, w) e =
      reread-Coherent current cache w (read user w) refl
  first_refresh-Coherent current cache (err (refresh_fault n), w) e = tt
  first_refresh-Coherent current cache (ok r, w) e = use_result-Coherent current r cache w e

  usable-version :
      (version : String) (t : ℕ) (o : Option CachedAccess) (v : CachedAccess)
      → usable m version t o ≡ some v
      → (o ≡ some v) × (v.source_version ≡ version)
  unfolding usable
  usable-version version t none v h = cc
  usable-version version t (some x) v h = ground (arith, eq_iff x.source_version version)

  from_cache-Coherent :
      (current : StoredCredential) (cache : Cache) (w : W) (o : Option CachedAccess)
      → cached m cache user current.version (now w) ≡ o
      → current ≡ newest w
      → Coherent (from_cache services m user current cache w o)
  unfolding from_cache cached
  from_cache-Coherent current cache w (some v) h e =
      let hit = usable-version current.version (now w) (find user cache) v h in
      record {
        entry = v;
        is_entry = hit.0;
        is_token = refl;
        is_expiry = refl;
        is_version = hit.1 ∙ ap (λ s. s.version) e;
      }
  from_cache-Coherent current cache w none h e =
      first_refresh-Coherent current cache (refresh current.value w)
        (kept current current.value w e)

  stored-Coherent :
      (cache : Cache) (w : W) (p : Result ReadError StoredCredential × W)
      → read user w ≡ p
      → Coherent (stored services m user cache p)
  unfolding stored
  stored-Coherent cache w (err missing, w1) h = tt
  stored-Coherent cache w (err (read_fault n), w1) h = tt
  stored-Coherent cache w (ok current, w1) h = ground (
    arith,
    from_cache-Coherent current cache w1 (cached m cache user current.version (now w1)) refl
        (vault.read_newest w w1 current h),
  )

  -- What holds after the release, for a result that the caller gets.
  abbrev Settled : Done services m user (String × ℕ) → Type 0
  Settled (err e, cache, w) = Unit {0}
  Settled (ok a, cache, w) = IsCached user cache a.0 a.1 (newest w).version

  released-Settled :
      (a : String × ℕ) (cache : Cache) (version : String) (p : Option ℕ × W)
      → (newest p.1).version ≡ version
      → IsCached user cache a.0 a.1 version
      → Settled (released services m user a cache p)
  unfolding released
  released-Settled a cache version (some e, w) h c = tt
  released-Settled a cache version (none, w) h c =
      subst (λ v. IsCached user cache a.0 a.1 v) (sym h) c

  close_lease-Settled :
      (h : Held W (String × ℕ)) → Coherent h → Settled (close_lease services m user h)
  unfolding close_lease
  close_lease-Settled (abort e cache w) c = tt
  close_lease-Settled (finish a cache w) c =
      released-Settled a cache (newest w).version (unlock user w)
        (ap (λ s. s.version) (vault.unlock_keeps w)) c

  locked_access-Settled :
      (cache : Cache) (p : Option ℕ × W) → Settled (locked_access services m user cache p)
  unfolding locked_access
  locked_access-Settled cache (some e, w) = tt
  locked_access-Settled cache (none, w) =
      close_lease-Settled (stored services m user cache (read user w))
        (stored-Coherent cache w (read user w) refl)

  access_token-Settled : (cache : Cache) (w : W) → Settled (access_token services m user cache w)
  unfolding access_token
  access_token-Settled cache w = ground (arith, locked_access-Settled cache (lock user w))

  -- A token that `AccessToken` returns, from the cache or from GitHub and with or without a
  -- rotation, is the cached one, and its entry has the version of the credential that is stored.
  pub access_token-IsCached :
      (cache cache' : Cache) (w w' : W) (token : String) (expires : ℕ)
      → access_token services m user cache w ≡ (ok (token, expires), cache', w')
      → IsCached user cache' token expires (newest w').version
  access_token-IsCached cache cache' w w' token expires h =
      subst Settled h (access_token-Settled cache w)
