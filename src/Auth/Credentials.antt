-- ===== src/Auth/Credentials.antt =====
-- internal/auth/credentials.go: CredentialManager. The locker, the secret store, GitHub and the
-- clock are calls that carry the state `W` of the world; the cache is the manager's own.
pub mod Lease
pub mod Fresh
pub mod Replaced
mod Examples
use aksagent_sandbox.Base.{
  ℕ, ◌+◌, ◌*◌, String, Bool, true, false, not, ◌&&◌, ◌||◌, Option, none, some, List, ◌==◌, ltb, eqb,
  if◌then◌else◌, Result, ok, err,
}
use aksagent_sandbox.Base.Map.{find, put, delete}

pub record StoredCredential : Type 0 where
  pub value : String
  pub version : String

pub record RefreshResult : Type 0 where
  pub access_token : String
  pub access_expires_at : ℕ
  pub refresh_token : String

pub record CachedAccess : Type 0 where
  pub token : String
  pub expires_at : ℕ
  pub source_version : String

pub data ReadError : Type 0 where
  missing : ReadError
  read_fault : ℕ → ReadError

pub data RefreshError : Type 0 where
  invalid_grant : RefreshError
  refresh_fault : ℕ → RefreshError

pub data CredentialError : Type 0 where
  user_required not_configured credential_empty incomplete_credential reauthentication :
      CredentialError
  token_unusable empty_version : CredentialError
  lock_failed write_failed release_failed : ℕ → CredentialError
  read_failed reread_failed : ReadError → CredentialError
  refresh_failed : RefreshError → CredentialError

pub record Services (W : Type 0) : Type 0 where
  -- `Locker.Lock`, and the function that it returns
  pub lock : String → W → Option ℕ × W
  pub unlock : String → W → Option ℕ × W
  pub read : String → W → Result ReadError StoredCredential × W
  pub write : String → String → W → Result ℕ String × W
  pub refresh : String → W → Result RefreshError RefreshResult × W
  pub now : W → ℕ

abbrev pub Cache : Type 0
Cache = List (String × CachedAccess)

-- Which interfaces are set; a skew that is not positive is given as 0.
pub record CredentialManager : Type 0 where
  pub has_store : Bool
  pub has_refresher : Bool
  pub has_locker : Bool
  pub skew : ℕ

unfoldable pub skew_of : CredentialManager → ℕ
skew_of m = if eqb m.skew 0 then 30 * 1_000_000_000 else m.skew

-- How the code under the lease ends: by a return that leaves the release to `defer`, or at the
-- release itself.
pub data Held (W A : Type 0) : Type 0 where
  abort : CredentialError → Cache → W → Held W A
  finish : A → Cache → W → Held W A

-- `cached`, at the time `now`.
usable : CredentialManager → String → ℕ → Option CachedAccess → Option CachedAccess
unfolding skew_of
usable m version now none = none
usable m version now (some v) =
    if not (v.source_version == version) || not (ltb (now + skew_of m) v.expires_at)
    then none
    else some v

pub cached : CredentialManager → Cache → String → String → ℕ → Option CachedAccess
unfolding usable find
cached m cache user version now = usable m version now (find user cache)

module _ {W : Type 0} (services : Services W) (m : CredentialManager) (user : String) where
  open services use {lock, unlock, read, write, refresh, now}

  abbrev Done : Type 0 → Type 0
  Done A = Result CredentialError A × Cache × W

  released : {A : Type 0} → A → Cache → Option ℕ × W → Done A
  released a cache (none, w) = (ok a, cache, w)
  released a cache (some e, w) = (err (release_failed e), cache, w)

  -- The release at the end, and the one that `defer` makes on every other return.
  close_lease : {A : Type 0} → Held W A → Done A
  unfolding released
  close_lease (abort e cache w) = (err e, cache, (unlock user w).1)
  close_lease (finish a cache w) = released a cache (unlock user w)

  remember : RefreshResult → String → Cache → W → Held W (String × ℕ)
  unfolding put
  remember r version cache w =
      finish (r.access_token, r.access_expires_at)
        (put user
          (record {
            token = r.access_token;
            expires_at = r.access_expires_at;
            source_version = version;
          })
          cache)
        w

  rotated : RefreshResult → Cache → Result ℕ String × W → Held W (String × ℕ)
  unfolding remember
  rotated r cache (err e, w) = abort (write_failed e) cache w
  rotated r cache (ok version, w) =
      if version == "" then abort empty_version cache w else remember r version cache w

  use_result : StoredCredential → RefreshResult → Cache → W → Held W (String × ℕ)
  unfolding remember rotated
  use_result current r cache w =
      if r.access_token == "" || not (ltb (now w) r.access_expires_at)
      then abort token_unusable cache w
      else if not (r.refresh_token == "") && not (r.refresh_token == current.value)
      then rotated r cache (write user r.refresh_token w)
      else remember r current.version cache w

  second_refresh :
      StoredCredential → Cache → Result RefreshError RefreshResult × W → Held W (String × ℕ)
  unfolding use_result
  second_refresh latest cache (err invalid_grant, w) = abort reauthentication cache w
  second_refresh latest cache (err (refresh_fault n), w) =
      abort (refresh_failed (refresh_fault n)) cache w
  second_refresh latest cache (ok r, w) = use_result latest r cache w

  reread : StoredCredential → Cache → Result ReadError StoredCredential × W → Held W (String × ℕ)
  unfolding second_refresh
  reread current cache (err e, w) = abort (reread_failed e) cache w
  reread current cache (ok latest, w) =
      if latest.version == "" || latest.version == current.version
      then abort reauthentication cache w
      else second_refresh latest cache (refresh latest.value w)

  first_refresh :
      StoredCredential → Cache → Result RefreshError RefreshResult × W → Held W (String × ℕ)
  unfolding use_result reread
  first_refresh current cache (err invalid_grant, w) = reread current cache (read user w)
  first_refresh current cache (err (refresh_fault n), w) =
      abort (refresh_failed (refresh_fault n)) cache w
  first_refresh current cache (ok r, w) = use_result current r cache w

  from_cache : StoredCredential → Cache → W → Option CachedAccess → Held W (String × ℕ)
  unfolding first_refresh
  from_cache current cache w (some v) = finish (v.token, v.expires_at) cache w
  from_cache current cache w none = first_refresh current cache (refresh current.value w)

  stored : Cache → Result ReadError StoredCredential × W → Held W (String × ℕ)
  unfolding from_cache cached
  stored cache (err missing, w) = abort reauthentication cache w
  stored cache (err (read_fault n), w) = abort (read_failed (read_fault n)) cache w
  stored cache (ok current, w) =
      if current.value == "" || current.version == ""
      then abort incomplete_credential cache w
      else from_cache current cache w (cached m cache user current.version (now w))

  locked_access : Cache → Option ℕ × W → Done (String × ℕ)
  unfolding stored close_lease
  locked_access cache (some e, w) = (err (lock_failed e), cache, w)
  locked_access cache (none, w) = close_lease (stored cache (read user w))

  -- CredentialManager.AccessToken
  pub access_token : Cache → W → Done (String × ℕ)
  unfolding locked_access
  access_token cache w =
      if user == ""
      then (err user_required, cache, w)
      else if not m.has_store || not m.has_refresher || not m.has_locker
      then (err not_configured, cache, w)
      else locked_access cache (lock user w)

  written : Cache → Result ℕ String × W → Held W Unit
  unfolding delete
  written cache (err e, w) = abort (write_failed e) cache w
  written cache (ok _, w) = finish tt (delete user cache) w

  replace_credential : String → Cache → Result ReadError StoredCredential × W → Held W Unit
  unfolding written
  replace_credential credential cache (err (read_fault n), w) =
      abort (read_failed (read_fault n)) cache w
  replace_credential credential cache (err missing, w) = written cache (write user credential w)
  replace_credential credential cache (ok _, w) = written cache (write user credential w)

  locked_store : String → Cache → Option ℕ × W → Done Unit
  unfolding replace_credential close_lease
  locked_store credential cache (some e, w) = (err (lock_failed e), cache, w)
  locked_store credential cache (none, w) =
      close_lease (replace_credential credential cache (read user w))

  -- CredentialManager.StoreRefresh
  pub store_refresh : String → Cache → W → Done Unit
  unfolding locked_store
  store_refresh credential cache w =
      if user == ""
      then (err user_required, cache, w)
      else if not m.has_store || not m.has_locker
      then (err not_configured, cache, w)
      else if credential == ""
      then (err credential_empty, cache, w)
      else locked_store credential cache (lock user w)
