-- ===== src/Auth/Login.antt =====
-- internal/auth/device.go: LoginService. GitHub, the credential writer and the clocks are calls that
-- carry the state `W` of the world; the device states are those of MemoryDeviceStateStore.
pub mod Polls
pub mod Admitted
pub mod Pace
mod Examples
use aksagent_sandbox.Base.{
  ℕ, ◌+◌, ◌*◌, ◌/◌, ◌≡◌, refl, String, Bool, true, false, not, ◌&&◌, ◌||◌, Option, none, some, List,
  ◌==◌, ltb, eqb, if◌then◌else◌, Result, ok, err,
}
use aksagent_sandbox.Base.Bytes.{Bytes}
use aksagent_sandbox.Base.Map.{delete}
use aksagent_sandbox.Auth.Session.{
  Identity, SessionClaims, Codec, SessionManager, SessionError, issue, second,
}
use aksagent_sandbox.Auth.DeviceStates.{
  DeviceState, States, StoreError, put_state, get_state, update_state,
}

-- Durations that are not positive are given as 0.
pub record DeviceAuthorization : Type 0 where
  pub device_code : String
  pub user_code : String
  pub verification_uri : String
  pub expires_in : ℕ
  pub interval : ℕ

pub record DeviceToken : Type 0 where
  pub access_token : String
  pub refresh_token : String

pub record GitHubUser : Type 0 where
  pub id : String
  pub login : String

pub record DeviceStart : Type 0 where
  pub state : String
  pub user_code : String
  pub verification_uri : String
  pub expires_in : ℕ
  pub interval : ℕ
  pub expires_seconds : ℕ
  pub interval_seconds : ℕ

pub record LoginResult : Type 0 where
  pub session_token : Bytes
  pub expires_at : ℕ
  pub identity : Identity

pub data PollError : Type 0 where
  poll_slow_down poll_pending : PollError
  poll_fault : ℕ → PollError

pub data LoginError : Type 0 where
  not_configured incomplete_authorization slow_down pending : LoginError
  no_credentials no_user_id membership_required short_random : LoginError
  start_failed random_failed poll_failed user_failed member_failed credential_failed :
      ℕ → LoginError
  store_failed : StoreError → LoginError
  issue_failed : SessionError → LoginError

pub record LoginService (W : Type 0) : Type 0 where
  pub has_github : Bool
  pub has_states : Bool
  pub has_credentials : Bool
  pub primary_org : String
  pub codec : Codec SessionClaims
  pub sessions : SessionManager
  pub start_device_flow : W → Result ℕ DeviceAuthorization × W
  pub poll_device_flow : String → W → Result PollError DeviceToken × W
  pub current_user : String → W → Result ℕ GitHubUser × W
  pub is_active_org_member : String → String → W → Result ℕ Bool × W
  pub store_refresh : String → String → W → Option ℕ × W
  -- the number of bytes that the random source filled in, and the 32 bytes; base64.RawURLEncoding
  pub random : W → Result ℕ (ℕ × Bytes) × W
  pub encode_base64 : Bytes → String
  pub now : W → ℕ
  pub store_now : W → ℕ
  pub session_now : W → ℕ

module _ {W : Type 0} (s : LoginService W) where
  abbrev pub Outcome : Type 0 → Type 0
  Outcome A = Result LoginError A × States × W

  pub is_configured : Bool
  is_configured = s.has_github && (s.has_states && s.has_credentials)

  abbrev pub interval_of : DeviceAuthorization → ℕ
  interval_of a = if eqb a.interval 0 then 5 * second else a.interval

  pub started : DeviceStart → States → W → Result StoreError States → Outcome DeviceStart
  started d m w (err e) = (err (store_failed e), m, w)
  started d m w (ok m') = (ok d, m', w)

  -- randomState
  pub random_state : Result ℕ (ℕ × Bytes) × W → Result LoginError String × W
  random_state (err e, w) = (err (random_failed e), w)
  random_state (ok (n, raw), w) =
      (if eqb n 32 then ok (s.encode_base64 raw) else err short_random, w)

  pub with_state : DeviceAuthorization → States → Result LoginError String × W → Outcome DeviceStart
  unfolding started put_state
  with_state a m (err e, w) = (err e, m, w)
  with_state a m (ok state, w) =
      started
        (record {
          state = state;
          user_code = a.user_code;
          verification_uri = a.verification_uri;
          expires_in = a.expires_in;
          interval = interval_of a;
          expires_seconds = a.expires_in / second;
          interval_seconds = interval_of a / second;
        })
        m w
        (put_state state
          (record {
            device_code = a.device_code;
            expires_at = s.now w + a.expires_in;
            next_poll_at = s.now w;
            poll_every = interval_of a;
          })
          m)

  pub authorized : States → Result ℕ DeviceAuthorization × W → Outcome DeviceStart
  unfolding with_state random_state
  authorized m (err e, w) = (err (start_failed e), m, w)
  authorized m (ok a, w) =
      if a.device_code == "" || a.user_code == "" || a.verification_uri == "" || eqb a.expires_in 0
      then (err incomplete_authorization, m, w)
      else with_state a m (random_state (s.random w))

  -- LoginService.Start
  pub start : States → W → Outcome DeviceStart
  unfolding authorized is_configured
  start m w =
      if is_configured then authorized m (s.start_device_flow w) else (err not_configured, m, w)

  pub issued : Identity → States → W → Result SessionError (Bytes × ℕ) → Outcome LoginResult
  issued identity m w (err e) = (err (issue_failed e), m, w)
  issued identity m w (ok (token, expires)) =
      (ok (record { session_token = token; expires_at = expires; identity = identity }), m, w)

  pub written : Identity → States → Option ℕ × W → Outcome LoginResult
  unfolding issued issue
  written identity m (some e, w) = (err (credential_failed e), m, w)
  written identity m (none, w) =
      issued identity m w (issue s.codec s.sessions identity (s.session_now w))

  -- The login of `user` within the boundary `org`.
  pub admit : DeviceToken → GitHubUser → String → States → W → Outcome LoginResult
  unfolding written
  admit token user org m w =
      written (record { user_id = user.id; login = user.login; org = org }) m
        (s.store_refresh user.id token.refresh_token w)

  pub with_membership : DeviceToken → GitHubUser → States → Result ℕ Bool × W → Outcome LoginResult
  unfolding admit
  with_membership token user m (err e, w) = (err (member_failed e), m, w)
  with_membership token user m (ok false, w) = (err membership_required, m, w)
  with_membership token user m (ok true, w) = admit token user s.primary_org m w

  pub with_user : DeviceToken → States → Result ℕ GitHubUser × W → Outcome LoginResult
  unfolding with_membership
  with_user token m (err e, w) = (err (user_failed e), m, w)
  with_user token m (ok user, w) =
      if user.id == ""
      then (err no_user_id, m, w)
      else if s.primary_org == ""
      then admit token user user.login m w
      else with_membership token user m (s.is_active_org_member token.access_token s.primary_org w)

  pub with_token : DeviceToken → States → W → Outcome LoginResult
  unfolding with_user
  with_token token m w =
      if token.access_token == "" || token.refresh_token == ""
      then (err no_credentials, m, w)
      else with_user token m (s.current_user token.access_token w)

  abbrev pub rescheduled : DeviceState → ℕ → ℕ → DeviceState
  rescheduled v now every = record {
    device_code = v.device_code;
    expires_at = v.expires_at;
    next_poll_at = now + every;
    poll_every = every;
  }

  -- `_ = s.States.Update(...)`
  pub kept_or : States → Result StoreError States → States
  kept_or m (err _) = m
  kept_or m (ok m') = m'

  pub exchanged :
      ℕ → String → DeviceState → States → Result PollError DeviceToken × W → Outcome LoginResult
  unfolding with_token kept_or update_state delete
  exchanged now state v m (err poll_slow_down, w) = (
    err slow_down,
    kept_or m (update_state state (rescheduled v now (v.poll_every + 5 * second)) m),
    w,
  )
  exchanged now state v m (err poll_pending, w) = (err pending, m, w)
  exchanged now state v m (err (poll_fault e), w) = (err (poll_failed e), delete state m, w)
  exchanged now state v m (ok token, w) = with_token token (delete state m) w

  pub rebooked :
      ℕ → String → DeviceState → States → W → Result StoreError States → Outcome LoginResult
  unfolding exchanged
  rebooked now state v m w (err e) = (err (store_failed e), m, w)
  rebooked now state v m w (ok m') = exchanged now state v m' (s.poll_device_flow v.device_code w)

  pub polled : String → W → Result StoreError DeviceState × States → Outcome LoginResult
  unfolding rebooked update_state
  polled state w (err e, m) = (err (store_failed e), m, w)
  polled state w (ok v, m) =
      if ltb (s.now w) v.next_poll_at
      then (err slow_down, m, w)
      else rebooked (s.now w) state (rescheduled v (s.now w) v.poll_every) m w
          (update_state state (rescheduled v (s.now w) v.poll_every) m)

  -- LoginService.Poll
  pub poll : String → States → W → Outcome LoginResult
  unfolding polled is_configured get_state
  poll state m w =
      if is_configured
      then polled state w (get_state (s.store_now w) state m)
      else (err not_configured, m, w)
