-- ===== src/Auth/Login/Examples.antt =====
-- A login with an organization: the world is the time.
use aksagent_sandbox.Base.{arith, ℕ, ◌≡◌, refl, true, none, some, [], ◌∷◌, ok, err}
use aksagent_sandbox.Base.Map.{find}
use aksagent_sandbox.Auth.Session.{SessionClaims, Codec, SessionManager}
use aksagent_sandbox.Auth.DeviceStates.{States}
use aksagent_sandbox.Auth.Login.Pace.{poll_paced}
use aksagent_sandbox.Auth.Login.{poll_pending, slow_down, LoginService, LoginResult, poll}
use aksagent_sandbox.Auth.Login.Polls.{poll_once}
use aksagent_sandbox.Auth.Login.Admitted.{IsLogin, poll-IsLogin}

abbrev codec : Codec SessionClaims
codec = record {
  marshal = λ _. 7 ∷ [];
  unmarshal = λ _. none;
  encode = λ b. b;
  decode = λ b. some b;
}

abbrev sessions : SessionManager
sessions = record {
  signer = some (record { sign = λ message. ok (9 ∷ []); verify = λ message signature. none });
  audience = "devsandbox";
  lifetime = 60;
}

abbrev service : LoginService ℕ
service = record {
  has_github = true;
  has_states = true;
  has_credentials = true;
  primary_org = "acme";
  codec = codec;
  sessions = sessions;
  start_device_flow = λ w. (err 0, w);
  poll_device_flow = λ code w. (ok (record { access_token = "gho"; refresh_token = "ghr" }), w);
  current_user = λ access w. (ok (record { id = "42"; login = "octo" }), w);
  is_active_org_member = λ access org w. (ok true, w);
  store_refresh = λ user credential w. (none, w);
  random = λ w. (ok (32, 1 ∷ []), w);
  encode_base64 = λ b. "s";
  now = λ w. w;
  store_now = λ w. w;
  session_now = λ w. w;
}

abbrev states : States
states =
    ("s", record { device_code = "d"; expires_at = 900; next_poll_at = 5; poll_every = 5 }) ∷ []

abbrev gone : States
gone = []

abbrev login : LoginResult
login = record {
  session_token = 100 ∷ 115 ∷ 49 ∷ 46 ∷ 7 ∷ 46 ∷ 9 ∷ [];
  expires_at = 67;
  identity = record { user_id = "42"; login = "octo"; org = "acme" };
}

poll-IsLogin_example : IsLogin service "s" states 7 login 7
unfolding poll
poll-IsLogin_example = poll-IsLogin service "s" states gone 7 7 login refl

poll_once_example : find "s" gone ≡ none
unfolding poll
poll_once_example = poll_once service "s" states gone 7 7 (ok login) refl refl

-- The same service before the user has authorized the device.
abbrev waiting : LoginService ℕ
waiting = record service { poll_device_flow = λ code w. (err poll_pending, w) }

abbrev booked : States
booked =
    ("s", record { device_code = "d"; expires_at = 900; next_poll_at = 12; poll_every = 5 }) ∷ []

poll_paced_example : poll waiting "s" booked 11 ≡ (err slow_down, booked, 11)
unfolding poll
poll_paced_example =
    poll_paced waiting "s" states booked 7 7 11
      (record { device_code = "d"; expires_at = 900; next_poll_at = 5; poll_every = 5 }) refl refl
      (omega arith) (omega arith)
