-- ===== src/Auth/Login/Admitted.antt =====
-- internal/auth/device.go: what a login has checked.
use mathlib.Core.Path.{subst}
use aksagent_sandbox.Base.{
  ℕ, ◌≤◌, ◌<◌, ◌≡◌, ◌≢◌, refl, ap, ◌∙◌, String, Bool, true, false, Option, none, some, ◌==◌, ltb,
  ltb→lt, ltb_false→le, Result, ok, err, arith, Bool-cases, inl, inr, eq_iff,
}
use aksagent_sandbox.Base.Bytes.{Bytes}
use aksagent_sandbox.Base.Map.{find, put, delete}
use aksagent_sandbox.Auth.Session.{SessionError, issue}
use aksagent_sandbox.Auth.DeviceStates.{
  DeviceState, States, StoreError, get_state, get_state-ok, update_state_found,
}
use aksagent_sandbox.Auth.Login.{
  LoginService, LoginResult, DeviceToken, GitHubUser, PollError, poll_slow_down, poll_pending,
  poll_fault, Outcome, is_configured, issued, written, admit, with_membership, with_user,
  with_token, rescheduled, exchanged, rebooked, polled, poll,
}

eq_false : (a : String) → (a == "") ≡ false → a ≢ ""
eq_false a h e = ground (arith, eq_iff a "")

module _ {W : Type 0} (s : LoginService W) where
  -- The user is an active member of the primary organization, or none is set and the user's login
  -- is the boundary; the step from `w` to `w'` is the check.
  pub data IsMember (access : String) (user : GitHubUser) (w : W) : String → W → Type 0 where
    unbounded : s.primary_org ≡ "" → IsMember access user w user.login w
    bounded :
        (w' : W)
        → s.primary_org ≢ ""
        → s.is_active_org_member access s.primary_org w ≡ (ok true, w')
        → IsMember access user w s.primary_org w'

  -- The user of the token is known by an ID, belongs to the boundary, and has the refresh token
  -- stored; the session is for this identity.
  pub record IsUserLogin (token : DeviceToken) (w : W) (r : LoginResult) (w' : W) : Type 0 where
    pub user : GitHubUser
    pub w1 : W
    pub w2 : W
    pub is_user : s.current_user token.access_token w ≡ (ok user, w1)
    pub has_id : user.id ≢ ""
    pub is_member : IsMember token.access_token user w1 r.identity.org w2
    pub is_id : r.identity.user_id ≡ user.id
    pub is_login : r.identity.login ≡ user.login
    pub stored : s.store_refresh user.id token.refresh_token w2 ≡ (none, w')
    pub is_session :
        issue s.codec s.sessions r.identity (s.session_now w') ≡ ok (r.session_token, r.expires_at)

  -- The named state was stored, live and due, and GitHub gave both tokens for its device code.
  pub record IsLogin (state : String) (m : States) (w : W) (r : LoginResult) (w' : W) : Type 0 where
    pub device : DeviceState
    pub token : DeviceToken
    pub w1 : W
    pub is_stored : find state m ≡ some device
    pub is_live : s.store_now w < device.expires_at
    pub is_due : device.next_poll_at ≤ s.now w
    pub is_exchanged : s.poll_device_flow device.device_code w ≡ (ok token, w1)
    pub has_access : token.access_token ≢ ""
    pub has_refresh : token.refresh_token ≢ ""
    pub is_user_login : IsUserLogin token w1 r w'

  module _ (token : DeviceToken) (w : W) where
    abbrev Logged : Outcome s LoginResult → Type 0
    Logged (err e, m, w') = Unit {0}
    Logged (ok r, m, w') = IsUserLogin token w r w'

    module _ (user : GitHubUser) (w1 : W)
        (is_user : s.current_user token.access_token w ≡ (ok user, w1))
        (has_id : user.id ≢ "") where
      issued-Logged :
          (org : String) (m : States) (w2 w3 : W) (r : Result SessionError (Bytes × ℕ))
          → IsMember token.access_token user w1 org w2
          → s.store_refresh user.id token.refresh_token w2 ≡ (none, w3)
          → issue s.codec s.sessions
              (record { user_id = user.id; login = user.login; org = org })
              (s.session_now w3)
            ≡ r
          → Logged (issued s (record { user_id = user.id; login = user.login; org = org }) m w3 r)
      unfolding issued
      issued-Logged org m w2 w3 (err e) b c i = tt
      issued-Logged org m w2 w3 (ok (session, expires)) b c i = record {
        user = user;
        w1 = w1;
        w2 = w2;
        is_user = is_user;
        has_id = has_id;
        is_member = b;
        is_id = refl;
        is_login = refl;
        stored = c;
        is_session = i;
      }

      written-Logged :
          (org : String) (m : States) (w2 : W) (p : Option ℕ × W)
          → IsMember token.access_token user w1 org w2
          → s.store_refresh user.id token.refresh_token w2 ≡ p
          → Logged (written s (record { user_id = user.id; login = user.login; org = org }) m p)
      unfolding written
      written-Logged org m w2 (some e, w3) b c = tt
      written-Logged org m w2 (none, w3) b c =
          issued-Logged org m w2 w3
            (issue s.codec s.sessions (record { user_id = user.id; login = user.login; org = org })
              (s.session_now w3))
            b c refl

      admit-Logged :
          (org : String) (m : States) (w2 : W)
          → IsMember token.access_token user w1 org w2
          → Logged (admit s token user org m w2)
      unfolding admit
      admit-Logged org m w2 b =
          written-Logged org m w2 (s.store_refresh user.id token.refresh_token w2) b refl

      with_membership-Logged :
          (m : States) (p : Result ℕ Bool × W)
          → s.primary_org ≢ ""
          → s.is_active_org_member token.access_token s.primary_org w1 ≡ p
          → Logged (with_membership s token user m p)
      unfolding with_membership
      with_membership-Logged m (err e, w2) n h = tt
      with_membership-Logged m (ok false, w2) n h = tt
      with_membership-Logged m (ok true, w2) n h = admit-Logged s.primary_org m w2 (bounded w2 n h)

    with_user-Logged :
        (m : States) (p : Result ℕ GitHubUser × W)
        → s.current_user token.access_token w ≡ p
        → Logged (with_user s token m p)
    unfolding with_user
    with_user-Logged m (err e, w1) h = tt
    with_user-Logged m (ok user, w1) h = elim (Bool-cases (user.id == "")) [
      | inl a ↦ rw (a) tt
      | inr a ↦
          let id = eq_false user.id a in
          elim (Bool-cases (s.primary_org == "")) [
            | inl b ↦
                rw (a, b)
                  (admit-Logged user w1 h id user.login m w1
                    (unbounded ((eq_iff s.primary_org "").0 b)))
            | inr b ↦
                rw (a, b)
                  (with_membership-Logged user w1 h id m
                    (s.is_active_org_member token.access_token s.primary_org w1)
                    (eq_false s.primary_org b) refl)
          ]
    ]

    -- The login, with the two tokens that GitHub gave.
    abbrev Complete : Outcome s LoginResult → Type 0
    Complete (err e, m, w') = Unit {0}
    Complete (ok r, m, w') =
        (token.access_token ≢ "") × (token.refresh_token ≢ "") × IsUserLogin token w r w'

    completed :
        (o : Outcome s LoginResult)
        → token.access_token ≢ ""
        → token.refresh_token ≢ ""
        → Logged o
        → Complete o
    completed (err e, m, w') a b l = tt
    completed (ok r, m, w') a b l = (a, b, l)

    with_token-Complete : (m : States) → Complete (with_token s token m w)
    unfolding with_token
    with_token-Complete m = elim (Bool-cases (token.access_token == "")) [
      | inl a ↦ rw (a) tt
      | inr a ↦ elim (Bool-cases (token.refresh_token == "")) [
        | inl b ↦ rw (a, b) tt
        | inr b ↦
            rw (a, b)
              (completed (with_user s token m (s.current_user token.access_token w))
                (eq_false token.access_token a) (eq_false token.refresh_token b)
                (with_user-Logged m (s.current_user token.access_token w) refl))
      ]
    ]

  module _ (state : String) (m : States) (w : W) where
    abbrev LoggedIn : Outcome s LoginResult → Type 0
    LoggedIn (err e, m', w') = Unit {0}
    LoggedIn (ok r, m', w') = IsLogin state m w r w'

    logged_in :
        (v : DeviceState) (token : DeviceToken) (w1 : W) (o : Outcome s LoginResult)
        → find state m ≡ some v
        → s.store_now w < v.expires_at
        → v.next_poll_at ≤ s.now w
        → s.poll_device_flow v.device_code w ≡ (ok token, w1)
        → Complete token w1 o
        → LoggedIn o
    logged_in v token w1 (err e, m', w') f l d h c = tt
    logged_in v token w1 (ok r, m', w') f l d h c = record {
      device = v;
      token = token;
      w1 = w1;
      is_stored = f;
      is_live = l;
      is_due = d;
      is_exchanged = h;
      has_access = c.0;
      has_refresh = c.1;
      is_user_login = c.2;
    }

    exchanged-LoggedIn :
        (v : DeviceState) (m' : States) (p : Result PollError DeviceToken × W)
        → find state m ≡ some v
        → s.store_now w < v.expires_at
        → v.next_poll_at ≤ s.now w
        → s.poll_device_flow v.device_code w ≡ p
        → LoggedIn (exchanged s (s.now w) state (rescheduled s v (s.now w) v.poll_every) m' p)
    unfolding exchanged
    exchanged-LoggedIn v m' (err poll_slow_down, w1) f l d h = tt
    exchanged-LoggedIn v m' (err poll_pending, w1) f l d h = tt
    exchanged-LoggedIn v m' (err (poll_fault e), w1) f l d h = tt
    exchanged-LoggedIn v m' (ok token, w1) f l d h =
        logged_in v token w1 (with_token s token (delete state m') w1) f l d h
          (with_token-Complete token w1 (delete state m'))

    polled-LoggedIn :
        (p : Result StoreError DeviceState × States)
        → get_state (s.store_now w) state m ≡ p
        → LoggedIn (polled s state w p)
    unfolding polled rebooked
    polled-LoggedIn (err e, m1) h = tt
    polled-LoggedIn (ok v, m1) h =
        let (same, found, live) = get_state-ok (s.store_now w) state m m1 v h in
        let v' = rescheduled s v (s.now w) v.poll_every in
        elim (Bool-cases (ltb (s.now w) v.next_poll_at)) [
          | inl e ↦ rw (e) tt
          | inr e ↦
              rw (e, update_state_found state v' v m1 (ap (find state) same ∙ found))
                (exchanged-LoggedIn v (put state v' m1) (s.poll_device_flow v.device_code w) found
                  (ltb→lt (s.store_now w) v.expires_at live)
                  (ltb_false→le (s.now w) v.next_poll_at e) refl)
        ]

  -- A poll that logs a user in found the state stored, live and due; GitHub gave both tokens for its
  -- device code and the user for the token; the user has an ID and is an active member of the
  -- primary organization if there is one; the refresh token was stored, and the session was issued
  -- for that user and boundary.
  pub poll-IsLogin :
      (state : String) (m m' : States) (w w' : W) (r : LoginResult)
      → poll s state m w ≡ (ok r, m', w')
      → IsLogin state m w r w'
  unfolding poll
  poll-IsLogin state m m' w w' r h =
      subst (LoggedIn state m w) h (elim (Bool-cases (is_configured s)) [
        | inl c ↦ rw (c) (polled-LoggedIn state m w (get_state (s.store_now w) state m) refl)
        | inr c ↦ rw (c) tt
      ])
