-- ===== src/Auth/Login/Polls.antt =====
-- internal/auth/device.go: what a poll leaves of the device state.
use mathlib.Core.Path.{subst}
use aksagent_sandbox.Base.{
  ℕ, ◌≡◌, refl, ap, ◌∙◌, String, Bool, true, false, Option, none, some, ltb, Result, ok, err, arith,
  Bool-cases, inl, inr,
}
use aksagent_sandbox.Base.Map.{find, put, delete, find-delete_self}
use aksagent_sandbox.Base.Bytes.{Bytes}
use aksagent_sandbox.Auth.Session.{Identity, SessionError, issue}
use aksagent_sandbox.Auth.DeviceStates.{
  DeviceState, States, StoreError, get_state, get_state-ok, get_state-err, update_state_found,
}
use aksagent_sandbox.Auth.Login.{
  LoginService, LoginError, LoginResult, DeviceToken, GitHubUser, PollError, poll_slow_down,
  poll_pending, poll_fault, not_configured, slow_down, pending, Outcome, is_configured, issued,
  written, admit, with_membership, with_user, with_token, rescheduled, exchanged, rebooked, polled,
  poll,
}

-- A result after which the same state may be polled again.
abbrev pub may_retry : {A : Type 0} → Result LoginError A → Bool
may_retry (err slow_down) = true
may_retry (err pending) = true
may_retry (err not_configured) = true
may_retry (err _) = false
may_retry (ok _) = false

module _ {W : Type 0} (s : LoginService W) (state : String) where
  -- What holds of the store after a poll.
  abbrev Ended : Outcome s LoginResult → Type 0
  Ended (r, m, w) = (may_retry r ≡ false) → find state m ≡ none

  module _ (m : States) (gone : find state m ≡ none) where
    issued-Ended :
        (identity : Identity) (w : W) (r : Result SessionError (Bytes × ℕ))
        → Ended (issued s identity m w r)
    unfolding issued
    issued-Ended identity w (err e) h = gone
    issued-Ended identity w (ok (token, expires)) h = gone

    written-Ended : (identity : Identity) (p : Option ℕ × W) → Ended (written s identity m p)
    unfolding written
    written-Ended identity (some e, w) h = gone
    written-Ended identity (none, w) h =
        issued-Ended identity w (issue s.codec s.sessions identity (s.session_now w)) h

    admit-Ended :
        (token : DeviceToken) (user : GitHubUser) (org : String) (w : W)
        → Ended (admit s token user org m w)
    unfolding admit
    admit-Ended token user org w h =
        written-Ended _ (s.store_refresh user.id token.refresh_token w) h

    with_membership-Ended :
        (token : DeviceToken) (user : GitHubUser) (p : Result ℕ Bool × W)
        → Ended (with_membership s token user m p)
    unfolding with_membership
    with_membership-Ended token user (err e, w) h = gone
    with_membership-Ended token user (ok false, w) h = gone
    with_membership-Ended token user (ok true, w) h = admit-Ended token user s.primary_org w h

    with_user-Ended :
        (token : DeviceToken) (p : Result ℕ GitHubUser × W) → Ended (with_user s token m p)
    unfolding with_user
    with_user-Ended token (err e, w) h = gone
    with_user-Ended token (ok user, w) h = ground (
      arith,
      gone,
      admit-Ended token user user.login w,
      with_membership-Ended token user (s.is_active_org_member token.access_token s.primary_org w),
    )

    with_token-Ended : (token : DeviceToken) (w : W) → Ended (with_token s token m w)
    unfolding with_token
    with_token-Ended token w =
        ground (arith, gone, with_user-Ended token (s.current_user token.access_token w))

  exchanged-Ended :
      (now : ℕ) (v : DeviceState) (m : States) (p : Result PollError DeviceToken × W)
      → Ended (exchanged s now state v m p)
  unfolding exchanged
  exchanged-Ended now v m (err poll_slow_down, w) h = cc
  exchanged-Ended now v m (err poll_pending, w) h = cc
  exchanged-Ended now v m (err (poll_fault e), w) h = find-delete_self state m
  exchanged-Ended now v m (ok token, w) h =
      with_token-Ended (delete state m) (find-delete_self state m) token w h

  polled-Ended :
      (m : States) (w : W) (p : Result StoreError DeviceState × States)
      → get_state (s.store_now w) state m ≡ p
      → Ended (polled s state w p)
  unfolding polled rebooked
  polled-Ended m w (err e, m1) h = λ r. get_state-err (s.store_now w) state m m1 e h
  polled-Ended m w (ok v, m1) h =
      let (same, found, live) = get_state-ok (s.store_now w) state m m1 v h in
      let v' = rescheduled s v (s.now w) v.poll_every in
      let next =
        exchanged-Ended (s.now w) v' (put state v' m1) (s.poll_device_flow v.device_code w) in
      elim (Bool-cases (ltb (s.now w) v.next_poll_at)) [
        | inl e ↦ rw (e) (λ r. cc)
        | inr e ↦ rw (e, update_state_found state v' v m1 (ap (find state) same ∙ found)) next
      ]

  -- A device state is for one login: after a poll, unless its result is that the authorization is
  -- pending, that the caller polls too fast or that the service is not configured, the store has no
  -- state under the name.
  pub poll_once :
      (m m' : States) (w w' : W) (r : Result LoginError LoginResult)
      → poll s state m w ≡ (r, m', w')
      → may_retry r ≡ false
      → find state m' ≡ none
  unfolding poll
  poll_once m m' w w' r h = subst Ended h (elim (Bool-cases (is_configured s)) [
    | inl c ↦ rw (c) (polled-Ended m w (get_state (s.store_now w) state m) refl)
    | inr c ↦ rw (c) (λ x. cc)
  ])
