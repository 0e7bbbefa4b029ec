-- ===== src/Auth/Login/Pace.antt =====
-- internal/auth/device.go: a caller that polls faster than the interval is slowed down.
use aksagent_sandbox.Base.{
  ℕ, ◌+◌, ◌<◌, ◌≡◌, refl, sym, ap, ◌∙◌, String, Bool, true, false, Option, none, some, ltb, Result,
  ok, err, arith, Bool-cases, inl, inr, lt→ltb,
}
use aksagent_sandbox.Base.Bytes.{Bytes}
use aksagent_sandbox.Base.Map.{find, put, delete, find-put_self}
use aksagent_sandbox.Auth.Session.{Identity, SessionError, issue}
use aksagent_sandbox.Auth.DeviceStates.{
  DeviceState, States, get_state_live, get_state_dead, update_state_found,
}
use aksagent_sandbox.Auth.Login.{
  LoginService, LoginResult, DeviceToken, GitHubUser, PollError, poll_slow_down, poll_pending,
  poll_fault, slow_down, pending, Outcome, is_configured, issued, written, admit, with_membership,
  with_user, with_token, rescheduled, exchanged, rebooked, polled, poll,
}
use aksagent_sandbox.Auth.Login.Polls.{may_retry}

module _ {W : Type 0} (s : LoginService W) where
  -- A result that is not about the pace.
  abbrev Final : Outcome s LoginResult → Type 0
  Final (r, m, w) = may_retry r ≡ false

  issued-Final :
      (identity : Identity) (m : States) (w : W) (r : Result SessionError (Bytes × ℕ))
      → Final (issued s identity m w r)
  unfolding issued
  issued-Final identity m w (err e) = refl
  issued-Final identity m w (ok (token, expires)) = refl

  written-Final :
      (identity : Identity) (m : States) (p : Option ℕ × W) → Final (written s identity m p)
  unfolding written
  written-Final identity m (some e, w) = refl
  written-Final identity m (none, w) =
      issued-Final identity m w (issue s.codec s.sessions identity (s.session_now w))

  admit-Final :
      (token : DeviceToken) (user : GitHubUser) (org : String) (m : States) (w : W)
      → Final (admit s token user org m w)
  unfolding admit
  admit-Final token user org m w = written-Final _ m (s.store_refresh user.id token.refresh_token w)

  with_membership-Final :
      (token : DeviceToken) (user : GitHubUser) (m : States) (p : Result ℕ Bool × W)
      → Final (with_membership s token user m p)
  unfolding with_membership
  with_membership-Final token user m (err e, w) = refl
  with_membership-Final token user m (ok false, w) = refl
  with_membership-Final token user m (ok true, w) = admit-Final token user s.primary_org m w

  with_user-Final :
      (token : DeviceToken) (m : States) (p : Result ℕ GitHubUser × W)
      → Final (with_user s token m p)
  unfolding with_user
  with_user-Final token m (err e, w) = refl
  with_user-Final token m (ok user, w) = ground (
    arith,
    admit-Final token user user.login m w,
    with_membership-Final token user m (s.is_active_org_member token.access_token s.primary_org w),
  )

  with_token-Final : (token : DeviceToken) (m : States) (w : W) → Final (with_token s token m w)
  unfolding with_token
  with_token-Final token m w =
      ground (arith, with_user-Final token m (s.current_user token.access_token w))

  module _ (state : String) where
    -- What a pending result says of the store.
    exchanged_pending :
        (now : ℕ) (v : DeviceState) (m : States) (p : Result PollError DeviceToken × W)
        → (exchanged s now state v m p).0 ≡ err pending
        → (exchanged s now state v m p).1 ≡ m
    unfolding exchanged
    exchanged_pending now v m (err poll_slow_down, w) h = cc
    exchanged_pending now v m (err poll_pending, w) h = refl
    exchanged_pending now v m (err (poll_fault e), w) h = cc
    exchanged_pending now v m (ok token, w) h =
        cc (sym (ap may_retry h) ∙ with_token-Final token (delete state m) w)

    polled_found :
        (m : States) (w : W) (v : DeviceState)
        → find state m ≡ some v
        → (polled s state w (ok v, m)).0 ≡ err pending
        → (polled s state w (ok v, m)).1 ≡ put state (rescheduled s v (s.now w) v.poll_every) m
    unfolding polled rebooked
    polled_found m w v f r =
        let v' = rescheduled s v (s.now w) v.poll_every in
        let u = update_state_found state v' v m f in
        elim (Bool-cases (ltb (s.now w) v.next_poll_at)) [
          | inl e ↦ cc (rw e at r)
          | inr e ↦
              rw (e, u)
                (exchanged_pending (s.now w) v' (put state v' m)
                  (s.poll_device_flow v.device_code w) (rw (e, u) at r))
        ]

    -- A poll of a stored state that ends as pending found it live, and books the next one.
    poll_pending_lem :
        (m : States) (w : W) (v : DeviceState)
        → find state m ≡ some v
        → (poll s state m w).0 ≡ err pending
        → (is_configured s ≡ true)
          × ((poll s state m w).1 ≡ put state (rescheduled s v (s.now w) v.poll_every) m)
    unfolding poll polled
    poll_pending_lem m w v f r = elim (Bool-cases (is_configured s)) [
      | inr c ↦ cc (rw c at r)
      | inl c ↦ elim (Bool-cases (ltb (s.store_now w) v.expires_at)) [
        | inr l ↦ cc (rw (c, get_state_dead (s.store_now w) state m v f l) at r)
        | inl l ↦
            let g = get_state_live (s.store_now w) state m v f l in
            (c, rw (c, g) (polled_found m w v f (rw (c, g) at r)))
      ]
    ]

    early :
        (m : States) (w : W) (v : DeviceState)
        → is_configured s ≡ true
        → find state m ≡ some v
        → s.store_now w < v.expires_at
        → s.now w < v.next_poll_at
        → poll s state m w ≡ (err slow_down, m, w)
    unfolding poll polled
    early m w v c f l n =
        rw
          (
            c,
            get_state_live (s.store_now w) state m v f (lt→ltb (s.store_now w) v.expires_at l),
            lt→ltb (s.now w) v.next_poll_at n,
          )
          refl

    -- After a poll that ends as pending, a poll within the interval of the state, while the state is
    -- live, is told to slow down and asks GitHub nothing: store and world stay as they are.
    pub poll_paced :
        (m m' : States) (w w' later : W) (v : DeviceState)
        → find state m ≡ some v
        → poll s state m w ≡ (err pending, m', w')
        → s.store_now later < v.expires_at
        → s.now later < s.now w + v.poll_every
        → poll s state m' later ≡ (err slow_down, m', later)
    poll_paced m m' w w' later v f h l n =
        let v' = rescheduled s v (s.now w) v.poll_every in
        let (c, booked) = poll_pending_lem m w v f (ap (λ o. o.0) h) in
        let same = sym booked ∙ ap (λ o. o.1) h in
        early m' later v' c (sym (ap (find state) same) ∙ find-put_self state v' m) l n
