-- ===== src/Lifecycle/Quota/Retry/Converge.antt =====
-- internal/lifecycle/quota.go, `retry`: with more attempts than other writers can disturb, the loop
-- does not give up.
use aksagent_sandbox.Base.{
  ℕ, zero, suc, ◌≤◌, ◌<◌, ◌≡◌, ◌≢◌, refl, inl, inr, true, false, Bool, Option, none, some, Result,
  ok, err, arith,
}
use aksagent_sandbox.Lifecycle.Quota.{
  UserQuota, QuotaError, StoreError, not_found, conflict, other, context_done, store_failed,
  Mutation,
}
use aksagent_sandbox.Lifecycle.Quota.Retry.{
  QuotaStore, Pass, returned, again, pass, retry_loop, checked, mutate_read, write_back, committed,
  waited,
}
use aksagent_sandbox.Lifecycle.Quota.Retry.Atomic.{Pass-cases}

-- How often other writers can still come between a read and a write, or the quota can still be found
-- missing after a wait; the API server reports a conflict on a write only.
pub record Rivals {W : Type 0} (store : QuotaStore W) : Type 0 where
  pub left : W → ℕ
  pub ctx_le : (w : W) → left (store.ctx_err w).1 ≤ left w
  pub get_le : (w : W) → left (store.get w).1 ≤ left w
  pub get_answers : (w : W) → (store.get w).0 ≢ err conflict
  pub conflict_lt :
      (q : UserQuota) (w w' : W) → store.update_status q w ≡ (some conflict, w') → left w' < left w
  pub wait_lt : (w w' : W) → store.wait w ≡ (none, w') → left w' < left w

-- A result of the loop that is neither a conflict nor that it gave up: nil, the error of the mutation,
-- the error of the context, or a failure of the API server that is not to be tried again.
pub data IsSettled (mutate : Mutation) : Option QuotaError → Type 0 where
  returned_nil : IsSettled mutate none
  mutation_refused : (q : UserQuota) (e : QuotaError) → mutate q ≡ err e → IsSettled mutate (some e)
  context_ended : (c : ℕ) → IsSettled mutate (some (context_done c))
  server_failed : (n : ℕ) → IsSettled mutate (some (store_failed (other n)))
  quota_gone : IsSettled mutate (some (store_failed not_found))

module _ {W : Type 0} (store : QuotaStore W) (rivals : Rivals store) (mutate : Mutation) where
  open rivals use {left}

  -- A pass settles the call or uses up one disturbance.
  abbrev Ends : ℕ → Pass W → Type 0
  Ends n (returned e w) = IsSettled mutate e
  Ends n (again e w) = left w < n

  committed-Ends :
      (q : UserQuota) (n : ℕ) (w : W) (p : Option StoreError × W)
      → store.update_status q w ≡ p
      → left w ≤ n
      → Ends n (committed store p)
  unfolding committed
  committed-Ends q n w (none, w1) h le = returned_nil
  committed-Ends q n w (some conflict, w1) h le = omega (arith, rivals.conflict_lt q w w1 h)
  committed-Ends q n w (some not_found, w1) h le = quota_gone
  committed-Ends q n w (some (other m), w1) h le = server_failed m

  write_back-Ends :
      (q : UserQuota) (n : ℕ) (w : W) (r : Result QuotaError (UserQuota × Bool))
      → mutate q ≡ r
      → left w ≤ n
      → Ends n (write_back store r w)
  unfolding write_back
  write_back-Ends q n w (err e) h le = mutation_refused q e h
  write_back-Ends q n w (ok (q', false)) h le = returned_nil
  write_back-Ends q n w (ok (q', true)) h le =
      committed-Ends q' n w (store.update_status q' w) refl le

  waited-Ends :
      (n : ℕ) (w : W) (p : Option ℕ × W) → store.wait w ≡ p → left w ≤ n → Ends n (waited store p)
  unfolding waited
  waited-Ends n w (some c, w1) h le = context_ended c
  waited-Ends n w (none, w1) h le = omega (arith, rivals.wait_lt w w1 h)

  mutate_read-Ends :
      (n : ℕ) (p : Result StoreError UserQuota × W)
      → p.0 ≢ err conflict
      → left p.1 ≤ n
      → Ends n (mutate_read store mutate p)
  unfolding mutate_read
  mutate_read-Ends n (ok q, w) answers le = write_back-Ends q n w (mutate q) refl le
  mutate_read-Ends n (err not_found, w) answers le = waited-Ends n w (store.wait w) refl le
  mutate_read-Ends n (err conflict, w) answers le = absurd (answers refl)
  mutate_read-Ends n (err (other m), w) answers le = server_failed m

  checked-Ends : (n : ℕ) (p : Option ℕ × W) → left p.1 ≤ n → Ends n (checked store mutate p)
  unfolding checked
  checked-Ends n (some c, w) le = context_ended c
  checked-Ends n (none, w) le =
      mutate_read-Ends n (store.get w) (rivals.get_answers w) (omega (arith, rivals.get_le w))

  pass-Ends : (w : W) → Ends (left w) (pass store mutate w)
  unfolding pass
  pass-Ends w = checked-Ends (left w) (store.ctx_err w) (rivals.ctx_le w)

  -- With more attempts than disturbances that can still come, the loop neither reports a conflict nor
  -- gives up: it returns nil, the error of the mutation on a quota, that of the context, or a failure
  -- of the API server that is not to be tried again.
  pub retry_loop-IsSettled :
      (attempts n : ℕ) (last : Option StoreError) (w : W)
      → left w < n
      → IsSettled mutate (retry_loop store mutate attempts n last w).0
  unfolding retry_loop
  retry_loop-IsSettled attempts zero last w lt = absurd (omega (arith, lt))
  retry_loop-IsSettled attempts (suc n) last w lt = elim (Pass-cases (pass store mutate w)) [
    | inl (e, w1, p) ↦ let h : IsSettled mutate e = rw p at (pass-Ends w) in rw (p, retry_loop) h
    | inr (e, w1, p) ↦
        let h : left w1 < left w = rw p at (pass-Ends w) in
        rw (p, retry_loop) (retry_loop-IsSettled attempts n (some e) w1 (omega (arith, h, lt)))
  ]
