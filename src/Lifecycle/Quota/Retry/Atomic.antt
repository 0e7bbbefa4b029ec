-- ===== src/Lifecycle/Quota/Retry/Atomic.antt =====
-- internal/lifecycle/quota.go, `retry`: a call that returns nil acted on the stored object in one
-- indivisible step, whatever other writers do between its own calls.
use mathlib.Core.Path.{subst}
use mathlib.Core.List.{Memᴰ}
use aksagent_sandbox.Base.{
  ℕ, zero, suc, ◌≡◌, refl, sym, ap, ◌∙◌, ◌≢◌, ◌⊎◌, inl, inr, Bool, true, false, Option, none, some,
  List, [], ◌∷◌, ◌++◌, Result, ok, err,
}
use aksagent_sandbox.Lifecycle.Quota.{
  UserQuota, QuotaError, StoreError, not_found, conflict, other, Mutation,
}
use aksagent_sandbox.Lifecycle.Quota.Retry.{
  QuotaStore, Pass, returned, again, pass, retry_loop, checked, mutate_read, write_back, committed,
  waited,
}

-- The later history holds the earlier one, with versions put on top.
abbrev pub Grows : List UserQuota → List UserQuota → Type 0
Grows h h' = (fresh : List UserQuota) × (h' ≡ fresh ++ h)

-- What the API server documents: the versions of an object are never rewritten; a read returns a
-- stored version; a write that names the version it was made from succeeds only while that
-- version is the newest, and puts the written object on top under a version of its own.
pub record ApiServer {W : Type 0} (store : QuotaStore W) : Type 0 where
  -- all versions of the quota, newest first
  pub history : W → List UserQuota
  pub unique :
      (w : W) (p q : UserQuota)
      → Memᴰ p (history w)
      → Memᴰ q (history w)
      → p.resource_version ≡ q.resource_version
      → p ≡ q
  pub get_stored : (w w' : W) (q : UserQuota) → store.get w ≡ (ok q, w') → Memᴰ q (history w')
  pub update_newest :
      (w w' : W) (q : UserQuota)
      → store.update_status q w ≡ (none, w')
      → (p : UserQuota) × (rest : List UserQuota) × (v : ℕ) × (history w'
          ≡ record q { resource_version = v } ∷ p ∷ rest)
        × (p.resource_version ≡ q.resource_version)
        × Grows (history w) (p ∷ rest)

-- A mutation works on a copy of the object and leaves its version alone.
abbrev pub KeepsVersion : Mutation → Type 0
KeepsVersion mutate =
    (q q' : UserQuota) (c : Bool) → mutate q ≡ ok (q', c) → q'.resource_version ≡ q.resource_version

-- Either a stored version needed no change, or the newest version is what the mutation makes of
-- the one before it.
pub data Acted (mutate : Mutation) (h : List UserQuota) : Type 0 where
  unchanged : (q q' : UserQuota) → Memᴰ q h → mutate q ≡ ok (q', false) → Acted mutate h
  applied :
      (p q' : UserQuota) (rest : List UserQuota) (v : ℕ)
      → h ≡ record q' { resource_version = v } ∷ p ∷ rest
      → mutate p ≡ ok (q', true)
      → Acted mutate h

pub Pass-cases :
    {W : Type 0} (r : Pass W)
    → ((e : Option QuotaError) × (w : W) × (r ≡ returned e w))
      ⊎ ((e : StoreError) × (w : W) × (r ≡ again e w))
Pass-cases (returned e w) = inl (e, w, refl)
Pass-cases (again e w) = inr (e, w, refl)

returned_injective :
    {W : Type 0} {w w' : W} {e e' : Option QuotaError} → returned e w ≡ returned e' w' → w ≡ w'
returned_injective h = cc

module _ {W : Type 0} (store : QuotaStore W) (server : ApiServer store) (mutate : Mutation)
    (keeps : KeepsVersion mutate) where
  open server use {history}

  mem-Grows :
      (q : UserQuota) (h : List UserQuota) (fresh : List UserQuota) → Memᴰ q h → Memᴰ q (fresh ++ h)
  mem-Grows q h [] m = m
  mem-Grows q h (f ∷ fresh) m = Memᴰ.tail (mem-Grows q h fresh m)

  -- A write that was accepted came from the version under it.
  update-Acted :
      (q q' : UserQuota) (w w' : W)
      → Memᴰ q (history w)
      → mutate q ≡ ok (q', true)
      → store.update_status q' w ≡ (none, w')
      → Acted mutate (history w')
  update-Acted q q' w w' m e u =
      let (p, rest, v, top, same, grows) = server.update_newest w w' q' u in
      let q_in : Memᴰ q (history w') =
        subst (Memᴰ q) (sym top)
          (Memᴰ.tail (subst (Memᴰ q) (sym grows.1) (mem-Grows q (history w) grows.0 m))) in
      let p_in : Memᴰ p (history w') = subst (Memᴰ p) (sym top) (Memᴰ.tail (Memᴰ.head refl)) in
      let p_is_q : p ≡ q = server.unique w' p q p_in q_in (same ∙ keeps q q' true e) in
      applied p q' rest v top (rw p_is_q e)

  committed-Acted :
      (q q' : UserQuota) (w w' : W) (r : Option StoreError × W)
      → store.update_status q' w ≡ r
      → committed store r ≡ returned none w'
      → Memᴰ q (history w)
      → mutate q ≡ ok (q', true)
      → Acted mutate (history w')
  unfolding committed
  committed-Acted q q' w w' (none, w1) u h m e =
      update-Acted q q' w w' m e (rw u (ap (λ x. (none, x)) (returned_injective h)))
  committed-Acted q q' w w' (some conflict, w1) u h m e = cc
  committed-Acted q q' w w' (some not_found, w1) u h m e = cc
  committed-Acted q q' w w' (some (other n), w1) u h m e = cc

  write_back-Acted :
      (q : UserQuota) (w w' : W) (r : Result QuotaError (UserQuota × Bool))
      → mutate q ≡ r
      → write_back store r w ≡ returned none w'
      → Memᴰ q (history w)
      → Acted mutate (history w')
  unfolding write_back
  write_back-Acted q w w' (err e) k h m = cc
  write_back-Acted q w w' (ok (q', false)) k h m =
      unchanged q q' (subst (λ x. Memᴰ q (history x)) (returned_injective h) m) k
  write_back-Acted q w w' (ok (q', true)) k h m =
      committed-Acted q q' w w' (store.update_status q' w) refl h m k

  waited_again : (r : Option ℕ × W) (w' : W) → waited store r ≢ returned none w'
  unfolding waited
  waited_again (some c, w) w' h = cc
  waited_again (none, w) w' h = cc

  read-Acted :
      (w w' : W) (r : Result StoreError UserQuota × W)
      → store.get w ≡ r
      → mutate_read store mutate r ≡ returned none w'
      → Acted mutate (history w')
  unfolding mutate_read
  read-Acted w w' (ok q, w1) g h =
      write_back-Acted q w1 w' (mutate q) refl h (server.get_stored w w1 q g)
  read-Acted w w' (err not_found, w1) g h = absurd (waited_again (store.wait w1) w' h)
  read-Acted w w' (err conflict, w1) g h = cc
  read-Acted w w' (err (other n), w1) g h = cc

  checked-Acted :
      (w' : W) (r : Option ℕ × W)
      → checked store mutate r ≡ returned none w'
      → Acted mutate (history w')
  unfolding checked
  checked-Acted w' (some c, w1) h = cc
  checked-Acted w' (none, w1) h = read-Acted w1 w' (store.get w1) refl h

  pub loop-Acted :
      (n left : ℕ) (last : Option StoreError) (w w' : W)
      → retry_loop store mutate n left last w ≡ (none, w')
      → Acted mutate (history w')
  unfolding retry_loop pass
  loop-Acted n zero last w w' h = cc
  loop-Acted n (suc left) last w w' h = elim (Pass-cases (pass store mutate w)) [
    | inl (e, w1, p) ↦
        let k = rw (p, retry_loop) at h in
        checked-Acted w' (store.ctx_err w) (p ∙ ap (λ x. returned x.0 x.1) k)
    | inr (e, w1, p) ↦ loop-Acted n left (some e) w1 w' (rw (p, retry_loop) at h)
  ]
