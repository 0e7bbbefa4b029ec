-- ===== src/Auth/LeaseLocker/Examples.antt =====
-- A lease that another holder let lapse, on a server without other clients.
use aksagent_sandbox.Base.{
  ℕ, zero, suc, ◌*◌, ◌<◌, ◌≡◌, ◌≢◌, sym, ap, ◌∙◌, Bool, true, false, Option, none, some, ok,
  ok_injective, arith,
}
use aksagent_sandbox.Auth.Session.{second}
use aksagent_sandbox.Auth.LeaseLocker.{Lease, WriteError, already_exists, Client, lock_loop}
use aksagent_sandbox.Auth.LeaseLocker.Exclusion.{Server}
use aksagent_sandbox.Auth.LeaseLocker.Waits.{Deadline, lock_loop_ends}

record World : Type 0 where
  pub lease : Lease
  pub replaced : Option Lease
  pub clock : ℕ
  pub left : ℕ

abbrev wait_once : World → ℕ → Bool × World
wait_once w zero = (true, w)
wait_once w (suc n) =
    (false, record { lease = w.lease; replaced = w.replaced; clock = suc w.clock; left = n })

abbrev client : Client World
client = record {
  get = λ w. (ok w.lease, w);
  create = λ l w. (some already_exists, w);
  update =
      λ l w. (none, record { lease = l; replaced = some w.lease; clock = w.clock; left = w.left });
  now = λ w. w.clock;
  wait = λ w. wait_once w w.left;
}

no_create :
    {A : Type 0} (w w' : World)
    → ◌≡◌ {A = Option WriteError × World} (some already_exists, w) (none, w')
    → A
no_create w w' h = cc

abbrev server : Server client
server = record {
  stored = λ w. w.lease;
  replaced = λ w. w.replaced;
  create_ok = λ l w w' h. no_create w w' h;
  update_ok = λ old l w w1 w' g v h. (
    ap (λ p. p.1.lease.holder_identity) (sym h),
    ap (λ p. p.1.lease.renew_time) (sym h),
    ap (λ p. p.1.replaced) (sym h)
        ∙ ap some (ap (λ p. p.1.lease) (sym g) ∙ ok_injective (ap (λ p. p.0) g)),
  );
}

wait_once_lt : (w w' : World) (n : ℕ) → wait_once w n ≡ (false, w') → w'.left < n
wait_once_lt w w' zero h = cc
wait_once_lt w w' (suc n) h = let e = ap (λ p. p.1.left) h in omega (arith, e)

abbrev deadline : Deadline client
deadline = record {
  left = λ w. w.left;
  get_le = λ w. omega arith;
  create_le = λ l w. omega arith;
  update_le = λ l w. omega arith;
  wait_lt = λ w w' h. wait_once_lt w w' w.left h;
}

abbrev lapsed_lease : Lease
lapsed_lease = record {
  holder_identity = some "broker-1";
  lease_duration_seconds = some 30;
  acquire_time = some 0;
  renew_time = some 0;
  version = 4;
}

abbrev start : World
start = record { lease = lapsed_lease; replaced = none; clock = 31 * second; left = 2 }

abbrev finished : World
finished = record {
  lease = record {
    holder_identity = some "api-1";
    lease_duration_seconds = some 30;
    acquire_time = some (31 * second);
    renew_time = some (31 * second);
    version = 4;
  };
  replaced = some lapsed_lease;
  clock = 31 * second;
  left = 2;
}

lock_loop_ends_example : (lock_loop client 0 "api-1" 3 start).0 ≢ none
lock_loop_ends_example = lock_loop_ends client 0 "api-1" deadline 3 start (omega arith)
