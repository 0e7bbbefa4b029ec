-- ===== src/Auth/DeviceStates.antt =====
-- internal/auth/device.go: MemoryDeviceStateStore. Instants and durations are nanoseconds.
use aksagent_sandbox.Base.{
  ℕ, ◌≡◌, refl, String, true, false, ◌||◌, Option, none, some, List, ◌==◌, ltb, if◌then◌else◌,
  Result, ok, err, arith,
}
use aksagent_sandbox.Base.Map.{find, put, delete, find-delete_self}

pub record DeviceState : Type 0 where
  pub device_code : String
  pub expires_at : ℕ
  pub next_poll_at : ℕ
  pub poll_every : ℕ

abbrev pub States : Type 0
States = List (String × DeviceState)

pub data StoreError : Type 0 where
  incomplete_state invalid_state : StoreError

-- Put
unfoldable pub put_state : String → DeviceState → States → Result StoreError States
unfolding put
put_state state v m =
    if state == "" || v.device_code == "" then err incomplete_state else ok (put state v m)

unfoldable pub live_state :
    ℕ → String → States → Option DeviceState → Result StoreError DeviceState × States
unfolding delete
live_state now state m none = (err invalid_state, delete state m)
live_state now state m (some v) =
    if ltb now v.expires_at then (ok v, m) else (err invalid_state, delete state m)

-- Get, at the time `now`.
unfoldable pub get_state : ℕ → String → States → Result StoreError DeviceState × States
unfolding live_state find
get_state now state m = live_state now state m (find state m)

unfoldable pub replace_state :
    String → DeviceState → States → Option DeviceState → Result StoreError States
unfolding put
replace_state state v m none = err invalid_state
replace_state state v m (some _) = ok (put state v m)

-- Update
unfoldable pub update_state : String → DeviceState → States → Result StoreError States
unfolding replace_state find
update_state state v m = replace_state state v m (find state m)

live_state-ok :
    (now : ℕ) (state : String) (m m' : States) (v : DeviceState) (o : Option DeviceState)
    → find state m ≡ o
    → live_state now state m o ≡ (ok v, m')
    → (m' ≡ m) × (find state m ≡ some v) × (ltb now v.expires_at ≡ true)
unfolding live_state
live_state-ok now state m m' v none e h = cc
live_state-ok now state m m' v (some x) e h = ground arith

-- A call of `Get` that gives a state leaves the store alone, and the state is a stored one that has
-- not expired.
pub get_state-ok :
    (now : ℕ) (state : String) (m m' : States) (v : DeviceState)
    → get_state now state m ≡ (ok v, m')
    → (m' ≡ m) × (find state m ≡ some v) × (ltb now v.expires_at ≡ true)
unfolding get_state
get_state-ok now state m m' v h = live_state-ok now state m m' v (find state m) refl h

live_state-err :
    (now : ℕ) (state : String) (m m' : States) (e : StoreError) (o : Option DeviceState)
    → live_state now state m o ≡ (err e, m')
    → find state m' ≡ none
unfolding live_state
live_state-err now state m m' e none h = ground (arith, find-delete_self state m)
live_state-err now state m m' e (some x) h = ground (arith, find-delete_self state m)

-- A call of `Get` that fails leaves no state under the name.
pub get_state-err :
    (now : ℕ) (state : String) (m m' : States) (e : StoreError)
    → get_state now state m ≡ (err e, m')
    → find state m' ≡ none
unfolding get_state
get_state-err now state m m' e h = live_state-err now state m m' e (find state m) h

pub update_state_found :
    (state : String) (v x : DeviceState) (m : States)
    → find state m ≡ some x
    → update_state state v m ≡ ok (put state v m)
unfolding update_state replace_state
update_state_found state v x m h = rw (h) refl

pub get_state_live :
    (now : ℕ) (state : String) (m : States) (v : DeviceState)
    → find state m ≡ some v
    → ltb now v.expires_at ≡ true
    → get_state now state m ≡ (ok v, m)
unfolding get_state live_state
get_state_live now state m v h live = rw (h, live) refl

pub get_state_dead :
    (now : ℕ) (state : String) (m : States) (v : DeviceState)
    → find state m ≡ some v
    → ltb now v.expires_at ≡ false
    → get_state now state m ≡ (err invalid_state, delete state m)
unfolding get_state live_state
get_state_dead now state m v h dead = rw (h, dead) refl
