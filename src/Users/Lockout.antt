-- ===== src/Users/Lockout.antt =====
-- The lockout table of plugins/users/qodalis_cli_users/services/auth_service.py: `_state`,
-- `is_locked`, `reserve_attempt`, `reset_failures`. A time is a number of milliseconds.
pub mod Laws
use cli_server_python.Prelude.{
  ℕ, ◌+◌, ◌-◌, String, Bool, true, false, not, ◌&&◌, ◌||◌, ◌==◌, Option, none, some, ltb, leb,
  length, drop, if◌then◌else◌,
}
use cli_server_python.Prelude.Dict.{Dict, get, put, pop}

pub record Lockout : Type 0 where
  pub failures : ℕ
  pub locked_until : ℕ

abbrev pub fresh : Lockout
fresh = record { failures = 0; locked_until = 0 }

abbrev pub max_tracked_keys : ℕ
max_tracked_keys = 10000

-- `while len(d) > _MAX_TRACKED_KEYS: d.popitem(last=False)`
unfoldable pub evict {ℓ} : {V : Type ℓ} → Dict V → Dict V
evict d = drop (length d - max_tracked_keys) d

-- The lock that is found: whether the key is locked, and whether the lock has expired.
unfoldable pub is_held : ℕ → Option Lockout → Bool
is_held now none = false
is_held now (some lock) = not (lock.locked_until == 0) && ltb now lock.locked_until

unfoldable pub has_expired : ℕ → Option Lockout → Bool
has_expired now none = false
has_expired now (some lock) = not (lock.locked_until == 0) && leb lock.locked_until now

unfoldable pub is_locked : ℕ → String → Dict Lockout → Bool × Dict Lockout
is_locked now key d =
    if is_held now (get key d)
    then (true, d)
    else if has_expired now (get key d)
    then (false, pop key d)
    else (false, d)

-- `_state(key, True)`: the lock of the key and the table that has it.
unfoldable pub lock_state : String → Dict Lockout → Lockout × Dict Lockout
unfolding evict
lock_state key d = elim (get key d) [
  | some lock ↦ (lock, d)
  | none ↦ (fresh, evict (put key fresh d))
]

module _ (max_login_attempts lockout_ms : ℕ) where
  -- The writes to the lock of a counted attempt.
  unfoldable pub count_failure : ℕ → Lockout → Lockout
  count_failure now lock =
      if leb max_login_attempts (lock.failures + 1)
      then record { failures = 0; locked_until = now + lockout_ms }
      else record lock { failures = lock.failures + 1 }

  -- `_state` returns the lock that the table holds (what was just inserted is at the end of the table
  -- and not evicted), so that its writes are writes to the table.
  unfoldable pub reserve_attempt : ℕ → String → Dict Lockout → Bool × Dict Lockout
  reserve_attempt now key d =
      let (locked, unexpired) = is_locked now key d in
      let (lock, tracked) = lock_state key unexpired in
      if locked then (false, unexpired) else (true, put key (count_failure now lock) tracked)

unfoldable pub reset_failures : String → Dict Lockout → Dict Lockout
reset_failures key d = pop key d
