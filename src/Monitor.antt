-- ===== src/Monitor.antt =====
-- pkg/utils/lock/monitor.go: a variable whose subscribers are told of new values by a channel that
-- is closed. A channel is its number; every method runs under the lock and is one step.
pub mod Steps
pub mod Runs
mod Tests
use clusterrouter.Base.{
  ℕ, ◌+◌, ◌%◌, Bool, true, false, ◌&&◌, Option, none, some, List, [], ◌∷◌, ltb, ◌==◌, if◌then◌else◌,
}

-- A 64-bit integer is kept as its bits: from 2 ^ 63 on it stands for a negative one.
abbrev pub two_to_63 : ℕ
two_to_63 = 9223372036854775808

abbrev pub two_to_64 : ℕ
two_to_64 = 18446744073709551616

-- `currentVersion > 0`.
abbrev pub is_set : ℕ → Bool
is_set version = ltb 0 version && ltb version two_to_63

module _ (V : Type 0) where
  pub record MonitorVariable : Type 0 where
    pub current_value : Option V
    pub current_version : ℕ
    pub version_invalidation_channel : ℕ
    -- How many channels have been made; the next one has this number.
    pub made : ℕ
    pub closed : List ℕ

pub record Subscription : Type 0 where
  pub last_version_read : ℕ
  pub last_version_read_invalidation_channel : ℕ

-- Whether a channel has been closed, so that a receive from it returns.
unfoldable pub is_closed : ℕ → List ℕ → Bool
is_closed c [] = false
is_closed c (d ∷ ds) = let rest = is_closed c ds in if d == c then true else rest

module _ {V : Type 0} where
  -- `NewMonitorVariable`.
  unfoldable pub new_monitor_variable : MonitorVariable V
  new_monitor_variable = record {
    current_value = none;
    current_version = 0;
    version_invalidation_channel = 0;
    made = 1;
    closed = [];
  }

  -- `Set`; `none` is the panic of closing a closed channel.
  unfoldable pub set : V → MonitorVariable V → Option (MonitorVariable V)
  set new_value m =
      if is_closed m.version_invalidation_channel m.closed
      then none
      else some (record {
        current_value = some new_value;
        current_version = (m.current_version + 1) % two_to_64;
        version_invalidation_channel = m.made;
        made = m.made + 1;
        closed = m.version_invalidation_channel ∷ m.closed;
      })

  -- `Subscribe`.
  unfoldable pub subscribe : MonitorVariable V → Subscription × MonitorVariable V
  subscribe m =
      if is_set m.current_version
      then (
        record { last_version_read = 0; last_version_read_invalidation_channel = m.made },
        record m { made = m.made + 1; closed = m.made ∷ m.closed },
      )
      else (
        record {
          last_version_read = 0;
          last_version_read_invalidation_channel = m.version_invalidation_channel;
        },
        m,
      )

  -- Whether the channel that `NewValueReady` returns is closed.
  unfoldable pub new_value_ready : MonitorVariable V → Subscription → Bool
  new_value_ready m s = is_closed s.last_version_read_invalidation_channel m.closed

  -- `Value`, with what it leaves in the subscription.
  unfoldable pub value : MonitorVariable V → (Option V × ℕ) × Subscription
  value m = (
    (m.current_value, m.current_version),
    record {
      last_version_read = m.current_version;
      last_version_read_invalidation_channel = m.version_invalidation_channel;
    },
  )
