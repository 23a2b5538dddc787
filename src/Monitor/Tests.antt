-- ===== src/Monitor/Tests.antt =====
-- pkg/utils/lock/monitor.go: a subscription to a variable that is set twice.
use clusterrouter.Base.{ℕ, ◌≡◌, refl, true, false, some, [], ◌∷◌, arith}
use clusterrouter.Monitor.{
  MonitorVariable, Subscription, is_closed, new_monitor_variable, set, subscribe, new_value_ready,
  value,
}
use clusterrouter.Monitor.Runs.{Run-ready}
use clusterrouter.Monitor.Steps.{Run, start, sets, subscribes, reads}

abbrev subscribed : Subscription
subscribed = record { last_version_read = 0; last_version_read_invalidation_channel = 0 }

abbrev first : MonitorVariable ℕ
first = record {
  current_value = some 7;
  current_version = 1;
  version_invalidation_channel = 1;
  made = 2;
  closed = 0 ∷ [];
}

abbrev second : MonitorVariable ℕ
second = record {
  current_value = some 8;
  current_version = 2;
  version_invalidation_channel = 2;
  made = 3;
  closed = 1 ∷ 0 ∷ [];
}

-- Subscribe, set, read, set.
second-Run :
    Run
      (8 ∷ 7 ∷ [])
      second
      (record { last_version_read = 1; last_version_read_invalidation_channel = 1 } ∷ [])
unfolding new_monitor_variable subscribe set value is_closed
second-Run = sets 8 (reads {s = subscribed} (sets {m' = first} 7 (subscribes start) refl)) refl

Run-ready_example :
    ((v : ℕ) → (m' : MonitorVariable ℕ) × (set v second ≡ some m'))
    × (new_value_ready second
          (record { last_version_read = 1; last_version_read_invalidation_channel = 1 })
        ≡ true)
    × ((value second).0 ≡ (some 8, 2))
    × (new_value_ready second (value second).1 ≡ false)
    × ((value second).1.last_version_read ≡ 2)
Run-ready_example = Run-ready second-Run (omega arith)
