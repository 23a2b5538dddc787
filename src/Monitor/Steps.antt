-- ===== src/Monitor/Steps.antt =====
-- pkg/utils/lock/monitor.go: the steps of a variable with its subscriptions.
use clusterrouter.Base.{
  ℕ, ◌≤◌, ◌<◌, ◌≡◌, false, Option, none, some, List, [], ◌∷◌, ltb, length, All,
}
use clusterrouter.Monitor.{
  MonitorVariable, Subscription, is_closed, new_monitor_variable, set, subscribe, new_value_ready,
  value,
}

abbrev pub head : {A : Type 0} → List A → Option A
head [] = none
head (x ∷ xs) = some x

module _ {V : Type 0} where
  -- A run, with the values that it has set, the last one first, and the state of every subscription.
  pub data Run : List V → MonitorVariable V → List Subscription → Type 0 where
    start : Run [] new_monitor_variable []
    sets :
        {vs : List V} {m m' : MonitorVariable V} {subs : List Subscription} (v : V)
        → Run vs m subs
        → set v m ≡ some m'
        → Run (v ∷ vs) m' subs
    subscribes :
        {vs : List V} {m : MonitorVariable V} {subs : List Subscription}
        → Run vs m subs
        → Run vs (subscribe m).1 ((subscribe m).0 ∷ subs)
    -- The subscription that reads comes to the front.
    reads :
        {vs : List V} {m : MonitorVariable V} {s : Subscription} {subs : List Subscription}
        → Run vs m (s ∷ subs)
        → Run vs m ((value m).1 ∷ subs)
    turns :
        {vs : List V} {m : MonitorVariable V} {s t : Subscription} {subs : List Subscription}
        → Run vs m (s ∷ t ∷ subs)
        → Run vs m (t ∷ s ∷ subs)

  -- The open channel is the variable's alone, and every channel in use has been made.
  pub record Sound (vs : List V) (m : MonitorVariable V) : Type 0 where
    pub version : m.current_version ≡ length vs
    pub latest : m.current_value ≡ head vs
    pub is_made : m.version_invalidation_channel < m.made
    pub is_open : is_closed m.version_invalidation_channel m.closed ≡ false
    pub fresh : (c : ℕ) → m.made ≤ c → is_closed c m.closed ≡ false

  -- A subscription is told of a value exactly if it has not read it.
  pub record Told (m : MonitorVariable V) (s : Subscription) : Type 0 where
    pub is_known : s.last_version_read_invalidation_channel < m.made
    pub not_ahead : s.last_version_read ≤ m.current_version
    pub ready : new_value_ready m s ≡ ltb s.last_version_read m.current_version
    pub current :
        new_value_ready m s ≡ false
        → s.last_version_read_invalidation_channel ≡ m.version_invalidation_channel

  abbrev pub Holds : List V → MonitorVariable V → List Subscription → Type 0
  Holds vs m subs = Sound vs m × All (Told m) subs
