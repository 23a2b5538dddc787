-- ===== src/PodController/Watched.antt =====
-- pkg/controllers/pod.go: the fields of pods that the controller reads, and when two pods are the
-- same to it. Times are numbers of nanoseconds, periods of seconds, which the API keeps from being
-- negative.
use clusterrouter.Base.{
  ℕ, String, Bool, true, false, not, ◌&&◌, ◌||◌, Option, none, some, List, [], ◌∷◌, ◌==◌, text_dec,
  ite, if◌then◌else◌,
}
use clusterrouter.Base.{Map, ℤ}

pub record Terminated : Type 0 where
  pub exit_code : ℤ
  pub reason : String
  pub message : String
  pub started_at : ℕ
  pub finished_at : ℕ
  pub container_id : String

pub record ContainerStatus : Type 0 where
  pub container_id : String
  -- The time since when it runs.
  pub running : Option ℕ
  pub terminated : Option Terminated
  pub is_waiting : Bool

pub record PodState : Type 0 where
  pub phase : String
  pub reason : String
  pub message : String
  pub container_statuses : List ContainerStatus

-- Of the specification, the texts of containers and tolerations and of all that no test reads alone.
pub record WatchedPod : Type 0 where
  pub namespace : String
  pub name : String
  pub uid : List ℕ
  pub resource_version : String
  pub labels : Map String
  pub annotations : Map String
  pub finalizers : List String
  pub creation_timestamp : ℕ
  pub deletion_timestamp : Option ℕ
  pub deletion_grace_period_seconds : Option ℕ
  pub containers : List String
  pub init_containers : List String
  pub tolerations : List String
  pub active_deadline_seconds : Option ℕ
  pub restart_policy : String
  pub rest : String
  pub status : PodState

-- `cmp.Equal` at the types that it is used at, and `Time.Equal`.
pub record Comparing : Type 0 where
  pub same_texts : List String → List String → Bool
  pub same_map : Map String → Map String → Bool
  pub same_deadline : Option ℕ → Option ℕ → Bool
  pub same_time : Option ℕ → Option ℕ → Bool
  pub same_state : PodState → PodState → Bool
  pub same_pod : WatchedPod → WatchedPod → Bool

-- `running`.
unfoldable pub is_running : List ContainerStatus → Bool
is_running [] = false
is_running (c ∷ statuses) = elim c.terminated [
  | none ↦ if c.is_waiting then is_running statuses else true
  | some t ↦ is_running statuses
]

unfoldable pub is_phase : WatchedPod → String → Bool
is_phase pod phase = ite (text_dec pod.status.phase phase) true false

-- `shouldSkipPodStatusUpdate`.
unfoldable pub should_skip_pod_status_update : WatchedPod → Bool
unfolding is_phase
should_skip_pod_status_update pod = is_phase pod "Succeeded" || is_phase pod "Failed"

-- `deleteGraceTimeEqual`.
unfoldable pub delete_grace_time_equal : Option ℕ → Option ℕ → Bool
delete_grace_time_equal none none = true
delete_grace_time_equal (some old) (some new) = old == new
delete_grace_time_equal none (some new) = false
delete_grace_time_equal (some old) none = false

abbrev pub blank_state : PodState
blank_state = record { phase = ""; reason = ""; message = ""; container_statuses = [] }

-- The pod without what `podsEffectivelyEqual` passes over.
abbrev pub without_state : WatchedPod → WatchedPod
without_state pod = record pod { resource_version = ""; status = blank_state }

module _ (E : Comparing) where
  unfoldable pub pods_effectively_equal : WatchedPod → WatchedPod → Bool
  pods_effectively_equal p1 p2 = E.same_pod (without_state p1) (without_state p2)

  unfoldable pub pods_equal : WatchedPod → WatchedPod → Bool
  pods_equal pod1 pod2 =
      E.same_texts pod1.containers pod2.containers
      && E.same_texts pod1.init_containers pod2.init_containers
      && E.same_deadline pod1.active_deadline_seconds pod2.active_deadline_seconds
      && E.same_texts pod1.tolerations pod2.tolerations
      && E.same_map pod1.labels pod2.labels
      && E.same_map pod1.annotations pod2.annotations

  unfoldable pub pod_should_enqueue : WatchedPod → WatchedPod → Bool
  unfolding pods_equal delete_grace_time_equal
  pod_should_enqueue old new =
      not (pods_equal old new)
      || not (
          delete_grace_time_equal old.deletion_grace_period_seconds
            new.deletion_grace_period_seconds)
      || not (E.same_time old.deletion_timestamp new.deletion_timestamp)

  -- Whether the pod of the master cluster differs from what the provider sent last.
  unfoldable pub has_drifted : WatchedPod → WatchedPod → Bool
  has_drifted new last =
      not (E.same_state new.status last.status)
      || not (E.same_map new.annotations last.annotations)
      || not (E.same_map new.labels last.labels)
      || not (E.same_texts new.finalizers last.finalizers)
