-- ===== src/PodController.antt =====
-- pkg/controllers/pod.go and sync.go: the controller that runs the pods of a virtual node through a
-- provider, and the wrapper for providers that do not tell of changes themselves.
pub mod Names
pub mod Watched
pub mod Known
pub mod Sync
pub mod Status
pub mod Wrapper
pub mod Repeated
pub mod Sound
pub mod Kept
pub mod Runs
pub mod Untouched
pub mod Reached
pub mod Erased
pub mod Replaced
mod Tests
