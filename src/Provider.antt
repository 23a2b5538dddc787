-- ===== src/Provider.antt =====
-- pkg/plugins/virtualk8s: the provider that runs pods in a member cluster and tells what capacity the
-- cluster has left.
pub mod Members
pub mod Capacity
pub mod Sums
pub mod Placed
pub mod Remaining
pub mod Informers
pub mod Joined
pub mod Depends
pub mod Copies
pub mod Auth
pub mod Pods
pub mod Present
mod Tests
mod PodTests
