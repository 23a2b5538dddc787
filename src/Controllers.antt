-- ===== src/Controllers.antt =====
-- pkg/controllers: the controllers that copy config maps, secrets, volumes and services between the
-- master cluster and a member cluster.
pub mod Api
pub mod Common
pub mod Synced
pub mod Collected
pub mod Services
pub mod Delivered
pub mod Settled
pub mod Unmarked
pub mod Retried
pub mod Volumes
pub mod Persistent
pub mod Unclaimed
pub mod Memory
mod Tests
mod ServiceTests
mod VolumeTests
