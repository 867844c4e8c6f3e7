-- ===== src/Cluster.antt =====
-- internal/cluster: the consistent-hash ring and the failure detector.
pub mod Ring
pub mod Membership
mod Tests
