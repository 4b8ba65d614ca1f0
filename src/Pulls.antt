-- ===== src/Pulls.antt =====
-- Pull requests: implementations/go/collaboration.go.
pub mod Blockers
pub mod Scan
pub mod Mergeable
pub mod Discussion
pub mod Reviewing
pub mod Opening
pub mod Paths
pub mod Comments
