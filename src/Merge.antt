-- ===== src/Merge.antt =====
-- The merge of a pull request and its recovery: durableMarker, reconcileMerges and the merge route of
-- implementations/go/collaboration.go.
pub mod World
pub mod Invariant
pub mod Recording
pub mod Removal
pub mod Reconcile
pub mod Loop
pub mod Route
pub mod Torn
pub mod Safety
pub mod Answers
pub mod Success
pub mod Request
pub mod History
pub mod Endpoint
pub mod Editing
pub mod Opening
