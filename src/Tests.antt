-- ===== src/Tests.antt =====
-- Concrete repositories and requests, and the theorems applied to them.
mod Example
mod Merging
mod Recovering
mod Guarding
mod Pushing
mod Discussing
mod Showing
mod SigningIn
mod Serving
mod Keys
mod Filling
