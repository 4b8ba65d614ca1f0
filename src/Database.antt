-- ===== src/Database.antt =====
-- The database layer of implementations/go/db.go.
pub mod Placeholders
pub mod Migrations
