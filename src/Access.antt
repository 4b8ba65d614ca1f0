-- ===== src/Access.antt =====
-- Who may do what: rank of implementations/go/main.go; configureBackupUser, isBackupUser, role and
-- repo of implementations/go/repositories.go. A role is the string that the database holds.
mod Levels
pub mod Roles
pub mod Guard
pub mod Backup
pub use Levels.{Server}
unfoldable pub use Levels.{
  rank, is_backup_user, namespace_roles, repo_roles, role_rows, best_role, own_role, role, repo,
  named, configure_backup_user,
}
