-- ===== src/Access/Backup.antt =====
-- The backup account: read access everywhere, and nothing more.
use gitclub.Base.{
  ℕ, ◌≡◌, ◌⊎◌, inl, inr, refl, Str, false, List, [], ◌∷◌, Option, none, some, arith, max, In,
  nat_eq, str_keys, str_eq_iff, str_eq, if◌then◌else◌, select_one, select_one-In, >>=-eq-ok,
  or_fail-eq-ok, or_fail, ok,
}
use gitclub.Schema.{Db, Repo, Identity, UserRow}
use gitclub.Access.Levels.{
  Server, rank, is_backup_user, role_rows, best_role, own_role, role, named, unknown,
  configure_backup_user,
}
use gitclub.Access.Roles.{rank_read}

max_rank : List Str → ℕ
max_rank [] = 0
max_rank (r ∷ rs) = max (rank r) (max_rank rs)

rank-best_role :
    (best : Str) (rs : List Str) → rank (best_role best rs) ≡ max (rank best) (max_rank rs)
unfolding best_role max_rank
rank-best_role best [] = omega arith
rank-best_role best (r ∷ rs) = ground (arith, rank-best_role best rs, rank-best_role r rs)

rank_nil : rank [] ≡ 0
unfolding rank str_eq
rank_nil = refl

abbrev pub unset : Server
unset = record { backup_user_id = 0 }

-- The setting raises the backup account to read where it had nothing, leaves every role that it has
-- by membership or visibility as it is, and changes nothing for other callers.
pub role-backup :
    (s : Server) (db : Db) (r : Repo) (u : Option Identity)
    → rank (role s db r u) ≡ max (rank (role unset db r u)) (if is_backup_user s u then 1 else 0)
unfolding role own_role is_backup_user
role-backup s db r none = ground arith
role-backup s db r (some v) = ground (
  arith,
  rank_read,
  rank_nil,
  rank-best_role (own_role s r (some v)) (role_rows db r v.id),
  rank-best_role (own_role unset r (some v)) (role_rows db r v.id),
)

-- A start that succeeds without a name gives no account the fallback, and one that succeeds with a
-- name gives it to a stored account of that name.
pub configure_backup_user_lem :
    (db : Db) (name : Str) (s : Server)
    → configure_backup_user db name ≡ ok s
    → ((name ≡ []) × ((u : Option Identity) → is_backup_user s u ≡ false))
      ⊎ ((row : UserRow) × In row db.users × (row.username ≡ name) × (s.backup_user_id ≡ row.id))
unfolding configure_backup_user is_backup_user
configure_backup_user_lem db [] s h = inl (refl, λ u. ground arith)
configure_backup_user_lem db (c ∷ name) s h =
    let (row, found, e) =
      >>=-eq-ok (or_fail (select_one (named (c ∷ name)) db.users) 500 unknown) _ h in
    let (row_in, t) = select_one-In _ db.users row (or_fail-eq-ok _ _ _ found) in
    inr (row, row_in, (str_eq_iff row.username (c ∷ name)).0 t, ground arith)
