-- ===== src/Access/Levels.antt =====
-- The access functions.
use gitclub.Base.{
  ℕ, String, ◌++◌, Str, bytes, Bool, false, ◌&&◌, ◌||◌, List, [], ◌∷◌, map, Option, none, some, ltb,
  if◌then◌else◌, ◌==◌, str_keys, nat_eq, select, select_one, Result, ok, err, text, fail, fail_if,
  or_fail, ◌>>=◌, ◌>>◌,
}
use gitclub.Schema.{Db, Repo, Identity, NamespaceMember, RepoMember, UserRow}

-- The field of the server struct that access depends on; 0 when no backup account is set.
pub record Server : Type 0 where
  pub backup_user_id : ℕ

unfoldable pub rank : Str → ℕ
rank role =
    if role == bytes "admin"
    then 3
    else if role == bytes "write"
    then 2
    else if role == bytes "read"
    then 1
    else 0

unfoldable pub is_backup_user : Server → Option Identity → Bool
is_backup_user s none = false
is_backup_user s (some u) = ltb 0 s.backup_user_id && u.id == s.backup_user_id

abbrev pub of_namespace : Repo → ℕ → NamespaceMember → Bool
of_namespace repo uid m = m.namespace == repo.owner && m.user_id == uid

abbrev pub of_repository : Repo → ℕ → RepoMember → Bool
of_repository repo uid m = m.repo_id == repo.id && m.user_id == uid

-- SELECT role FROM namespace_members WHERE namespace=? AND user_id=?
unfoldable pub namespace_roles : Db → Repo → ℕ → List Str
namespace_roles db repo uid =
    map (λ m. m.role) (select (of_namespace repo uid) db.namespace_members)

-- SELECT role FROM repo_members WHERE repo_id=? AND user_id=?
unfoldable pub repo_roles : Db → Repo → ℕ → List Str
repo_roles db repo uid = map (λ m. m.role) (select (of_repository repo uid) db.repo_members)

-- The UNION ALL of the two.
unfoldable pub role_rows : Db → Repo → ℕ → List Str
role_rows db repo uid = namespace_roles db repo uid ++ repo_roles db repo uid

-- The loop over the rows.
unfoldable pub best_role : Str → List Str → Str
best_role best [] = best
best_role best (r ∷ rs) = best_role (if ltb (rank best) (rank r) then r else best) rs

-- What a user has without any membership.
unfoldable pub own_role : Server → Repo → Option Identity → Str
own_role s repo u =
    if repo.visibility == bytes "public" || is_backup_user s u then bytes "read" else []

unfoldable pub role : Server → Db → Repo → Option Identity → Str
role s db repo none = own_role s repo none
role s db repo (some u) = best_role (own_role s repo (some u)) (role_rows db repo u.id)

denied : Option Identity → Str → Result Repo
denied none min_role = fail 401 "Sign in to continue"
denied (some u) min_role = err (record {
  status = 403;
  message = text "Repository " ++ min_role ++ text " permission required";
})

-- SELECT * FROM repositories WHERE id=?, and the guard on the caller's role.
unfoldable pub repo : Server → Db → ℕ → Option Identity → Str → Result Repo
unfolding denied
repo s db id u min_role = do
  found ← or_fail (select_one (λ (r : Repo). r.id == id) db.repositories) 404 "Repository not found"
  fail_if (rank (role s db found u) == 0) 404 "Repository not found"
  if ltb (rank (role s db found u)) (rank min_role) then denied u min_role else ok found

abbrev pub named : Str → UserRow → Bool
named name v = v.username == name

abbrev pub unknown : String
unknown =
    "GITCLUB_BACKUP_USERNAME must identify an existing account; create the backup account before enabling this setting"

-- The account is looked up once at start; an unknown name stops the start (status 500 stands for the
-- error value, whose text quotes the name).
unfoldable pub configure_backup_user : Db → Str → Result Server
configure_backup_user db [] = ok (record { backup_user_id = 0 })
configure_backup_user db (c ∷ name) = do
  user ← or_fail (select_one (named (c ∷ name)) db.users) 500 unknown
  ok (record { backup_user_id = user.id })
