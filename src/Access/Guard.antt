-- ===== src/Access/Guard.antt =====
-- What the guard repo lets through, and with which error it refuses.
use gitclub.Base.{
  ℕ, ◌≤◌, ◌<◌, ◌≡◌, ◌↔◌, Str, Option, none, some, arith, ◌==◌, nat_eq, select_one, Result, ok, err,
}
use gitclub.Schema.{Db, Repo, Identity}
use gitclub.Access.Levels.{Server, rank, role, repo}

abbrev pub row_of : Db → ℕ → Option Repo
row_of db id = select_one (λ (r : Repo). r.id == id) db.repositories

-- The status of a refusal, 200 for success.
abbrev pub status {ℓ} : {A : Type ℓ} → Result A → ℕ
status (ok a) = 200
status (err e) = e.status

-- The guard returns the row of the repository exactly if the row exists and the caller has some role
-- on it, of at least the rank asked for.
pub repo-eq-ok :
    (s : Server) (db : Db) (id : ℕ) (u : Option Identity) (min_role : Str) (r : Repo)
    → (repo s db id u min_role ≡ ok r) ↔ (
        (row_of db id ≡ some r)
        × (0 < rank (role s db r u))
        × (rank min_role ≤ rank (role s db r u)))
unfolding repo
repo-eq-ok s db id u min_role r = ground arith

-- A repository on which the caller has no role is refused exactly as one that does not exist, also
-- where that is asked for in another database, by another caller and for another role.
pub repo_hides :
    (s : Server) (db : Db) (id : ℕ) (u : Option Identity) (min_role : Str) (r : Repo) (other : Db)
    (missing : ℕ) (v : Option Identity) (asked : Str)
    → row_of db id ≡ some r
    → rank (role s db r u) ≡ 0
    → row_of other missing ≡ none
    → repo s db id u min_role ≡ repo s other missing v asked
unfolding repo
repo_hides s db id u min_role r other missing v asked e h m = ground arith

-- With a role that is below the one asked for, an anonymous caller gets the status 401 and a
-- signed-in one 403.
pub repo_denies :
    (s : Server) (db : Db) (id : ℕ) (u : Option Identity) (min_role : Str) (r : Repo)
    → row_of db id ≡ some r
    → 0 < rank (role s db r u)
    → rank (role s db r u) < rank min_role
    → status (repo s db id u min_role) ≡ elim u [ none ↦ 401 | some _ ↦ 403 ]
unfolding repo
repo_denies s db id u min_role r e h l = ground arith
