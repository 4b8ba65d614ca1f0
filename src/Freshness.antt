-- ===== src/Freshness.antt =====
-- refresh of implementations/go/git.go: the stored tip of the default branch follows the one that
-- Git has, and only then does the time of the last update move.
pub mod Stored
use gitclub.Base.{
  ℕ, Str, Bool, not, ◌&&◌, Option, none, some, if◌then◌else◌, ◌==◌, nat_eq, str_keys, select_one,
  update,
}
use gitclub.Schema.{Db, Repo}

abbrev pub row_with : ℕ → Repo → Bool
row_with id r = r.id == id

-- UPDATE repositories SET default_oid=?,updated_at=? WHERE id=? AND default_oid<>?
unfoldable pub store_tip : Db → ℕ → Str → ℕ → Db
store_tip db id oid stamp = record db {
  repositories =
      update (λ r. r.id == id && not (r.default_oid == oid))
        (λ (r : Repo). record r { default_oid = oid; updated_at = stamp }) db.repositories;
}

-- The argument observed is the result of defaultOID; the second part is the updated repo map.
unfoldable pub refresh : Db → Repo → Option Str → ℕ → Db × Repo
refresh db repo none stamp = (db, repo)
refresh db repo (some oid) stamp = elim (select_one (row_with repo.id) db.repositories) [
  | none ↦ (db, repo)
  | some current ↦
      if not (current.default_oid == oid)
      then (store_tip db repo.id oid stamp, record repo { updated_at = stamp; default_oid = oid })
      else (db, record repo { updated_at = current.updated_at; default_oid = oid })
]
