-- ===== src/Listing/Shown.antt =====
-- What GET /repositories shows, and in which order.
use gitclub.Base.{ℕ, ◌≡◌, Str, Option, nat_eq, str_keys, In}
use gitclub.Schema.{Db, Repo, Identity}
use gitclub.Access.{Server, role}
use gitclub.Listing.{Query, Row, is_pinned}
use gitclub.Listing.Selection.{Suits}

-- What a listed row shows: a stored repository that suits, and whether the caller has pinned it.
pub record Listed (s : Server) (db : Db) (u : Option Identity) (query : Query) (x : Row)
    : Type 0 where
  pub repo : Repo
  pub stored : In repo db.repositories
  pub same_id : x.repo.id ≡ repo.id
  pub same_pin : x.pinned ≡ is_pinned db u repo
  pub suits : Suits s db u query repo

module _ (s : Server) (u : Option Identity) (query : Query) (observed : Repo → Option Str) (now : ℕ)
    (start : Db) where
  -- A refresh leaves what the selection and the pins read.
  record Reads (db : Db) : Type 0 where
    roles : (r : Repo) → role s db r u ≡ role s start r u
    pins : db.pins ≡ start.pins
    groups : db.group_repos ≡ start.group_repos
