-- ===== src/Listing.antt =====
-- GET /repositories of implementations/go/repositories.go: which repositories a caller sees, and in
-- which order. defaultOID is an argument; texts are lowered on ASCII letters.
pub mod Order
pub mod Selection
pub mod Shown
use gitclub.Base.{
  ℕ, ◌+◌, ◌≡◌, ◌<◌, inl, inr, refl, sym, ap, ◌∙◌, Str, bytes, Bool, true, false, not, ◌&&◌, ◌||◌,
  List, [], ◌∷◌, ◌++◌, map, Option, none, some, arith, ltb, leb, if◌then◌else◌, ◌==◌, nat_eq,
  str_keys, any, length, contains, In, Bool-cases,
}
use gitclub.Base.Sorting.{sort, In-sort, Ordered, sort-Ordered}
use gitclub.Schema.{Db, Repo, Pin, GroupRepo, Identity}
use gitclub.Access.{Server, rank, role, role_rows, namespace_roles, repo_roles}
use gitclub.Freshness.{refresh, store_tip}

-- strings.ToLower
unfoldable pub lower : Str → Str
lower s = map (λ c. if leb b'A' c && leb c b'Z' then c + 32 else c) s

-- The query: group is the identifier of a group that the caller may see, and q is lowered.
pub record Query : Type 0 where
  pub group : Option ℕ
  pub q : Str
  pub owner : Str

unfoldable pub in_group : Db → Option ℕ → Repo → Bool
in_group db none r = true
in_group db (some g) r =
    any (λ (l : GroupRepo). l.group_id == g && l.repo_id == r.id) db.group_repos

abbrev pub searched : Repo → Str
searched r = lower (r.owner ++ (bytes "/" ++ (r.name ++ (bytes " " ++ r.description))))

unfoldable pub selected : Server → Db → Option Identity → Query → Repo → Bool
selected s db u query r =
    not (rank (role s db r u) == 0)
    && ((length query.owner == 0 || r.owner == query.owner)
        && ((length query.q == 0 || contains (searched r) query.q) && in_group db query.group r))

-- The keys of repositoryView that the order reads.
pub record Row : Type 0 where
  pub repo : Repo
  pub pinned : Bool

unfoldable pub is_pinned : Db → Option Identity → Repo → Bool
is_pinned db none r = false
is_pinned db (some u) r = any (λ (p : Pin). p.repo_id == r.id && p.user_id == u.id) db.pins

-- The loop over the rows, each refreshed before it is shown.
unfoldable pub collect :
    Server → Option Identity → Query → (Repo → Option Str) → ℕ → List Repo → Db → List Row × Db
collect s u query observed now [] db = ([], db)
collect s u query observed now (r ∷ rs) db =
    let (db', fresh) = refresh db r (observed r) now in
    let (rows, last) = collect s u query observed now rs db' in
    let (others, same) = collect s u query observed now rs db in
    if selected s db u query r
    then (record { repo = fresh; pinned = is_pinned db' u fresh } ∷ rows, last)
    else (others, same)

-- The comparison of sort.Slice.
unfoldable pub shown_before : Row → Row → Bool
shown_before a b =
    if a.pinned && not b.pinned || not a.pinned && b.pinned
    then a.pinned
    else if not (a.repo.updated_at == b.repo.updated_at)
    then ltb b.repo.updated_at a.repo.updated_at
    else ltb a.repo.id b.repo.id

unfoldable pub list_repositories :
    Server → Db → Option Identity → Query → (Repo → Option Str) → ℕ → List Row × Db
list_repositories s db u query observed now =
    let (rows, after) = collect s u query observed now db.repositories db in
    (sort shown_before rows, after)
