-- ===== src/Groups.antt =====
-- group, groupView and the branch DELETE of groups in implementations/go/repositories.go.
pub mod Editing
use gitclub.Base.{
  ℕ, ◌≡◌, ◌≢◌, ◌<◌, ◌↔◌, refl, subst, Bool, true, not, ◌&&◌, ◌||◌, List, map, Option, none, some,
  arith, ltb, ◌==◌, nat_eq, str_keys, any, select, select_one, select_one-In, delete, delete-In,
  In-delete, In, In-any, any-In, In-select, select-In, In-map, map-In, Result, ok, fail, fail_if,
  fail_if-eq-ok, or_fail, or_fail-eq-ok, ◌>>=◌, ◌>>◌, >>=-eq-ok,
}
use gitclub.Base.Sorting.{sort, In-sort, sort-In}
use gitclub.Schema.{Db, Repo, Group, GroupRepo, Identity}
use gitclub.Access.{Server, rank, role}
use gitclub.Namespaces.{require_user}

-- SELECT * FROM groups WHERE id=?, and the guards.
unfoldable pub group : Db → ℕ → Option Identity → Bool → Result Group
group db id who edit = do
  u ← require_user who
  g ← or_fail (select_one (λ (g : Group). g.id == id) db.groups) 404 "Group not found"
  fail_if (not (g.creator_id == u.id) && not g.shared) 404 "Group not found"
  fail_if (edit && not (g.creator_id == u.id)) 403 "Only the group creator can edit it"
  ok g

abbrev pub links : ℕ → Repo → GroupRepo → Bool
links gid r l = l.group_id == gid && l.repo_id == r.id

-- ORDER BY updated_at DESC,repositories.id
abbrev pub fresher : Repo → Repo → Bool
fresher a b = ltb b.updated_at a.updated_at || (a.updated_at == b.updated_at && ltb a.id b.id)

-- The join of repositories and group_repos.
unfoldable pub group_rows : Db → ℕ → List Repo
group_rows db gid =
    sort fresher (select (λ (r : Repo). any (links gid r) db.group_repos) db.repositories)

abbrev pub is_readable : Server → Db → Option Identity → Repo → Bool
is_readable s db u r = ltb 0 (rank (role s db r u))

-- The key repo_ids of groupView.
unfoldable pub group_view : Server → Db → Option Identity → ℕ → List ℕ
group_view s db u gid = map (λ (r : Repo). r.id) (select (is_readable s db u) (group_rows db gid))

-- DELETE FROM groups WHERE id=?, which also deletes the group's rows of group_repos.
unfoldable pub delete_group : Db → Option Identity → ℕ → Result Db
delete_group db who id = do
  g ← group db id who true
  ok (record db {
    groups = delete (λ (x : Group). x.id == id) db.groups;
    group_repos = delete (λ (l : GroupRepo). l.group_id == id) db.group_repos;
  })

-- A repository of the group that the caller may read.
pub record Shows (s : Server) (db : Db) (u : Option Identity) (gid id : ℕ) : Type 0 where
  pub repo : Repo
  pub stored : In repo db.repositories
  pub same_id : repo.id ≡ id
  pub link : GroupRepo
  pub linked : In link db.group_repos
  pub of_group : link.group_id ≡ gid
  pub of_repo : link.repo_id ≡ repo.id
  pub readable : 0 < rank (role s db repo u)

module _ (s : Server) (db : Db) (u : Option Identity) (gid id : ℕ) where
  shown : In id (group_view s db u gid) → Shows s db u gid id
  unfolding group_view group_rows
  shown m =
      let (r, r_in, e) =
        map-In (λ (x : Repo). x.id) (select (is_readable s db u) (group_rows db gid)) m in
      let (row, may) = In-select (is_readable s db u) {a = r} (group_rows db gid) r_in in
      let (stored, has) =
        In-select (λ (x : Repo). any (links gid x) db.group_repos) {a = r} db.repositories
          (In-sort fresher r _ row) in
      let (l, l_in, t) = any-In (links gid r) db.group_repos has in
      record {
        repo = r;
        stored = stored;
        same_id = ground (arith, e);
        link = l;
        linked = l_in;
        of_group = ground arith;
        of_repo = ground arith;
        readable = ground arith;
      }

  shows : Shows s db u gid id → In id (group_view s db u gid)
  unfolding group_view group_rows
  shows x =
      let has =
        In-any (links gid x.repo) {a = x.link} db.group_repos x.linked
          (ground (arith, x.of_group, x.of_repo)) in
      let row = sort-In fresher x.repo _ (
        select-In (λ (r : Repo). any (links gid r) db.group_repos) {a = x.repo} db.repositories
          x.stored has) in
      subst (λ n. In n (group_view s db u gid)) x.same_id
        (In-map (λ (r : Repo). r.id) x.repo _
          (select-In (is_readable s db u) {a = x.repo} (group_rows db gid) row
            (ground (arith, x.readable))))

  -- The view of a group lists exactly the repositories that stand in the group and that the caller may
  -- read.
  pub group_view_iff : In id (group_view s db u gid) ↔ Shows s db u gid id
  group_view_iff = (shown, shows)

deleted_iff :
    {A : Type 0} (key : A → ℕ) (n : ℕ) (x : A) (xs : List A)
    → In x (delete (λ y. key y == n) xs) ↔ (In x xs × (key x ≢ n))
deleted_iff key n x xs = (
  λ m. let (x_in, t) = In-delete (λ y. key y == n) x xs m in (x_in, ground (arith, t)),
  λ (x_in, d). delete-In (λ y. key y == n) x xs x_in (ground (arith, d)),
)

-- A deletion that succeeds was asked for by the group's creator, and leaves neither the group nor a
-- link of it, and every other group and link.
pub delete_group_lem :
    (db : Db) (who : Option Identity) (id : ℕ) (after : Db)
    → delete_group db who id ≡ ok after
    → ((g : Group) × (u : Identity) × In g db.groups
        × (g.id ≡ id)
        × (who ≡ some u)
        × (g.creator_id ≡ u.id))
      × ((g : Group) → In g after.groups ↔ (In g db.groups × (g.id ≢ id)))
      × ((l : GroupRepo) → In l after.group_repos ↔ (In l db.group_repos × (l.group_id ≢ id)))
unfolding delete_group group require_user
delete_group_lem db none id after h = absurd (refused h)
  where
    refused : fail {A = Db} 401 "Sign in to continue" ≡ ok after → ⊥
    refused q = cc
delete_group_lem db (some u) id after h =
    let (g, e, done) = >>=-eq-ok (group db id (some u) true) _ h in
    let (g', e1, h1) =
      >>=-eq-ok (or_fail (select_one (λ (x : Group). x.id == id) db.groups) 404 _) _ e in
    let (_, a, h2) =
      >>=-eq-ok (fail_if (not (g'.creator_id == u.id) && not g'.shared) 404 _) _ h1 in
    let (_, b, h3) = >>=-eq-ok (fail_if (true && not (g'.creator_id == u.id)) 403 _) _ h2 in
    let (g_in, t) =
      select_one-In (λ (x : Group). x.id == id) db.groups g' (or_fail-eq-ok _ _ _ e1) in
    let own = fail_if-eq-ok _ 403 _ b in
    let rows : delete (λ (x : Group). x.id == id) db.groups ≡ after.groups = cc in
    let left : delete (λ (l : GroupRepo). l.group_id == id) db.group_repos ≡ after.group_repos =
      cc in
    (
      (g', u, g_in, ground arith, refl, ground (arith, own)),
      λ x.
          subst (λ xs. In x xs ↔ (In x db.groups × (x.id ≢ id))) rows
            (deleted_iff (λ (y : Group). y.id) id x db.groups),
      λ l.
          subst (λ xs. In l xs ↔ (In l db.group_repos × (l.group_id ≢ id))) left
            (deleted_iff (λ (y : GroupRepo). y.group_id) id l db.group_repos),
    )
