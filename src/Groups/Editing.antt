-- ===== src/Groups/Editing.antt =====
-- The branches POST and PATCH of groups in implementations/go/repositories.go. A text of JSON is UTF-8, so
-- its characters are the bytes that continue no other; an identifier that is no positive number is 0.
use gitclub.Base.{
  ℕ, suc, ◌≡◌, ◌≢◌, ◌<◌, ◌⊎◌, inl, inr, sym, ap, subst, ◌∙◌, Str, bytes, Bool, true, false, ◌&&◌,
  ◌||◌, List, [], ◌∷◌, Option, none, some, arith, ltb, leb, if◌then◌else◌, ◌==◌, nat_eq, trim_space,
  length, any, In, update, delete, In-delete, Result, Check, ok, fail, fail_if, >>=-eq-ok, ◌>>=◌,
  ◌>>◌, Bool-cases,
}
use gitclub.Schema.{Db, Repo, Group, GroupRepo, Identity}
use gitclub.Access.{Server, rank, role, repo}
use gitclub.Access.Guard.{row_of, repo-eq-ok}
use gitclub.Namespaces.{require_user}
use gitclub.Repositories.{Value, text_of, bool_value}
use gitclub.Groups.{group}

-- len([]rune(s))
unfoldable pub runes : Str → ℕ
runes [] = 0
runes (c ∷ s) = let rest = runes s in if leb 128 c && ltb c 192 then rest else suc rest

unfoldable pub group_name : Value → Result Str
group_name v =
    fail_if (length (trim_space (text_of v)) == 0 || ltb 80 (runes (trim_space (text_of v)))) 400
      "Group name must have 1 to 80 characters"
    >> ok (trim_space (text_of v))

unfoldable pub group_shared : Option Value → Bool → Result Bool
group_shared none before = ok before
group_shared (some (bool_value b)) before = ok b
group_shared (some _) before = fail 400 "shared must be boolean"

-- POST /groups
unfoldable pub create_group : Db → Option Identity → Value → Option Value → ℕ → Result Db
create_group db who name shared now = do
  u ← require_user who
  n ← group_name name
  is_shared ← group_shared shared false
  ok (record db {
    groups =
        record {
          id = db.next_group;
          name = n;
          creator_id = u.id;
          shared = is_shared;
          created_at = now;
        }
        ∷ db.groups;
    next_group = suc db.next_group;
  })

-- The loop over the identifiers, each of which the caller must be able to read.
unfoldable pub check_ids : Server → Db → Option Identity → List ℕ → Check
check_ids s db who [] = ok tt
check_ids s db who (id ∷ ids) =
    fail_if (id == 0) 400 "Invalid repository ID"
    >> (repo s db id who (bytes "read") >>= λ r. check_ids s db who ids)

abbrev pub is_link : ℕ → ℕ → GroupRepo → Bool
is_link gid rid l = l.group_id == gid && l.repo_id == rid

-- INSERT INTO group_repos … ON CONFLICT DO NOTHING, for each identifier
unfoldable pub link_ids : ℕ → List ℕ → List GroupRepo → List GroupRepo
link_ids gid [] ls = ls
link_ids gid (id ∷ ids) ls =
    link_ids gid ids
      (if any (is_link gid id) ls then ls else record { group_id = gid; repo_id = id } ∷ ls)

-- repo_ids, none where the key is not there; the inner none is no array.
unfoldable pub given_ids :
    Server → Db → Option Identity → ℕ → Option (Option (List ℕ)) → Result (List GroupRepo)
given_ids s db who gid none = ok db.group_repos
given_ids s db who gid (some none) = fail 400 "repo_ids must contain at most 1000 repository IDs"
given_ids s db who gid (some (some ids)) = do
  fail_if (ltb 1000 (length ids)) 400 "repo_ids must contain at most 1000 repository IDs"
  check_ids s db who ids
  ok (link_ids gid ids (delete (λ (l : GroupRepo). l.group_id == gid) db.group_repos))

abbrev pub or_name : Option Value → Str → Result Str
or_name none before = ok before
or_name (some v) before = group_name v

-- PATCH /groups/ID
unfoldable pub edit_group :
    Server
    → Db
    → Option Identity
    → ℕ
    → Option Value
    → Option Value
    → Option (Option (List ℕ))
    → Result Db
edit_group s db who id name shared ids = do
  g ← group db id who true
  n ← or_name name g.name
  is_shared ← group_shared shared g.shared
  links ← given_ids s db who id ids
  ok (record db {
    groups =
        update (λ (x : Group). x.id == id)
          (λ (x : Group). record x { name = n; shared = is_shared }) db.groups;
    group_repos = links;
  })

abbrev pub Readable : Server → Db → Option Identity → ℕ → Type 0
Readable s db who id = (r : Repo) × (row_of db id ≡ some r) × (0 < rank (role s db r who))

check_ids-Readable :
    (s : Server) (db : Db) (who : Option Identity) (ids : List ℕ) (id : ℕ)
    → check_ids s db who ids ≡ ok tt
    → In id ids
    → Readable s db who id
unfolding check_ids
check_ids-Readable s db who [] id h m = elim m [ ]
check_ids-Readable s db who (n ∷ ids) id h m =
    let (_, _, h1) = >>=-eq-ok (fail_if (n == 0) 400 _) _ h in
    let (r, asked, h2) = >>=-eq-ok (repo s db n who (bytes "read")) _ h1 in
    let (row, some_role, _) = (repo-eq-ok s db n who (bytes "read") r).0 asked in
    elim m [
      | inl e ↦ subst (Readable s db who) e (r, row, some_role)
      | inr k ↦ check_ids-Readable s db who ids id h2 k
    ]

-- A link behind the inserts is one of before, or one to an identifier of the list.
link_ids-In :
    (gid : ℕ) (ids : List ℕ) (ls : List GroupRepo) (l : GroupRepo)
    → In l (link_ids gid ids ls)
    → In l ls ⊎ ((l.group_id ≡ gid) × In l.repo_id ids)
unfolding link_ids
link_ids-In gid [] ls l m = inl m
link_ids-In gid (id ∷ ids) ls l m = elim (Bool-cases (any (is_link gid id) ls)) [
  | inl t ↦ elim (link_ids-In gid ids ls l (rw t at m)) [
    | inl k ↦ inl k
    | inr k ↦ inr (k.0, inr k.1)
  ]
  | inr t ↦
      elim (link_ids-In gid ids (record { group_id = gid; repo_id = id } ∷ ls) l (rw t at m)) [
        | inl k ↦ elim k [
          | inl e ↦ inr (
            ap (λ (x : GroupRepo). x.group_id) (sym e),
            inl (ap (λ (x : GroupRepo). x.repo_id) e),
          )
          | inr k' ↦ inl k'
        ]
        | inr k ↦ inr (k.0, inr k.1)
      ]
]

-- The links of a group that a change has replaced go to repositories that the caller may read.
pub edit_group-Readable :
    (s : Server) (db : Db) (who : Option Identity) (id : ℕ) (name shared : Option Value)
    (ids : List ℕ) (after : Db) (l : GroupRepo)
    → edit_group s db who id name shared (some (some ids)) ≡ ok after
    → In l after.group_repos
    → ((l.group_id ≢ id) × In l db.group_repos)
      ⊎ ((l.group_id ≡ id) × In l.repo_id ids × Readable s db who l.repo_id)
unfolding edit_group given_ids
edit_group-Readable s db who id name shared ids after l h m =
    let (g, _, h1) = >>=-eq-ok (group db id who true) _ h in
    let (n, _, h2) = >>=-eq-ok (or_name name g.name) _ h1 in
    let (is_shared, _, h3) = >>=-eq-ok (group_shared shared g.shared) _ h2 in
    let (links, given, h4) = >>=-eq-ok (given_ids s db who id (some (some ids))) _ h3 in
    let (_, _, g1) = >>=-eq-ok (fail_if (ltb 1000 (length ids)) 400 _) _ given in
    let (_, checked, g2) = >>=-eq-ok (check_ids s db who ids) _ g1 in
    let same : links ≡ after.group_repos = cc in
    let made : link_ids id ids (delete (λ (x : GroupRepo). x.group_id == id) db.group_repos)
        ≡ links =
      cc in
    elim (link_ids-In id ids (delete (λ (x : GroupRepo). x.group_id == id) db.group_repos) l
      (subst (In l) (sym (made ∙ same)) m)) [
        | inl k ↦
            let (l_in, other) =
              In-delete (λ (x : GroupRepo). x.group_id == id) l db.group_repos k in
            inl (ground (arith, other), l_in)
        | inr k ↦ inr (k.0, k.1, check_ids-Readable s db who ids l.repo_id checked k.1)
      ]
