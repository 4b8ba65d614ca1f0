-- ===== src/Freshness/Stored.antt =====
-- What the table holds after refresh.
use gitclub.Base.{
  ℕ, ◌≡◌, ◌≢◌, ◌⊎◌, inl, inr, sym, ap, subst, ◌∙◌, Str, Bool, not, ◌&&◌, some, arith, if◌then◌else◌,
  ◌==◌, nat_eq, str_keys, In, In-update, select_one, select_one-In, update, nat_beq_iff, List,
  Bool-cases,
}
use gitclub.Schema.{Db, Repo}
use gitclub.Freshness.{row_with, store_tip, refresh}

-- The identifiers of the repositories are distinct: id is the primary key.
abbrev pub UniqueRepos : Db → Type 0
UniqueRepos db = (x y : Repo) → In x db.repositories → In y db.repositories → x.id ≡ y.id → x ≡ y

-- The row with the observed tip: the time moves only with the tip.
abbrev pub with_tip : Repo → Str → ℕ → Repo
with_tip r oid stamp =
    if r.default_oid == oid then r else record r { default_oid = oid; updated_at = stamp }

-- With distinct identifiers, a row behind a refresh of a stored repository whose tip was observed is
-- either that repository's own with the observed tip, its time moved only if the tip did, or an
-- untouched row of another repository.
pub refresh-In :
    (db : Db) (repo : Repo) (oid : Str) (stamp : ℕ) (r : Repo)
    → UniqueRepos db
    → select_one (row_with repo.id) db.repositories ≡ some r
    → (x : Repo) → In x (refresh db repo (some oid) stamp).0.repositories
    → (x ≡ with_tip r oid stamp) ⊎ ((x.id ≢ repo.id) × In x db.repositories)
unfolding refresh store_tip
refresh-In db repo oid stamp r unique row x m =
    let (r_in, t) = select_one-In (row_with repo.id) db.repositories r row in
    let same : r.id ≡ repo.id = ground arith in
    elim (Bool-cases (r.default_oid == oid)) [
      | inl e ↦
          let q : (refresh db repo (some oid) stamp).0.repositories ≡ db.repositories =
            ground (arith, row, e) in
          rw e (kept same r_in (subst (In x) q m))
      | inr e ↦
          let q : (refresh db repo (some oid) stamp).0.repositories ≡ stored =
            ground (arith, row, e) in
          let (y, y_in, z) = In-update moved new_tip x db.repositories (subst (In x) q m) in
          rw e (elim (Bool-cases (y.id == repo.id)) [
            | inl t ↦
                let y_r : y ≡ r = unique y r y_in r_in (ground arith) in
                inl (
                  z
                  ∙ (ap (λ (v : Repo). if moved v then new_tip v else v) y_r
                      ∙ rw (e, (nat_beq_iff r.id repo.id).1 same)))
            | inr t ↦
                let x_y : x ≡ y = z ∙ rw t in
                inr (
                  subst (λ (v : Repo). v.id ≢ repo.id) (sym x_y) (ground arith),
                  subst (λ v. In v db.repositories) (sym x_y) y_in,
                )
          ])
    ]
  where
    moved : Repo → Bool
    moved v = v.id == repo.id && not (v.default_oid == oid)

    new_tip : Repo → Repo
    new_tip v = record v { default_oid = oid; updated_at = stamp }

    stored : List Repo
    stored = update moved new_tip db.repositories

    kept :
        r.id ≡ repo.id
        → In r db.repositories
        → In x db.repositories
        → (x ≡ r) ⊎ ((x.id ≢ repo.id) × In x db.repositories)
    kept same r_in x_in = elim (Bool-cases (x.id == repo.id)) [
      | inl t ↦ inl (unique x r x_in r_in (ground arith))
      | inr t ↦ inr (ground arith, x_in)
    ]
