-- ===== src/Repositories/Catalogue.antt =====
-- What creation keeps of the list of repositories.
use gitclub.Base.{
  ℕ, suc, ◌≡◌, ◌≤◌, ◌<◌, ◌⊎◌, inl, inr, refl, sym, ap, subst, ◌∙◌, bytes, Bool, true, false, not,
  ◌||◌, List, ◌∷◌, Option, arith, ltb, if◌then◌else◌, ◌==◌, nat_eq, str_keys, str_eq_iff, length,
  has_suffix, any, In, In-any, In-delete, delete, select_one, Result, ok, err, fail, fail_if,
  fail_if-eq-ok, >>=-eq-ok,
}
use gitclub.Schema.{Db, Repo, Identity}
use gitclub.Access.{rank}
use gitclub.Git.{Git, valid_branch}
use gitclub.Kaneo.{UrlPackage}
use gitclub.Namespaces.{name_ok, require_user, is_member, role_in}
use gitclub.Repositories.{
  Wanted, or_default, is_visibility, repo_row, has_name, insert_repository, without_repo,
  create_repository,
}
use gitclub.Repositories.Settings.{HasSettings, unnot}

-- An address has no more than one repository, and neither has an identifier; those that were given out
-- are below the next one.
abbrev pub AreApart : List Repo → Type 0
AreApart rs =
    (x y : Repo)
    → In x rs
    → In y rs
    → ((x.owner ≡ y.owner) × (x.name ≡ y.name)) ⊎ (x.id ≡ y.id)
    → x ≡ y

-- The address can be asked for: neither part has a slash, and the name does not end as the address does.
abbrev pub IsAddressed : Repo → Type 0
IsAddressed r =
    (name_ok r.owner ≡ true) × (name_ok r.name ≡ true) × (has_suffix r.name (bytes ".git") ≡ false)

abbrev pub Catalogue : UrlPackage → Git → Db → Type 0
Catalogue net git db =
    AreApart db.repositories
    × ((r : Repo) → In r db.repositories → r.id < db.next_repo)
    × ((r : Repo) → In r db.repositories → IsAddressed r × HasSettings net git r)

module _ (net : UrlPackage) (git : Git) (db : Db) (who : Option Identity) (b : Wanted)
    (now : ℕ) where
  row : Repo
  row = repo_row db.next_repo b now

  insert_repository-eq-ok :
      (after : Db)
      → insert_repository git db who b now ≡ ok after
      → IsAddressed row
        × HasSettings net git row
        × (any (has_name b.owner b.name) db.repositories ≡ false)
        × (after ≡ record db { repositories = row ∷ db.repositories; next_repo = suc db.next_repo })
  unfolding insert_repository row
  insert_repository-eq-ok after h =
      let (u, _, h1) = >>=-eq-ok (require_user who) _ h in
      let (_, named, h2) =
        >>=-eq-ok
          (fail_if
            (not (name_ok b.owner) || (not (name_ok b.name) || has_suffix b.name (bytes ".git")))
            400 _)
          _ h1 in
      let (_, _, h3) =
        >>=-eq-ok
          (fail_if
            (ltb (rank (role_in (select_one (is_member b.owner u.id) db.namespace_members))) 2) 403
            _)
          _ h2 in
      let (_, shown, h4) =
        >>=-eq-ok (fail_if (not (is_visibility (or_default b.visibility (bytes "private")))) 400 _)
          _ h3 in
      let (_, branched, h5) =
        >>=-eq-ok
          (fail_if (not (valid_branch git (or_default b.default_branch (bytes "main")))) 400 _) _
          h4 in
      let (_, few, h6) = >>=-eq-ok (fail_if (ltb 4096 (length b.description)) 400 _) _ h5 in
      let (_, free, h7) =
        >>=-eq-ok (fail_if (any (has_name b.owner b.name) db.repositories) 409 _) _ h6 in
      (
        names (name_ok b.owner) (name_ok b.name) (has_suffix b.name (bytes ".git"))
            (fail_if-eq-ok _ 400 _ named),
        (
          unnot (is_visibility (or_default b.visibility (bytes "private")))
              (fail_if-eq-ok _ 400 _ shown),
          unnot (valid_branch git (or_default b.default_branch (bytes "main")))
              (fail_if-eq-ok _ 400 _ branched),
          fits (fail_if-eq-ok _ 400 _ few),
          inl refl,
        ),
        fail_if-eq-ok _ 409 _ free,
        cc,
      )
    where
      names :
          (x y z : Bool) → (not x || (not y || z)) ≡ false → (x ≡ true) × (y ≡ true) × (z ≡ false)
      names true true z e = (refl, refl, e)
      names true false z e = cc
      names false y z e = cc

      fits : ltb 4096 (length b.description) ≡ false → length b.description ≤ 4096
      fits e = ground (arith, e)

  inserted-Catalogue :
      Catalogue net git db
      → IsAddressed row
      → HasSettings net git row
      → any (has_name b.owner b.name) db.repositories ≡ false
      → Catalogue net git
          (record db { repositories = row ∷ db.repositories; next_repo = suc db.next_repo })
  unfolding row
  inserted-Catalogue (apart, below, sound) addressed settings free = (distinct, under, known)
    where
      new : Repo
      new = repo_row db.next_repo b now

      match : (y : Repo) → b.owner ≡ y.owner → b.name ≡ y.name → has_name b.owner b.name y ≡ true
      match y o n =
          rw ((str_eq_iff y.owner b.owner).1 (sym o), (str_eq_iff y.name b.name).1 (sym n)) refl

      other :
          (y : Repo)
          → In y db.repositories
          → ((b.owner ≡ y.owner) × (b.name ≡ y.name)) ⊎ (db.next_repo ≡ y.id)
          → ⊥
      other y m (inl (o, n)) =
          cc (free, In-any (has_name b.owner b.name) db.repositories m (match y o n))
      other y m (inr e) = omega (arith, e, below y m)

      onto :
          (x y : Repo)
          → new ≡ x
          → ((x.owner ≡ y.owner) × (x.name ≡ y.name)) ⊎ (x.id ≡ y.id)
          → ((b.owner ≡ y.owner) × (b.name ≡ y.name)) ⊎ (db.next_repo ≡ y.id)
      onto x y a =
          subst
            (λ (z : Repo).
              ((z.owner ≡ y.owner) × (z.name ≡ y.name)) ⊎ (z.id ≡ y.id)
              → ((b.owner ≡ y.owner) × (b.name ≡ y.name)) ⊎ (db.next_repo ≡ y.id))
            a (λ e. e)

      swap :
          (x y : Repo)
          → ((x.owner ≡ y.owner) × (x.name ≡ y.name)) ⊎ (x.id ≡ y.id)
          → ((y.owner ≡ x.owner) × (y.name ≡ x.name)) ⊎ (y.id ≡ x.id)
      swap x y (inl (o, n)) = inl (sym o, sym n)
      swap x y (inr e) = inr (sym e)

      distinct : AreApart (new ∷ db.repositories)
      distinct x y (inl a) (inl c) e = sym a ∙ c
      distinct x y (inl a) (inr m) e = absurd (other y m (onto x y a e))
      distinct x y (inr k) (inl c) e = absurd (other x k (onto y x c (swap x y e)))
      distinct x y (inr k) (inr m) e = apart x y k m e

      under : (r : Repo) → (new ≡ r) ⊎ In r db.repositories → r.id < suc db.next_repo
      under r (inl a) = omega (arith, ap (λ (z : Repo). z.id) a)
      under r (inr m) = omega (arith, below r m)

      known : (r : Repo) → (new ≡ r) ⊎ In r db.repositories → IsAddressed r × HasSettings net git r
      known r (inl a) =
          subst (λ (z : Repo). IsAddressed z × HasSettings net git z) a (addressed, settings)
      known r (inr m) = sound r m

without-Catalogue :
    (net : UrlPackage) (git : Git) (id : ℕ) (db : Db)
    → Catalogue net git db
    → Catalogue net git (without_repo id db)
without-Catalogue net git id db (apart, below, sound) = (
  λ x y x_in y_in e. apart x y (left x x_in) (left y y_in) e,
  λ r m. below r (left r m),
  λ r m. sound r (left r m),
)
  where
    left :
        (r : Repo) → In r (delete (λ (z : Repo). z.id == id) db.repositories) → In r db.repositories
    left r m = (In-delete (λ (z : Repo). z.id == id) r db.repositories m).0

-- Whatever becomes of a creation, that of the directory included, addresses and identifiers stay unique,
-- identifiers stay below the next one, and each repository keeps an address and settings that the
-- server accepts.
pub create_repository-Catalogue :
    (net : UrlPackage) (git : Git) (db : Db) (who : Option Identity) (b : Wanted) (now : ℕ)
    (initialized : Bool)
    → Catalogue net git db
    → Catalogue net git (create_repository git db who b now initialized).1
unfolding create_repository
create_repository-Catalogue net git db who b now initialized have =
    result (insert_repository git db who b now) refl initialized
  where
    result :
        (x : Result Db)
        → insert_repository git db who b now ≡ x
        → (i : Bool)
        → Catalogue net git
            (elim x as (λ _. Result ℕ × Db) [
              | err e ↦ (err e, db)
              | ok after ↦ if i then (ok db.next_repo, after) else (
                fail 500 "Git repository initialization failed",
                without_repo db.next_repo after,
              )
            ]).1
    result (err e) q i = have
    result (ok after) q i =
        let (addressed, settings, free, same) =
          insert_repository-eq-ok net git db who b now after q in
        let kept : Catalogue net git after =
          subst (Catalogue net git) (sym same)
            (inserted-Catalogue net git db who b now have addressed settings free) in
        either i after kept
      where
        either :
            (j : Bool) (after' : Db)
            → Catalogue net git after'
            → Catalogue net git
                (if◌then◌else◌ {A = Result ℕ × Db} j
                  (ok db.next_repo, after')
                  (
                    fail 500 "Git repository initialization failed",
                    without_repo db.next_repo after',
                  )).1
        either true after' k = k
        either false after' k = without-Catalogue net git db.next_repo after' k
