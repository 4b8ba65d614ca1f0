-- ===== src/Repositories/Settings.antt =====
-- What a change of the settings keeps.
use gitclub.Base.{
  ℕ, ◌≡◌, ◌≤◌, ◌⊎◌, inl, inr, refl, sym, subst, Str, bytes, Bool, true, false, not, List, [], ◌∷◌,
  Option, some, arith, ltb, if◌then◌else◌, ◌==◌, nat_eq, str_keys, str_eq, length, any, In, update,
  In-update, select_one-In, nat_beq_iff, Result, ok, err, fail_if, fail_if-eq-ok, >>=-eq-ok, ◌>>=◌,
  ◌>>◌, Bool-cases,
}
use gitclub.Schema.{Db, Repo, Identity}
use gitclub.Access.{Server, rank, role, repo}
use gitclub.Access.Guard.{row_of, repo-eq-ok}
use gitclub.Git.{Git, valid_branch, resolve}
use gitclub.Kaneo.{UrlPackage, kaneo_project_url}
use gitclub.Kaneo.Links.{IsLink, kaneo_project_url-IsLink}
use gitclub.Repositories.{
  is_visibility, Value, text_value, bool_value, other_value, text_of, checked_text, checked_bool,
  given_url, set_field, set_fields, or_empty, set_head, with_settings, patch_repository,
}

-- The settings are ones that the server accepts: a visibility, a branch, a description of at most 4096
-- bytes, and no address of a board or one over HTTPS that the parser of addresses reads.
abbrev pub HasSettings : UrlPackage → Git → Repo → Type 0
HasSettings net git r =
    (is_visibility r.visibility ≡ true)
    × (valid_branch git r.default_branch ≡ true)
    × (length r.description ≤ 4096)
    × ((r.kaneo_project_url ≡ []) ⊎ IsLink net (bytes "/board") r.kaneo_project_url)

pub unnot : (b : Bool) → not b ≡ false → b ≡ true
unnot true e = refl
unnot false e = cc

module _ (net : UrlPackage) (git : Git) where
  -- A turn keeps the settings, the identifier and the names.
  set_field-HasSettings :
      (key : Str) (v : Value) (r after : Repo)
      → HasSettings net git r
      → set_field net git key v r ≡ ok after
      → HasSettings net git after
  unfolding set_field
  set_field-HasSettings key v r after have h =
      elim (Bool-cases (str_eq key (bytes "description"))) [
        | inl t ↦ described v (rw t at h)
        | inr t ↦ elim (Bool-cases (str_eq key (bytes "visibility"))) [
          | inl t2 ↦ shown (rw (t, t2) at h)
          | inr t2 ↦ elim (Bool-cases (str_eq key (bytes "require_review"))) [
            | inl t3 ↦ reviewed (checked_bool v) (rw (t, t2, t3) at h)
            | inr t3 ↦ elim (Bool-cases (str_eq key (bytes "kaneo_project_url"))) [
              | inl t4 ↦ linked (kaneo_project_url net (given_url v)) refl (rw (t, t2, t3, t4) at h)
              | inr t4 ↦ elim (Bool-cases (str_eq key (bytes "default_branch"))) [
                | inl t5 ↦ branched (rw (t, t2, t3, t4, t5) at h)
                | inr t5 ↦ cc (rw (t, t2, t3, t4, t5) at h)
              ]
            ]
          ]
        ]
      ]
    where
      moved :
          (x : Repo)
          → HasSettings net git x
          → ◌≡◌ {A = Result Repo} (ok x) (ok after)
          → HasSettings net git after
      moved x s e = let same : x ≡ after = cc in subst (HasSettings net git) same s

      fits : (s : Str) → ltb 4096 (length s) ≡ false → length s ≤ 4096
      fits s e = ground (arith, e)

      described :
          (w : Value)
          → (checked_text w >>= (λ s. ok (record r { description = s }))) ≡ ok after
          → HasSettings net git after
      described (text_value s) q =
          let (s', checked, q1) =
            >>=-eq-ok (checked_text (text_value s)) (λ x. ok (record r { description = x })) q in
          let (_, few, q2) = >>=-eq-ok (fail_if (ltb 4096 (length s)) 400 _) _ checked in
          let same : s ≡ s' = cc in
          moved (record r { description = s' })
            (
              have.0,
              have.1,
              subst (λ x. length x ≤ 4096) same (fits s (fail_if-eq-ok _ 400 _ few)),
              have.3,
            )
            q1
      described (bool_value b) q = cc
      described other_value q = cc

      shown :
          (fail_if (not (is_visibility (text_of v))) 400 "Visibility must be private or public"
              >> ok (record r { visibility = text_of v }))
            ≡ ok after
          → HasSettings net git after
      shown q =
          let (_, good, q1) = >>=-eq-ok (fail_if (not (is_visibility (text_of v))) 400 _) _ q in
          moved (record r { visibility = text_of v })
            (unnot (is_visibility (text_of v)) (fail_if-eq-ok _ 400 _ good), have.1, have.2, have.3)
            q1

      reviewed :
          (c : Result Bool)
          → (c >>= (λ b. ok (record r { require_review = b }))) ≡ ok after
          → HasSettings net git after
      reviewed (err e) q = cc
      reviewed (ok b) q = moved (record r { require_review = b }) have q

      link :
          (s : Str)
          → kaneo_project_url net (given_url v) ≡ ok s
          → (s ≡ []) ⊎ IsLink net (bytes "/board") s
      link [] e = inl refl
      link (b ∷ s) e = inr (kaneo_project_url-IsLink net (given_url v) (b ∷ s) e (λ q. cc))

      linked :
          (c : Result Str)
          → kaneo_project_url net (given_url v) ≡ c
          → (c >>= (λ s. ok (record r { kaneo_project_url = s }))) ≡ ok after
          → HasSettings net git after
      linked (err e) read q = cc
      linked (ok s) read q =
          moved (record r { kaneo_project_url = s }) (have.0, have.1, have.2, link s read) q

      branched :
          (fail_if (not (valid_branch git (text_of v))) 400 "Invalid default branch"
              >> ok (record r { default_branch = text_of v }))
            ≡ ok after
          → HasSettings net git after
      branched q =
          let (_, good, q1) = >>=-eq-ok (fail_if (not (valid_branch git (text_of v))) 400 _) _ q in
          moved (record r { default_branch = text_of v })
            (
              have.0,
              unnot (valid_branch git (text_of v)) (fail_if-eq-ok _ 400 _ good),
              have.2,
              have.3,
            )
            q1

  set_fields-HasSettings :
      (body : List (Str × Value)) (r after : Repo)
      → HasSettings net git r
      → set_fields net git body r ≡ ok after
      → HasSettings net git after
  unfolding set_fields
  set_fields-HasSettings [] r after have h =
      let same : r ≡ after = cc in subst (HasSettings net git) same have
  set_fields-HasSettings ((key, v) ∷ rest) r after have h =
      let (mid, one, more) = >>=-eq-ok (set_field net git key v r) (set_fields net git rest) h in
      set_fields-HasSettings rest mid after (set_field-HasSettings key v r mid have one) more

  -- Where every repository has a visibility and a branch that the server knows, a description of at
  -- most 4096 bytes, and no address of a board or one over HTTPS of the shape that is asked for, a
  -- change of settings that succeeds was asked for by an admin of the repository, every repository has
  -- such settings behind it, and each that was not asked for is as it was.
  pub patch_repository-HasSettings :
      (s : Server) (db : Db) (id : ℕ) (who : Option Identity) (body : List (Str × Value))
      (moved : Bool) (now : ℕ) (after : Db) (x : Repo)
      → ((r : Repo) → In r db.repositories → HasSettings net git r)
      → patch_repository net git s db id who body moved now ≡ ok after
      → In x after.repositories
      → HasSettings net git x
        × ((x.id ≡ id) ⊎ In x db.repositories)
        × ((r : Repo) × (row_of db id ≡ some r) × (rank (bytes "admin") ≤ rank (role s db r who)))
  unfolding patch_repository
  patch_repository-HasSettings s db id who body moved now after x have h x_in =
      let (r, asked, h1) = >>=-eq-ok (repo s db id who (bytes "admin")) _ h in
      let (edited, set, h2) = >>=-eq-ok (set_fields net git body r) _ h1 in
      let (final, headed, h3) =
        >>=-eq-ok
          (if any (λ (f : Str × Value). f.0 == bytes "default_branch") body
            then set_head git moved now edited
            else ok edited)
          _ h2 in
      let rows : update (λ (y : Repo). y.id == id) (with_settings final) db.repositories
          ≡ after.repositories =
        cc in
      let (row, _, may) = (repo-eq-ok s db id who (bytes "admin") r).0 asked in
      let old : HasSettings net git r =
        have r (select_one-In (λ (y : Repo). y.id == id) db.repositories r row).0 in
      let new =
        at_head (any (λ (f : Str × Value). f.0 == bytes "default_branch") body) edited final
          (set_fields-HasSettings body r edited old set) headed in
      let (y, y_in, e) =
        In-update (λ (y : Repo). y.id == id) (with_settings final) x db.repositories
          (subst (In x) (sym rows) x_in) in
      let (sound, whose) =
        written final y new (have y y_in) (y.id == id) (nat_beq_iff y.id id).0 y_in in
      (
        subst (HasSettings net git) (sym e) sound,
        subst (λ (z : Repo). (z.id ≡ id) ⊎ In z db.repositories) (sym e) whose,
        (r, row, may),
      )
    where
      headed_cases :
          (m : Bool) (edited final : Repo)
          → HasSettings net git edited
          → set_head git m now edited ≡ ok final
          → HasSettings net git final
      headed_cases false edited final k q = cc
      headed_cases true edited final k q =
          let same : record edited {
            default_oid = or_empty (resolve git edited edited.default_branch);
            updated_at = now;
          }
              ≡ final =
            cc in
          subst (HasSettings net git) same k

      at_head :
          (b : Bool) (edited final : Repo)
          → HasSettings net git edited
          → (if b then set_head git moved now edited else ok edited) ≡ ok final
          → HasSettings net git final
      at_head true edited final k q = headed_cases moved edited final k q
      at_head false edited final k q =
          let same : edited ≡ final = cc in subst (HasSettings net git) same k

      written :
          (final y : Repo)
          → HasSettings net git final
          → HasSettings net git y
          → (b : Bool) → (b ≡ true → y.id ≡ id)
          → In y db.repositories
          → HasSettings net git (if b then with_settings final y else y)
            × (((if b then with_settings final y else y).id ≡ id)
                ⊎ In (if b then with_settings final y else y) db.repositories)
      written final y new old true same y_in = (new, inl (same refl))
      written final y new old false same y_in = (old, inr y_in)
