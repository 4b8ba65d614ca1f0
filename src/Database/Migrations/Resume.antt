-- ===== src/Database/Migrations/Resume.antt =====
-- A run behind one that stopped takes up where it stopped.
use gitclub.Base.{
  ◌≡◌, ◌≢◌, ◌⊎◌, inl, inr, refl, sym, ap, subst, ◌∙◌, Str, true, false, List, [], ◌∷◌, Option,
  str_keys, In, Check, ok, err, Bool-cases,
}
use gitclub.Base.Sorting.{sort, insert, In-sort, In-insert}
use gitclub.Database.Migrations.{
  File, Schema, version, Mishaps, calm, apply, migrate_files, str_less,
}
use gitclub.Database.Migrations.Runs.{
  has, has_cons, has_own, has_other, Ran, apply-cases, apply-calm, skip_file, stop_file, next_file,
  grows,
}

-- No two files give the same version.
abbrev pub Distinct : List File → Type 0
Distinct [] = Unit
Distinct (f ∷ files) = ((g : File) → In g files → version f ≢ version g) × Distinct files

insert-Distinct :
    (f : File) (files : List File)
    → ((g : File) → In g files → version f ≢ version g)
    → Distinct files
    → Distinct (insert (λ (x y : File). str_less x.base y.base) f files)
unfolding insert
insert-Distinct f [] new d = (λ g m. elim m [ ], tt)
insert-Distinct f (g ∷ files) new d = elim (Bool-cases (str_less g.base f.base)) [
  | inl t ↦ rw t (
    λ h m. elim (In-insert (λ (x y : File). str_less x.base y.base) h f files m) [
      | inl e ↦ λ q. new g (inl refl) (ap version e ∙ sym q)
      | inr n ↦ d.0 h n
    ],
    insert-Distinct f files (λ h m. new h (inr m)) d.1,
  )
  | inr t ↦ rw t (new, d)
]

pub sorted-Distinct :
    (files : List File)
    → Distinct files
    → Distinct (sort (λ (f g : File). str_less f.base g.base) files)
unfolding sort
sorted-Distinct [] d = tt
sorted-Distinct (f ∷ files) d =
    insert-Distinct f (sort (λ (x y : File). str_less x.base y.base) files)
      (λ g m. d.0 g (In-sort (λ (x y : File). str_less x.base y.base) g files m))
      (sorted-Distinct files d.1)

module _ {S : Type 0} (exec : Str → S → Option S) where
  -- The loop reads of the versions that were applied only whether the files are among them.
  same_applied :
      (k : Str → Mishaps) (a b : List Str) (files : List File) (st : Schema S)
      → ((f : File) → In f files → has (version f) a ≡ has (version f) b)
      → migrate_files exec k a files st ≡ migrate_files exec k b files st
  unfolding migrate_files
  same_applied k a b [] st same = refl
  same_applied k a b (f ∷ files) st same = elim (Bool-cases (has (version f) a)) [
    | inl t ↦
        skip_file exec k a f files st t
        ∙ same_applied k a b files st (λ g m. same g (inr m))
        ∙ sym (skip_file exec k b f files st (sym (same f (inl refl)) ∙ t))
    | inr t ↦
        outcome (λ s. same_applied k a b files s (λ g m. same g (inr m))) t
          (sym (same f (inl refl)) ∙ t) (apply exec (k (version f)) (version f) f.body st).0 refl
  ]
    where
      outcome :
          ((s : Schema S) → migrate_files exec k a files s ≡ migrate_files exec k b files s)
          → has (version f) a ≡ false
          → has (version f) b ≡ false
          → (c : Check) → (apply exec (k (version f)) (version f) f.body st).0 ≡ c
          → migrate_files exec k a (f ∷ files) st ≡ migrate_files exec k b (f ∷ files) st
      outcome on x y (err e) q =
          stop_file exec k a f files st e x q ∙ sym (stop_file exec k b f files st e y q)
      outcome on x y (ok _) q =
          next_file exec k a f files st x q
          ∙ on (apply exec (k (version f)) (version f) f.body st).1
          ∙ sym (next_file exec k b f files st y q)

  -- Behind a run from st with the faults k, a calm run ends as a calm one from st does.
  abbrev pub Resumes : (Str → Mishaps) → List Str → List File → Schema S → Type 0
  Resumes k applied files st =
      migrate_files exec (λ v. calm) (migrate_files exec k applied files st).1.versions files
        (migrate_files exec k applied files st).1
      ≡ migrate_files exec (λ v. calm) applied files st

  -- The versions that were applied are those of the files that the schema records.
  pub record IsRead (applied : List Str) (files : List File) (st : Schema S) : Type 0 where
    pub known : (v : Str) → has v applied ≡ true → has v st.versions ≡ true
    pub listed :
        (f : File)
        → In f files
        → has (version f) st.versions ≡ true
        → has (version f) applied ≡ true

  IsRead-same :
      (applied : List Str) (files : List File) (st : Schema S) (f : File)
      → IsRead applied files st
      → In f files
      → has (version f) st.versions ≡ has (version f) applied
  IsRead-same applied files st f r m = elim (Bool-cases (has (version f) st.versions)) [
    | inl h ↦ h ∙ sym (r.listed f m h)
    | inr h ↦ elim (Bool-cases (has (version f) applied)) [
      | inl a ↦ cc (r.known (version f) a)
      | inr a ↦ h ∙ sym a
    ]
  ]

  -- Such a run resumes.
  pub resumes :
      (k : Str → Mishaps) (applied : List Str) (files : List File) (st : Schema S)
      → Distinct files
      → IsRead applied files st
      → Resumes k applied files st
  unfolding migrate_files
  resumes k applied [] st d read = refl
  resumes k applied (f ∷ files) st d read = elim (Bool-cases (has (version f) applied)) [
    | inl t ↦
        let r = migrate_files exec k applied files st in
        subst
          (λ (x : Check × Schema S).
            migrate_files exec (λ v. calm) x.1.versions (f ∷ files) x.1
            ≡ migrate_files exec (λ v. calm) applied (f ∷ files) st)
          (sym (skip_file exec k applied f files st t))
          (skip_file exec (λ v. calm) r.1.versions f files r.1
              (grows exec (version f) k applied files st (read.known (version f) t))
            ∙ resumes k applied files st d.1
                (record { known = read.known; listed = λ g m. read.listed g (inr m) })
            ∙ sym (skip_file exec (λ v. calm) applied f files st t))
    | inr t ↦
        outcome (λ s. resumes k applied files s d.1) t
          (apply exec (k (version f)) (version f) f.body st).0 refl
          (apply-cases exec (k (version f)) (version f) f.body st)
  ]
    where
      -- The file was run and recorded: a later run reads it as applied.
      read_on :
          (after : Schema S) → Ran exec (version f) f.body st after → IsRead applied files after
      read_on after r = record {
        known = λ v h.
            subst (λ (s : Schema S). has v s.versions ≡ true) (sym r.same)
              (has_cons v (version f) st.versions (read.known v h));
        listed = λ g m h. read.listed g (inr m) (
            has_other (version g) (version f) st.versions (d.0 g m)
              (subst (λ (s : Schema S). has (version g) s.versions ≡ true) r.same h));
      }

      own :
          (after : Schema S)
          → Ran exec (version f) f.body st after
          → has (version f) after.versions ≡ true
      own after r =
          subst (λ (s : Schema S). has (version f) s.versions ≡ true) (sym r.same)
            (has_own (version f) st.versions)

      -- Where nothing goes wrong, the loop runs it too and goes on.
      onward :
          (after : Schema S)
          → has (version f) applied ≡ false
          → Ran exec (version f) f.body st after
          → migrate_files exec (λ v. calm) applied (f ∷ files) st
            ≡ migrate_files exec (λ v. calm) applied files after
      onward after t r =
          let e = apply-calm exec (version f) f.body st after r in
          next_file exec (λ v. calm) applied f files st t (ap (λ (x : Check × Schema S). x.0) e)
          ∙ ap (λ (x : Check × Schema S). migrate_files exec (λ v. calm) applied files x.1) e

      outcome :
          ((s : Schema S) → IsRead applied files s → Resumes k applied files s)
          → has (version f) applied ≡ false
          → (c : Check) → (apply exec (k (version f)) (version f) f.body st).0 ≡ c
          → ((apply exec (k (version f)) (version f) f.body st).1 ≡ st
              × ((apply exec (k (version f)) (version f) f.body st).0 ≢ ok tt))
            ⊎ Ran exec (version f) f.body st (apply exec (k (version f)) (version f) f.body st).1
          → Resumes k applied (f ∷ files) st
      outcome ih t (err e) q (inl (same, _)) =
          subst
            (λ (x : Check × Schema S).
              migrate_files exec (λ v. calm) x.1.versions (f ∷ files) x.1
              ≡ migrate_files exec (λ v. calm) applied (f ∷ files) st)
            (sym (stop_file exec k applied f files st e t q))
            (subst
              (λ (s : Schema S).
                migrate_files exec (λ v. calm) s.versions (f ∷ files) s
                ≡ migrate_files exec (λ v. calm) applied (f ∷ files) st)
              (sym same)
              (same_applied (λ v. calm) st.versions applied (f ∷ files) st
                (λ g m. IsRead-same applied (f ∷ files) st g read m)))
      outcome ih t (err e) q (inr r) =
          let after = (apply exec (k (version f)) (version f) f.body st).1 in
          subst
            (λ (x : Check × Schema S).
              migrate_files exec (λ v. calm) x.1.versions (f ∷ files) x.1
              ≡ migrate_files exec (λ v. calm) applied (f ∷ files) st)
            (sym (stop_file exec k applied f files st e t q))
            (skip_file exec (λ v. calm) after.versions f files after (own after r)
              ∙ same_applied (λ v. calm) after.versions applied files after
                  (λ g m. IsRead-same applied files after g (read_on after r) m)
              ∙ sym (onward after t r))
      outcome ih t (ok _) q (inl (_, bad)) = absurd (bad q)
      outcome ih t (ok _) q (inr r) =
          let after = (apply exec (k (version f)) (version f) f.body st).1 in
          let end = (migrate_files exec k applied files after).1 in
          subst
            (λ (x : Check × Schema S).
              migrate_files exec (λ v. calm) x.1.versions (f ∷ files) x.1
              ≡ migrate_files exec (λ v. calm) applied (f ∷ files) st)
            (sym (next_file exec k applied f files st t q))
            (skip_file exec (λ v. calm) end.versions f files end
                (grows exec (version f) k applied files after (own after r))
              ∙ ih after (read_on after r)
              ∙ sym (onward after t r))
