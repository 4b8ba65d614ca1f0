-- ===== src/Database/Migrations/Again.antt =====
-- What every start of the server may rely on, however an earlier one ended.
use gitclub.Base.{
  ◌≡◌, inl, inr, refl, ◌∙◌, Str, false, List, [], ◌∷◌, Option, some, str_keys, Bool-cases,
}
use gitclub.Base.Sorting.{sort}
use gitclub.Database.Migrations.{
  File, Schema, version, Faults, no_faults, migrate, migrate_runs, str_less,
}
use gitclub.Database.Migrations.Resume.{Distinct, resumes, sorted-Distinct}
use gitclub.Database.Migrations.Runs.{has}

-- The tables are what the recorded files made of the first ones, each run once and in that order.
pub data Replayed {S : Type 0} (exec : Str → S → Option S) (first : S) : S → List Str → Type 0 where
  start : Replayed exec first first []
  run :
      (f : File) (body : Str) (before after : S) (vs : List Str)
      → Replayed exec first before vs
      → f.body ≡ some body
      → exec body before ≡ some after
      → has (version f) vs ≡ false
      → Replayed exec first after (version f ∷ vs)

module _ {S : Type 0} (exec : Str → S → Option S) where
  one_run :
      (k : Faults) (files : List File) (st : Schema S)
      → Distinct files
      → migrate exec no_faults files (migrate exec k files st).1 ≡ migrate exec no_faults files st
  unfolding migrate
  one_run k files st d = elim (Bool-cases k.setup_fails) [
    | inl t ↦ rw t refl
    | inr t ↦ rw t (
        resumes exec k.file st.versions (sort (λ (f g : File). str_less f.base g.base) files) st
          (sorted-Distinct files d) (record { known = λ v h. h; listed = λ f m h. h }))
  ]

  -- Where no two files give the same version, a run in which nothing but the files and the tables
  -- fails, behind any number of runs in each of which anything else may, gives the answer and leaves
  -- the schema that such a run would have from the start.
  pub migrate_again :
      (ks : List Faults) (files : List File) (st : Schema S)
      → Distinct files
      → migrate exec no_faults files (migrate_runs exec ks files st)
        ≡ migrate exec no_faults files st
  unfolding migrate_runs
  migrate_again [] files st d = refl
  migrate_again (k ∷ ks) files st d =
      migrate_again ks files (migrate exec k files st).1 d ∙ one_run k files st d
