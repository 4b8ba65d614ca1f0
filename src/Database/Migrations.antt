-- ===== src/Database/Migrations.antt =====
-- migrate of implementations/go/db.go. What PostgreSQL makes of a file is a parameter, none for an error
-- that lies in the file; what goes wrong in one run alone is an argument of that run. A transaction that is
-- not committed leaves nothing, and the errors are told apart by their place alone.
pub mod Runs
pub mod Resume
pub mod Again
use gitclub.Base.{
  ℕ, String, ◌≡◌, Str, bytes, Bool, true, false, List, [], ◌∷◌, Option, none, some, if◌then◌else◌,
  ◌==◌, ◌||◌, str_keys, ltb, nat_beq, any, trim_suffix, Check, ok, err, fail,
}
use gitclub.Base.Sorting.{sort}

-- A file that the pattern *.sql finds: its base name, and what reading it gives.
pub record File : Type 0 where
  pub base : Str
  pub body : Option Str

-- The tables, and the versions of schema_migrations.
pub record Schema (S : Type 0) : Type 0 where
  pub tables : S
  pub versions : List Str

-- The byte order of strings, as sort.Strings has it.
unfoldable pub str_less : Str → Str → Bool
str_less s [] = false
str_less [] (b ∷ t) = true
str_less (a ∷ s) (b ∷ t) = let rest = str_less s t in if nat_beq a b then rest else ltb a b

-- strings.TrimSuffix(filepath.Base(file), ".sql")
abbrev pub version : File → Str
version f = trim_suffix f.base (bytes ".sql")

-- What becomes of a COMMIT: it is done; it is done and its answer is lost; or it fails.
pub data Commit : Type 0 where
  committed reply_lost undone : Commit

-- What goes wrong with one file in one run, apart from the file and the tables.
pub record Mishaps : Type 0 where
  pub read_fails : Bool
  pub begin_fails : Bool
  pub exec_fails : Bool
  pub record_fails : Bool
  pub commit : Commit

abbrev pub calm : Mishaps
calm = record {
  read_fails = false;
  begin_fails = false;
  exec_fails = false;
  record_fails = false;
  commit = committed;
}

-- What goes wrong in one run: before the loop, that is with CREATE TABLE, the SELECT or a row of it, or
-- the pattern; and with the file of a version.
pub record Faults : Type 0 where
  pub setup_fails : Bool
  pub file : Str → Mishaps

abbrev pub no_faults : Faults
no_faults = record { setup_fails = false; file = λ v. calm }

abbrev pub ended : {S : Type 0} → Commit → Schema S → Schema S → Check × Schema S
ended committed st after = (ok tt, after)
ended reply_lost st after = (fail 500 "migration", after)
ended undone st after = (fail 500 "migration", st)

module _ {S : Type 0} (exec : Str → S → Option S) where
  -- One transaction: the file, and the row that records it, whose version is a key. What fails before
  -- the COMMIT is rolled back.
  unfoldable pub apply : Mishaps → Str → Option Str → Schema S → Check × Schema S
  apply k v file st = elim (if k.read_fails then none else file) [
    | none ↦ (fail 500 "read", st)
    | some body ↦
        if k.begin_fails
        then (fail 500 "begin", st)
        else elim (if k.exec_fails then none else exec body st.tables) [
          | none ↦ (fail 500 "migration", st)
          | some after ↦
              if k.record_fails || any (λ x. x == v) st.versions
              then (fail 500 "migration", st)
              else ended k.commit st (record { tables = after; versions = v ∷ st.versions })
        ]
  ]

  -- The loop, with the versions that were applied when it began.
  unfoldable pub migrate_files :
      (Str → Mishaps) → List Str → List File → Schema S → Check × Schema S
  migrate_files k applied [] st = (ok tt, st)
  migrate_files k applied (f ∷ files) st =
      let skipped = migrate_files k applied files st in
      let next = migrate_files k applied files (apply (k (version f)) (version f) f.body st).1 in
      if any (λ x. x == version f) applied
      then skipped
      else elim (apply (k (version f)) (version f) f.body st).0 [
        | err e ↦ apply (k (version f)) (version f) f.body st
        | ok _ ↦ next
      ]

  -- migrate
  unfoldable pub migrate : Faults → List File → Schema S → Check × Schema S
  migrate k files st =
      if k.setup_fails
      then (fail 500 "setup", st)
      else migrate_files k.file st.versions (sort (λ (f g : File). str_less f.base g.base) files) st

  -- Runs that follow one another, each from what the one before it left.
  unfoldable pub migrate_runs : List Faults → List File → Schema S → Schema S
  migrate_runs [] files st = st
  migrate_runs (k ∷ ks) files st = migrate_runs ks files (migrate k files st).1
