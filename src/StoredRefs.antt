-- ===== src/StoredRefs.antt =====
-- Reading the default branch without running git: safeStoredRef, boundedRefFile and defaultOID of
-- implementations/go/git.go. The files of the repository are a parameter; an error is none.
pub mod Chain
use gitclub.Base.{
  ℕ, zero, suc, ◌*◌, ◌^◌, ◌++◌, Str, bytes, Bool, true, false, not, ◌&&◌, ◌||◌, List, [], ◌∷◌,
  Option, none, some, ltb, leb, nat_beq, if◌then◌else◌, ◌==◌, nat_eq, str_keys, any, all, length,
  has_prefix, has_suffix, trim_prefix, contains, contains_any, split, trim_space,
}
use gitclub.Schema.{Repo}
use gitclub.Git.{oid_pattern}

-- What opening a name finds, links followed.
pub data Entry : Type 0 where
  missing : Entry
  unreadable : Entry
  not_regular : Entry
  regular : Str → Entry

-- Names are relative to the repository's directory.
pub record Files : Type 0 where
  pub is_symlink : Str → Bool
  pub lstat_fails : Str → Bool
  pub entry : Str → Entry

abbrev pub bad_part : Str → Bool
bad_part part =
    (length part == 0 || has_prefix part (bytes "."))
    || (has_suffix part (bytes ".") || has_suffix part (bytes ".lock"))

unfoldable pub safe_stored_ref : Str → Bool
safe_stored_ref ref =
    if ((not (has_prefix ref (bytes "refs/")) || ltb 1024 (length ref))
        || (contains ref (bytes "..") || contains ref (bytes "@{")))
      || contains_any ref (bytes "\\~^:?*[")
    then false
    else if any (λ c. leb c 32 || c == 127) ref
    then false
    else not (any bad_part (split ref b'/'))

-- The result of boundedRefFile: the error of a missing file is told apart from the others.
pub data Read : Type 0 where
  not_exist : Read
  failed : Read
  contents : Str → Read

unfoldable pub bounded_ref_file : Entry → ℕ → Read
bounded_ref_file missing maximum = not_exist
bounded_ref_file unreadable maximum = failed
bounded_ref_file not_regular maximum = failed
bounded_ref_file (regular text) maximum =
    if ltb maximum (length text) then failed else contents text

-- strings.Trim(value, "0") == ""
abbrev pub is_null : Str → Bool
is_null s = all (λ c. c == b'0') s

-- strings.Cut(line, " ")
unfoldable pub cut_space : Str → Option (Str × Str)
cut_space [] = none
cut_space (c ∷ s) = elim (nat_beq c 32) [
  | true ↦ some ([], s)
  | false ↦ elim (cut_space s) [ none ↦ none | some (a, b) ↦ some (c ∷ a, b) ]
]

abbrev pub is_skipped : Str → Bool
is_skipped line = (length line == 0 || has_prefix line (bytes "#")) || has_prefix line (bytes "^")

pub data Found : Type 0 where
  absent : Found
  malformed : Found
  found : Str → Found

-- One line that is not skipped; rest is the result for the lines behind it.
unfoldable pub packed_entry : Str → Option (Str × Str) → Found → Found
packed_entry ref none rest = malformed
packed_entry ref (some (oid, name)) rest =
    if not (oid_pattern oid && safe_stored_ref name)
    then malformed
    else if name == ref
    then (if is_null oid then malformed else found oid)
    else rest

unfoldable pub packed_lines : Str → List Str → Found
packed_lines ref [] = absent
packed_lines ref (line ∷ lines) =
    let rest = packed_lines ref lines in
    if is_skipped line then rest else packed_entry ref (cut_space line) rest

abbrev pub found_oid : Found → Option Str
found_oid absent = none
found_oid malformed = none
found_oid (found oid) = some oid

unfoldable pub packed_oid : Files → Str → Option Str
packed_oid files ref = elim (bounded_ref_file (files.entry (bytes "packed-refs")) (8 * 2 ^ 20)) [
  | not_exist ↦ none
  | failed ↦ none
  | contents text ↦ found_oid (packed_lines ref (split text 10))
]

-- A loose ref's value: a symbolic ref, an object name, or neither.
pub data Value : Type 0 where
  symbolic : Str → Value
  object : Str → Value
  invalid : Value

unfoldable pub loose_value : Str → Value
loose_value raw =
    let value = trim_space raw in
    if has_prefix value (bytes "ref: ")
    then symbolic (trim_prefix value (bytes "ref: "))
    else if oid_pattern value && not (is_null value)
    then object value
    else invalid

abbrev pub blocked : Files → Str → List Str → Bool
blocked files ref seen =
    (not (safe_stored_ref ref) || any (λ r. r == ref) seen)
    || (files.is_symlink ref || files.lstat_fails ref)

-- What a loose ref's value leads to; next is the following round.
unfoldable pub read_value : (Str → Option Str) → Value → Option Str
read_value next (symbolic target) = next target
read_value next (object oid) = some oid
read_value next invalid = none

-- One round of the loop.
unfoldable pub round : Files → Str → (Str → Option Str) → Bool → Read → Option Str
round files ref next true read = none
round files ref next false not_exist = packed_oid files ref
round files ref next false failed = none
round files ref next false (contents raw) = read_value next (loose_value raw)

-- The loop of defaultOID, with the number of rounds left.
unfoldable pub follow : Files → ℕ → Str → List Str → Option Str
follow files zero ref seen = none
follow files (suc n) ref seen =
    round files ref (λ target. follow files n target (ref ∷ seen)) (blocked files ref seen)
      (bounded_ref_file (files.entry ref) 1024)

unfoldable pub default_oid : Files → Repo → Option Str
default_oid files repo = follow files 8 (bytes "refs/heads/" ++ repo.default_branch) []
