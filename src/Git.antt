-- ===== src/Git.antt =====
-- The Git side of implementations/go/git.go and pullTips of implementations/go/collaboration.go.
-- The git program is a parameter: the record Git holds its answers for one repository.
use gitclub.Base.{
  ℕ, ◌++◌, ◌≡◌, Str, bytes, Bool, true, false, not, ◌&&◌, ◌||◌, [], ◌∷◌, Option, none, some, arith,
  ltb, leb, if◌then◌else◌, ◌==◌, nat_eq, all, length, has_prefix, contains, contains_any,
  trim_space,
}
use gitclub.Schema.{Repo}

-- none stands for a run that fails: a nonzero exit, a timeout, or no free slot.
pub record Git : Type 0 where
  -- git check-ref-format --branch REF
  pub check_ref_format : Str → Bool
  -- git rev-parse --verify --end-of-options ARG
  pub rev_parse : Str → Option Str
  -- git merge-tree --write-tree BASE HEAD
  pub merge_tree : Str → Str → Option Str

abbrev pub is_hex : ℕ → Bool
is_hex c = (leb b'0' c && leb c b'9') || (leb b'a' c && leb c b'f')

-- ^[0-9a-f]{40}([0-9a-f]{24})?$
unfoldable pub oid_pattern : Str → Bool
unfolding all
oid_pattern s = all is_hex s && (length s == 40 || length s == 64)

-- validBranch
unfoldable pub valid_branch : Git → Str → Bool
unfolding has_prefix contains_any
valid_branch git ref =
    if (length ref == 0 || ltb 255 (length ref))
      || (has_prefix ref (bytes "-") || contains_any ref (0 ∷ 10 ∷ 13 ∷ []))
    then false
    else git.check_ref_format ref

-- The part of resolve behind the run of git.
unfoldable pub checked_oid : Option Str → Option Str
checked_oid none = none
checked_oid (some out) = if oid_pattern (trim_space out) then some (trim_space out) else none

-- resolve; none is its error.
unfoldable pub resolve : Git → Repo → Str → Option Str
unfolding checked_oid
resolve git repo asked =
    let ref = if length asked == 0 then repo.default_branch else asked in
    if not (oid_pattern ref || valid_branch git ref) || contains ref (bytes "@{")
    then none
    else checked_oid (git.rev_parse (ref ++ bytes "^{commit}"))

-- What pullTips returns: base, head and whether there was an error.
pub record Tips : Type 0 where
  pub base : Str
  pub head : Str
  pub failed : Bool

unfoldable pub pull_tips : Git → Repo → Str → Str → Tips
pull_tips git repo base_branch head_branch =
    elim (resolve git repo (bytes "refs/heads/" ++ base_branch)) [
      | none ↦ record { base = []; head = []; failed = true }
      | some base ↦ elim (resolve git repo (bytes "refs/heads/" ++ head_branch)) [
        | none ↦ record { base = base; head = []; failed = true }
        | some head ↦ record { base = base; head = head; failed = false }
      ]
    ]

-- A resolved name is an object name of 40 or 64 lowercase hexadecimal digits.
pub resolve-oid_pattern :
    (git : Git) (repo : Repo) (asked oid : Str)
    → resolve git repo asked ≡ some oid
    → oid_pattern oid ≡ true
unfolding resolve
resolve-oid_pattern git repo asked oid h = ground arith

-- Tips without an error are two object names.
pub pull_tips-oid_pattern :
    (git : Git) (repo : Repo) (b h : Str)
    → (pull_tips git repo b h).failed ≡ false
    → (oid_pattern (pull_tips git repo b h).base ≡ true)
      × (oid_pattern (pull_tips git repo b h).head ≡ true)
unfolding pull_tips
pull_tips-oid_pattern git repo b h ok = ground (
  arith,
  resolve-oid_pattern git repo (bytes "refs/heads/" ++ b) (pull_tips git repo b h).base,
  resolve-oid_pattern git repo (bytes "refs/heads/" ++ h) (pull_tips git repo b h).head,
)
