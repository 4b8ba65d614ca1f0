-- ===== src/Kaneo/Readers.antt =====
-- kaneoMerges: the linked merges of a repository, a page at a time.
use gitclub.Base.{
  ℕ, ◌+◌, ◌-◌, ◌*◌, ◌^◌, Str, bytes, Bool, true, false, not, ◌&&◌, List, [], ◌∷◌, Option, none,
  some, ltb, leb, if◌then◌else◌, ◌==◌, nat_eq, str_keys, length, take, select, Result, ok, err,
  fail, fail_if, ◌>>=◌, ◌>>◌,
}
use gitclub.Base.Sorting.{sort}
use gitclub.Schema.{Db, Pull, PullState, Identity, merged_state}
use gitclub.Access.{Server, repo}
use gitclub.Git.{Git}
use gitclub.Namespaces.{require_user}
use gitclub.Merge.World.{World, Env, reconcile_merges}

abbrev pub is_merged_state : PullState → Bool
is_merged_state merged_state = true
is_merged_state _ = false

-- repo_id=? AND state='merged' AND kaneo_task_url<>'' AND id>?
abbrev pub is_linked : ℕ → ℕ → Pull → Bool
is_linked rid after p =
    p.repo_id == rid
    && (is_merged_state p.state && (not (length p.kaneo_task_url == 0) && ltb after p.id))

-- ORDER BY id ASC
abbrev pub comes_before : Pull → Pull → Bool
comes_before p q = ltb p.id q.id

-- The page behind an identifier: LIMIT 100.
unfoldable pub merge_page : Db → ℕ → ℕ → List Pull
merge_page db rid after =
    take 100 (sort comes_before (select (is_linked rid after) db.pull_requests))

-- strconv.ParseUint(s, 10, 63)
unfoldable pub decimal : Str → ℕ → Option ℕ
decimal [] n = some n
decimal (c ∷ s) n =
    let rest = decimal s (10 * n + (c - 48)) in if leb 48 c && leb c 57 then rest else none

abbrev pub within : Option ℕ → Option ℕ
within none = none
within (some n) = if ltb n (2 ^ 63) then some n else none

abbrev pub parse_uint : Str → Option ℕ
parse_uint [] = none
parse_uint (c ∷ s) = within (decimal (c ∷ s) 0)

abbrev pub or_bad : Option ℕ → Result ℕ
or_bad none = fail 400 "after_id must be a nonnegative integer"
or_bad (some n) = ok n

-- The values of after_id; none where the key is not there.
unfoldable pub after_of : Option (List Str) → Result ℕ
after_of none = ok 0
after_of (some (v ∷ [])) = or_bad (parse_uint v)
after_of (some _) = fail 400 "after_id must be one nonnegative integer"

-- The query after parsing, none for one that cannot be read.
unfoldable pub asked : Option Identity → Str → Option (Option (List Str)) → Result ℕ
asked who method none = require_user who >>= λ u.
    fail_if (not (method == bytes "GET")) 405 "Use GET" >> fail 400 "Invalid query string"
asked who method (some after) =
    require_user who >>= λ u. fail_if (not (method == bytes "GET")) 405 "Use GET" >> after_of after

abbrev pub page_of : ℕ → ℕ → Result (Unit {0}) × World → Result (List Pull) × World
page_of rid after (err e, w) = (err e, w)
page_of rid after (ok _, w) = (ok (merge_page w.db rid after), w)

-- kaneoMerges, under the repository's lock
unfoldable pub kaneo_merges :
    Env
    → Git
    → Server
    → ℕ
    → Option Identity
    → Str
    → Option (Option (List Str))
    → World
    → Result (List Pull) × World
kaneo_merges env git s rid who method query w = elim (asked who method query) [
  | err e ↦ (err e, w)
  | ok after ↦ elim (repo s w.db rid who (bytes "read")) [
    | err e ↦ (err e, w)
    | ok r ↦ page_of rid after (reconcile_merges env git r w)
  ]
]
