-- ===== src/Merge/Route.antt =====
-- The merge route of collaborationRoutes, from the pull request's row to the response. What git, the
-- disk and the clock do is an argument.
use gitclub.Base.{
  ℕ, String, ◌++◌, Str, Bool, true, false, not, ◌&&◌, List, [], ◌∷◌, Option, none, some,
  if◌then◌else◌, ◌==◌, nat_eq, str_keys, any, select_one, trim_space, Result, ok, err, fail, text,
}
use gitclub.Schema.{Repo, Pull}
use gitclub.Access.{Server}
use gitclub.Git.{Git, Tips, pull_tips}
use gitclub.Pulls.Blockers.{pull_blockers}
use gitclub.Merge.World.{Refs, Marker, World, Env, Step, reconcile_merges}

-- How the run of git update-ref --stdin ends. A killed run may have committed.
pub data Fate : Type 0 where
  committed committed_unreported not_committed : Fate

-- What becomes of the marker's file: it is stored, or creating, writing or syncing it fails, behind which
-- it is not there, or os.Remove fails too and leaves a part of it or all of it.
pub data Disk : Type 0 where
  stores clears leaves_torn leaves_whole : Disk

pub record MergeEnv : Type 0 where
  pub git : Git
  -- git commit-tree TREE -p BASE -p HEAD
  pub commit_tree : Str → Str → Str → Option Str
  pub disk : Disk
  pub fate : Fate
  pub recovery : Env
  pub now : ℕ

-- durableMarker: the file is created exclusively, and on a later error removed as far as that succeeds.
unfoldable pub durable_marker : Disk → Marker → World → Bool × World
durable_marker disk m w =
    if any (λ f. f.file_pull == m.pull_id) w.markers then (false, w) else elim disk [
      | stores ↦ (
        true,
        record w { markers = record { file_pull = m.pull_id; content = some m } ∷ w.markers },
      )
      | clears ↦ (false, w)
      | leaves_torn ↦ (
        false,
        record w { markers = record { file_pull = m.pull_id; content = none } ∷ w.markers },
      )
      | leaves_whole ↦ (
        false,
        record w { markers = record { file_pull = m.pull_id; content = some m } ∷ w.markers },
      )
    ]

abbrev pub names : Option Str → Str → Bool
names none oid = false
names (some held) oid = held == oid

abbrev pub is_free : Option Str → Bool
is_free none = true
is_free (some held) = false

-- The transaction verifies the head, moves the base from its old object, and creates the ledger's ref.
unfoldable pub tx_applies : Pull → Str → Marker → Refs → Bool
tx_applies d head m refs =
    names (refs.heads d.head_branch) head
    && (names (refs.heads m.base_branch) m.base_oid && is_free (refs.ledger m.pull_id))

unfoldable pub tx_apply : Marker → Refs → Refs
tx_apply m refs = record {
  heads = λ b. if b == m.base_branch then some m.commit_oid else refs.heads b;
  ledger = λ n. if n == m.pull_id then some m.commit_oid else refs.ledger n;
}

-- The refs after the run, and whether it reported success.
unfoldable pub update_ref : Fate → Pull → Str → Marker → World → World × Bool
update_ref committed d head m w =
    if tx_applies d head m w.refs then (record w { refs = tx_apply m w.refs }, true) else (w, false)
update_ref committed_unreported d head m w =
    if tx_applies d head m w.refs
    then (record w { refs = tx_apply m w.refs }, false)
    else (w, false)
update_ref not_committed d head m w = (w, false)

-- pullRequest
unfoldable pub pull_request : Repo → ℕ → World → Result Pull
pull_request repo id w =
    elim (select_one (λ (p : Pull). p.repo_id == repo.id && p.id == id) w.db.pull_requests) [
      | none ↦ fail 404 "Pull request not found"
      | some p ↦ ok p
    ]

-- The response: the pull request and the commit.
pub record Merged : Type 0 where
  pub pull : Pull
  pub commit_oid : Str

abbrev pub Reply : Type 0
Reply = Result Merged × World

unfoldable pub reply_merged : Repo → Marker → World → Reply
reply_merged repo m w = elim (pull_request repo m.pull_id w) [
  | ok p ↦ (ok (record { pull = p; commit_oid = m.commit_oid }), w)
  | err e ↦ (err e, w)
]

unfoldable pub reply_ambiguous : Repo → Marker → World → Reply
reply_ambiguous repo m w = elim (pull_request repo m.pull_id w) [
  | ok p ↦
      if p.merged_oid == m.commit_oid
      then (ok (record { pull = p; commit_oid = m.commit_oid }), w)
      else (fail 409 "Base or head changed during merge; reload and try again", w)
  | err e ↦ (err e, w)
]

abbrev pub after : Step → (World → Reply) → Reply
after (ok _, w) next = next w
after (err e, w) next = (err e, w)

-- What follows the run of update-ref.
unfoldable pub conclude : MergeEnv → Repo → Marker → World × Bool → Reply
conclude me repo m (w, true) =
    after (reconcile_merges me.recovery me.git repo w) (reply_merged repo m)
conclude me repo m (w, false) =
    after (reconcile_merges me.recovery me.git repo w) (reply_ambiguous repo m)

-- Behind the marker.
unfoldable pub with_marker : MergeEnv → Repo → Pull → Str → Marker → Bool × World → Reply
with_marker me repo d head m (false, w) =
    (fail 503 "Cannot persist merge recovery state; branches were unchanged", w)
with_marker me repo d head m (true, w) = conclude me repo m (update_ref me.fate d head m w)

unfoldable pub commit_merge : MergeEnv → Repo → Pull → Str → Marker → World → Reply
commit_merge me repo d head m w = with_marker me repo d head m (durable_marker me.disk m w)

unfoldable pub join_messages : List String → Str
join_messages [] = []
join_messages (b ∷ []) = text b
join_messages (b ∷ c ∷ bs) = text b ++ (text "; " ++ join_messages (c ∷ bs))

-- Behind the check of the blockers; tree is the tree of the simulated merge.
unfoldable pub merge_unblocked : MergeEnv → Repo → Pull → Tips → List String × Str → World → Reply
merge_unblocked me repo d tips (b ∷ bs, tree) w =
    (err (record { status = 409; message = join_messages (b ∷ bs) }), w)
merge_unblocked me repo d tips ([], tree) w = elim (me.commit_tree tree tips.base tips.head) [
  | none ↦ (fail 500 "Could not create merge commit; branches were unchanged", w)
  | some commit ↦
      commit_merge me repo d tips.head
        (record {
          pull_id = d.id;
          base_branch = d.base_branch;
          base_oid = tips.base;
          commit_oid = trim_space commit;
          updated_at = me.now;
        })
        w
]

unfoldable pub merge_route : MergeEnv → Server → Repo → Pull → Str → World → Reply
merge_route me s repo d expected w =
    let tips = pull_tips me.git repo d.base_branch d.head_branch in
    if tips.failed
    then (fail 409 "Restore the pull request branches before merging", w)
    else if not (expected == tips.head)
    then (fail 409 "Head changed; reload and review the current diff", w)
    else merge_unblocked me repo d tips (pull_blockers s w.db me.git repo d tips.base tips.head) w
