-- ===== src/Pulls/Blockers.antt =====
-- pullBlockers of implementations/go/collaboration.go: what stands in the way of a merge, and the
-- tree that the merge would have.
use gitclub.Base.{
  ℕ, ◌++◌, String, Str, bytes, Bool, false, not, ◌&&◌, ◌||◌, List, [], ◌∷◌, none, some, ltb,
  if◌then◌else◌, ◌==◌, nat_eq, str_keys, any, select, length, trim_space,
}
use gitclub.Base.Sorting.{sort}
use gitclub.Schema.{Db, Repo, Pull, Review, PullState, open_state, closed_state, merged_state}
use gitclub.Access.{Server, rank, role}
use gitclub.Git.{Git}

-- ORDER BY id DESC
abbrev pub newer : Review → Review → Bool
newer a b = ltb b.id a.id

-- pull_id=? AND commit_oid=? AND decision<>'comment'
abbrev pub decides : ℕ → Str → Review → Bool
decides pull_id head r =
    (r.pull_id == pull_id && r.commit_oid == head) && not (r.decision == bytes "comment")

unfoldable pub review_rows : Db → ℕ → Str → List Review
review_rows db pull_id head = sort newer (select (decides pull_id head) db.reviews)

-- rank(s.role(repo, M{"id": uid})) >= rank("write")
unfoldable pub is_writer : Server → Db → Repo → ℕ → Bool
is_writer s db repo uid =
    not (
      ltb (rank (role s db repo (some (record { id = uid; username = [] }))))
        (rank (bytes "write")))

pub record Tally : Type 0 where
  pub approved : Bool
  pub blockers : List String

abbrev pub seen_author : List ℕ → Review → Bool
seen_author seen r = any (λ uid. uid == r.author_id) seen

abbrev pub requested : String
requested = "A current reviewer has requested changes"

-- The two tests on the decision of a writer's latest review.
unfoldable pub judge : ℕ → Review → Tally → Tally
judge author r t = record {
  approved = (r.decision == bytes "approve" && not (r.author_id == author)) || t.approved;
  blockers =
      if r.decision == bytes "request_changes" then t.blockers ++ requested ∷ [] else t.blockers;
}

-- The loop over the reviews; writer says who has write access now.
unfoldable pub scan : (ℕ → Bool) → ℕ → List Review → List ℕ → Tally → Tally
scan writer author [] seen t = t
scan writer author (r ∷ rs) seen t =
    scan writer author rs (if seen_author seen r then seen else r.author_id ∷ seen)
      (if seen_author seen r then t else if writer r.author_id then judge author r t else t)

-- strings.SplitN(s, "\n", 2)[0]
unfoldable pub first_line : Str → Str
first_line [] = []
first_line (c ∷ s) = if c == 10 then [] else c ∷ first_line s

-- The checks behind the missing-branch return.
unfoldable pub review_blockers : Server → Db → Repo → Pull → Str → Str → List String → List String
review_blockers s db repo pull base head before =
    let same = if base == head then before ++ "Head has no changes to merge" ∷ [] else before in
    let t =
      scan (is_writer s db repo) pull.author_id (review_rows db pull.id head) []
        (record { approved = false; blockers = same }) in
    if repo.require_review && not t.approved
    then t.blockers ++ "Approval of the current head by another writer is required" ∷ []
    else t.blockers

abbrev pub state_blockers : PullState → List String
state_blockers open_state = []
state_blockers closed_state = "Pull request is not open" ∷ []
state_blockers merged_state = "Pull request is not open" ∷ []

unfoldable pub pull_blockers : Server → Db → Git → Repo → Pull → Str → Str → List String × Str
pull_blockers s db git repo pull base head =
    if length base == 0 || length head == 0
    then (state_blockers pull.state ++ "Restore the missing base or head branch" ∷ [], [])
    else elim (git.merge_tree base head) [
      | none ↦ (
        review_blockers s db repo pull base head (state_blockers pull.state)
            ++ "Resolve merge conflicts or incompatible branch history" ∷ [],
        [],
      )
      | some tree ↦ (
        review_blockers s db repo pull base head (state_blockers pull.state),
        trim_space (first_line tree),
      )
    ]
