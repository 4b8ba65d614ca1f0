-- ===== src/Pulls/Opening.antt =====
-- POST /pulls of implementations/go/collaboration.go, behind the lock and the guard on writers.
use gitclub.Base.{
  ℕ, suc, Str, Bool, true, false, not, ◌||◌, [], ◌∷◌, Option, none, some, if◌then◌else◌, ◌==◌,
  nat_eq, str_keys, length, Result, ok, fail_if, ◌>>=◌, ◌>>◌,
}
use gitclub.Schema.{Db, Repo, Pull, Identity, open_state}
use gitclub.Git.{Git, Tips, valid_branch, pull_tips}
use gitclub.Pulls.Discussion.{Field, str, discussion_text, given_task}

-- The keys of the body; task is what kaneoTaskURL makes of its key, if that is there.
pub record Proposal : Type 0 where
  pub title : Option Field
  pub body : Option Field
  pub base_branch : Option Field
  pub head_branch : Option Field
  pub task : Option (Result Str)

abbrev pub base_of : Repo → Proposal → Str
base_of r b = if length (str b.base_branch) == 0 then r.default_branch else str b.base_branch

-- What git diff prints says that nothing changed, or it fails.
abbrev pub is_unchanged : Option Str → Bool
is_unchanged none = true
is_unchanged (some out) = length out == 0

-- The row that is inserted; changed is what git diff BASE...HEAD prints.
unfoldable pub opened :
    Git → Repo → Identity → Proposal → (Tips → Option Str) → (id now : ℕ) → Result Pull
opened git r u b changed id now = do
  title ← discussion_text b.title true 240 "title must be a nonempty string of at most 240 bytes"
  body ← discussion_text b.body false 65536 "body must be a string of at most 65536 bytes"
  task ← given_task b.task []
  fail_if
      (not (valid_branch git (base_of r b))
        || (not (valid_branch git (str b.head_branch)) || base_of r b == str b.head_branch))
      400 "Choose distinct valid base and head branches"
  fail_if (pull_tips git r (base_of r b) (str b.head_branch)).failed 400 "Both branches must exist"
  fail_if (is_unchanged (changed (pull_tips git r (base_of r b) (str b.head_branch)))) 409
      "Head branch must contain changes relative to base"
  ok (record {
    id = id;
    repo_id = r.id;
    author_id = u.id;
    title = title;
    body = body;
    base_branch = base_of r b;
    head_branch = str b.head_branch;
    state = open_state;
    created_at = now;
    updated_at = now;
    merged_oid = [];
    kaneo_task_url = task;
  })

unfoldable pub open_pull :
    Git → Db → Repo → Identity → Proposal → (Tips → Option Str) → ℕ → Result (Pull × Db)
open_pull git db r u b changed now = do
  p ← opened git r u b changed db.next_pull now
  ok (p, record db { pull_requests = p ∷ db.pull_requests; next_pull = suc db.next_pull })
