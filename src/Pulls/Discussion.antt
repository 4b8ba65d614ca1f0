-- ===== src/Pulls/Discussion.antt =====
-- discussionText of implementations/go/collaboration.go, and the routes that edit and review a pull
-- request, behind the lock, the guard on writers and the pull request's row.
use gitclub.Base.{
  ℕ, String, Str, bytes, Bool, true, false, not, ◌&&◌, ◌||◌, List, ◌∷◌, [], Option, none, some, ltb,
  if◌then◌else◌, ◌==◌, nat_eq, str_keys, any, length, update, trim_space, Result, ok, fail, fail_if,
  ◌>>=◌, ◌>>◌,
}
use gitclub.Schema.{
  Db, Repo, Pull, Review, Identity, PullState, open_state, closed_state, merged_state,
}
use gitclub.Access.{Server, role}
use gitclub.Git.{Tips}

-- A value of a JSON object: a string, or something else.
pub data Field : Type 0 where
  string : Str → Field
  other : Field

-- str of main.go, with the empty string for a missing key.
abbrev pub str : Option Field → Str
str none = []
str (some other) = []
str (some (string s)) = s

unfoldable pub checked_text : Str → Bool → ℕ → String → Result Str
checked_text t required limit message =
    if (ltb limit (length t) || (required && length (trim_space t) == 0)) || any (λ c. c == 0) t
    then fail 400 message
    else ok t

-- discussionText; message is the text that it formats from key, required and limit.
unfoldable pub discussion_text : Option Field → Bool → ℕ → String → Result Str
discussion_text none false limit message = ok []
discussion_text none true limit message = fail 400 message
discussion_text (some other) required limit message = fail 400 message
discussion_text (some (string t)) required limit message = checked_text t required limit message

-- The keys of the body of a PATCH; task is what kaneoTaskURL makes of its key, if that is there.
pub record Edit : Type 0 where
  pub title : Option Field
  pub body : Option Field
  pub state : Option Field
  pub task : Option (Result Str)

unfoldable pub given_text : Option Field → Str → Bool → ℕ → String → Result Str
given_text none before required limit message = ok before
given_text (some v) before required limit message = discussion_text (some v) required limit message

unfoldable pub given_state : Option Field → PullState → Result PullState
given_state none before = ok before
given_state (some v) before =
    if str (some v) == bytes "open"
    then ok open_state
    else if str (some v) == bytes "closed"
    then ok closed_state
    else fail 400 "State must be open or closed"

abbrev pub given_task : Option (Result Str) → Str → Result Str
given_task none before = ok before
given_task (some task) before = task

abbrev pub is_merged : PullState → Bool
is_merged open_state = false
is_merged closed_state = false
is_merged merged_state = true

-- What a PATCH writes.
pub record Written : Type 0 where
  pub title : Str
  pub body : Str
  pub state : PullState
  pub task : Str

unfoldable pub edited : Server → Db → Repo → Identity → Pull → Edit → Result Written
edited s db r u d e = do
  fail_if (not (d.author_id == u.id) && not (role s db r (some u) == bytes "admin")) 403
      "Only the author or repository admin can edit this pull request"
  fail_if (is_merged d.state) 409 "Merged pull requests cannot be edited"
  title ← given_text e.title d.title true 240 "title must be a nonempty string of at most 240 bytes"
  body ← given_text e.body d.body false 65536 "body must be a string of at most 65536 bytes"
  state ← given_state e.state d.state
  task ← given_task e.task d.kaneo_task_url
  ok (record { title = title; body = body; state = state; task = task })

-- UPDATE pull_requests SET title=?,body=?,state=?,kaneo_task_url=?,updated_at=? WHERE id=?
unfoldable pub write_pull : Pull → Written → ℕ → List Pull → List Pull
write_pull d e now =
    update (λ (p : Pull). p.id == d.id)
      λ (p : Pull). record p {
        title = e.title;
        body = e.body;
        state = e.state;
        kaneo_task_url = e.task;
        updated_at = now;
      }

-- The route PATCH /pulls/ID; an error leaves the database as it is.
unfoldable pub edit_pull : Server → Db → Repo → Identity → Pull → Edit → ℕ → Result Db
edit_pull s db r u d e now = do
  w ← edited s db r u d e
  ok (record db { pull_requests = write_pull d w now db.pull_requests })

abbrev pub is_over : PullState → Bool
is_over open_state = false
is_over closed_state = true
is_over merged_state = true

-- The keys of the body of a POST to /pulls/ID/reviews.
pub record Opinion : Type 0 where
  pub decision : Option Field
  pub body : Option Field
  pub expected_head_oid : Option Field

abbrev pub is_decision : Str → Bool
is_decision d = (d == bytes "approve" || d == bytes "request_changes") || d == bytes "comment"

-- The review that is inserted; tips is the result of pullTips, and id comes from the identity column.
unfoldable pub reviewed : Identity → Pull → Tips → Opinion → ℕ → ℕ → Result Review
reviewed u d tips o id now = do
  fail_if (is_over d.state) 409 "Only open pull requests can be reviewed"
  fail_if (not (is_decision (str o.decision))) 400
      "Decision must be approve, request_changes, or comment"
  fail_if (str o.decision == bytes "approve" && d.author_id == u.id) 403
      "Authors cannot approve their own pull requests"
  content ← discussion_text o.body false 65536 "body must be a string of at most 65536 bytes"
  fail_if tips.failed 409 "Restore the pull request branches before reviewing"
  fail_if (length (str o.expected_head_oid) == 0) 400
      "expected_head_oid is required to review the displayed commit"
  fail_if (not (str o.expected_head_oid == tips.head)) 409
      "Head changed; reload and review the current diff"
  ok (record {
    id = id;
    pull_id = d.id;
    author_id = u.id;
    decision = str o.decision;
    body = content;
    commit_oid = tips.head;
    created_at = now;
  })

unfoldable pub review_pull : Db → Identity → Pull → Tips → Opinion → ℕ → ℕ → Result Db
review_pull db u d tips o id now = do
  r ← reviewed u d tips o id now
  ok (record db { reviews = r ∷ db.reviews })
