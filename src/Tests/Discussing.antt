-- ===== src/Tests/Discussing.antt =====
-- The pull request of the example edited by its author and reviewed by the other writer.
use gitclub.Base.{
  ◌≡◌, ◌≢◌, ◌<◌, refl, Str, bytes, false, [], ◌∷◌, some, none, arith, ok, str_eq, any, update,
  trim_space, trim_left, trim_right, In, inl, inr, ap,
}
use gitclub.Schema.{Db, Review, Identity, closed_state, merged_state}
use gitclub.Git.{Tips}
use gitclub.Pulls.Discussion.{
  string, Edit, edited, given_text, given_state, checked_text, discussion_text, write_pull,
  edit_pull, Opinion, reviewed, review_pull,
}
use gitclub.Pulls.Mergeable.{IsLatest}
use gitclub.Pulls.Reviewing.{Reviewed, review_pull-IsLatest}
use gitclub.Merge.Invariant.{Inv}
use gitclub.Merge.Editing.{edit_pull-Inv}
use gitclub.Base.{Option, ◌⊎◌, has_prefix, contains, contains_any, str_keys}
use gitclub.Pulls.Paths.{bad_path}
use gitclub.Pulls.Comments.{
  Remark, Comment, number, given_line, newlines, placed, located, commented, Placed, IsOf, Unplaced,
  commented-Placed,
}
use gitclub.Base.{all}
use gitclub.Schema.{Pull}
use gitclub.Git.{valid_branch, pull_tips, resolve, checked_oid, oid_pattern}
use gitclub.Pulls.Opening.{Proposal, opened, open_pull}
use gitclub.Merge.Opening.{IsOpened, open_pull-Inv}
use gitclub.Tests.Example.{
  git, repository, pull, review, author, world, db, server, oid_base, oid_head, world-Inv,
}

abbrev close : Edit
close = record {
  title = some (string (bytes "Closed"));
  body = none;
  state = some (string (bytes "closed"));
  task = none;
}

abbrev closed : Db
closed = record db {
  pull_requests = record pull { title = bytes "Closed"; state = closed_state; updated_at = 9 } ∷ [];
}

closes : edit_pull server db repository author pull close 9 ≡ ok closed
unfolding edit_pull edited given_text given_state discussion_text checked_text write_pull update any
    str_eq trim_space trim_left trim_right
closes = refl

edit_pull-Inv_example : Inv repository (record world { db = closed }) × (pull.state ≢ merged_state)
edit_pull-Inv_example =
    edit_pull-Inv server repository author pull close 9 world closed world-Inv (inl refl) closes

abbrev reviewer : Identity
reviewer = record { id = 2; username = bytes "bob" }

abbrev tips : Tips
tips = record { base = oid_base; head = oid_head; failed = false }

abbrev objection : Opinion
objection = record {
  decision = some (string (bytes "request_changes"));
  body = none;
  expected_head_oid = some (string oid_head);
}

abbrev objected : Db
objected = record db {
  reviews =
      record {
        id = 2;
        pull_id = 1;
        author_id = 2;
        decision = bytes "request_changes";
        body = [];
        commit_oid = oid_head;
        created_at = 9;
      }
      ∷ review
      ∷ [];
}

objects : review_pull db reviewer pull tips objection 2 9 ≡ ok objected
unfolding review_pull reviewed discussion_text str_eq
objects = refl

below : (q : Review) → In q db.reviews → q.id < 2
below q m = elim m [ inl e ↦ omega (arith, ap (λ (x : Review). x.id) e) | inr n ↦ elim n [ ] ]

review_pull-IsLatest_example :
    (r : Review) × In r objected.reviews
    × Reviewed reviewer pull tips objection 2 r
    × (r.decision ≢ bytes "comment" → IsLatest objected pull tips.head r)
review_pull-IsLatest_example =
    review_pull-IsLatest db reviewer pull tips objection 2 9 objected below objects

-- A comment on line 2 of README at the current head.
abbrev remark : Remark
remark = record {
  body = some (string (bytes "Why?"));
  path = some (string (bytes "README"));
  commit_oid = some (string oid_head);
  line = some (number 2);
}

abbrev blob : Str → Str → Option Str
blob commit path = some (bytes "a\nb")

abbrev comment : Comment
comment = record { body = bytes "Why?"; path = bytes "README"; commit_oid = oid_head; line = 2 }

accepts : commented tips blob remark ≡ ok comment
unfolding commented located placed given_line discussion_text checked_text bad_path newlines str_eq
    any has_prefix contains contains_any trim_space trim_left trim_right
accepts = refl

commented-Placed_example : IsOf remark comment × (Unplaced comment ⊎ Placed tips blob comment)
commented-Placed_example = commented-Placed tips blob remark comment accepts

-- The same branches once more, from the default branch.
abbrev proposal : Proposal
proposal = record {
  title = some (string (bytes "Again"));
  body = none;
  base_branch = none;
  head_branch = some (string (bytes "topic"));
  task = none;
}

abbrev second_pull : Pull
second_pull = record pull { id = 2; title = bytes "Again"; created_at = 9; updated_at = 9 }

abbrev reopened : Db
reopened = record db { pull_requests = second_pull ∷ pull ∷ []; next_pull = 3 }

opens :
    open_pull git db repository author proposal (λ t. some (bytes "a.txt")) 9
    ≡ ok (second_pull, reopened)
unfolding open_pull opened discussion_text checked_text valid_branch pull_tips resolve checked_oid
    oid_pattern contains_any contains has_prefix str_eq all any trim_space trim_left trim_right
opens = refl

below_next : (q : Pull) → In q world.db.pull_requests → q.id < 2
below_next q m = elim m [ inl e ↦ omega (arith, ap (λ (x : Pull). x.id) e) | inr n ↦ elim n [ ] ]

open_pull-Inv_example :
    Inv repository (record world { db = reopened }) × IsOpened git repository author second_pull
open_pull-Inv_example =
    open_pull-Inv git repository author proposal (λ t. some (bytes "a.txt")) 9 world second_pull
      reopened world-Inv below_next opens
