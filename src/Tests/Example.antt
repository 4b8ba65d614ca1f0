-- ===== src/Tests/Example.antt =====
-- A repository of two writers with an approved pull request, and a git that answers for it.
use gitclub.Base.{
  ℕ, ◌≡◌, inl, inr, sym, ◌∙◌, Str, bytes, true, false, [], ◌∷◌, Option, none, some, if◌then◌else◌,
  ◌==◌, str_keys, In,
}
use gitclub.Schema.{Db, Repo, Pull, Review, Identity, NamespaceMember, UserRow, open_state}
use gitclub.Access.{Server}
use gitclub.Git.{Git}
use gitclub.Pulls.Mergeable.{UniqueReviews}
use gitclub.Merge.World.{Refs, World, Env}
use gitclub.Merge.Route.{stores, MergeEnv, committed_unreported}
use gitclub.Merge.Invariant.{Inv}

abbrev pub oid_base : Str
oid_base = bytes "aaaaaaaaaaaaaaaaaaaaaaaaaaaaaaaaaaaaaaaa"

abbrev pub oid_head : Str
oid_head = bytes "bbbbbbbbbbbbbbbbbbbbbbbbbbbbbbbbbbbbbbbb"

abbrev pub oid_tree : Str
oid_tree = bytes "cccccccccccccccccccccccccccccccccccccccc"

abbrev pub oid_merge : Str
oid_merge = bytes "dddddddddddddddddddddddddddddddddddddddd"

abbrev pub git : Git
git = record {
  check_ref_format = λ ref. true;
  rev_parse = λ ask.
      if ask == bytes "refs/heads/main^{commit}"
      then some oid_base
      else if ask == bytes "refs/heads/topic^{commit}"
      then some oid_head
      else none;
  merge_tree = λ base head. some oid_tree;
}

abbrev pub repository : Repo
repository = record {
  id = 1;
  owner = bytes "octo";
  name = bytes "club";
  description = [];
  visibility = bytes "private";
  default_branch = bytes "main";
  require_review = true;
  kaneo_project_url = [];
  created_at = 1;
  updated_at = 1;
  default_oid = oid_base;
}

abbrev pub pull : Pull
pull = record {
  id = 1;
  repo_id = 1;
  author_id = 1;
  title = bytes "Topic";
  body = [];
  base_branch = bytes "main";
  head_branch = bytes "topic";
  state = open_state;
  created_at = 2;
  updated_at = 2;
  merged_oid = [];
  kaneo_task_url = [];
}

abbrev pub review : Review
review = record {
  id = 1;
  pull_id = 1;
  author_id = 2;
  decision = bytes "approve";
  body = [];
  commit_oid = oid_head;
  created_at = 3;
}

abbrev pub writer : ℕ → NamespaceMember
writer id = record { namespace = bytes "octo"; user_id = id; role = bytes "write" }

abbrev pub author : Identity
author = record { id = 1; username = bytes "ada" }

abbrev pub account : ℕ → Str → UserRow
account id name = record { id = id; username = name; password_hash = []; created_at = 0 }

abbrev pub db : Db
db = record {
  users = account 1 (bytes "ada") ∷ account 2 (bytes "bob") ∷ account 3 (bytes "backup") ∷ [];
  namespaces = [];
  namespace_members = writer 1 ∷ writer 2 ∷ [];
  repositories = repository ∷ [];
  repo_members = [];
  pins = [];
  groups = [];
  group_repos = [];
  pull_requests = pull ∷ [];
  reviews = review ∷ [];
  next_user = 4;
  next_group = 1;
  tokens = [];
  ssh_keys = [];
  next_repo = 2;
  next_pull = 2;
  next_key = 1;
}

abbrev pub refs : Refs
refs = record {
  heads = λ b.
      if b == bytes "main"
      then some oid_base
      else if b == bytes "topic"
      then some oid_head
      else none;
  ledger = λ n. none;
}

abbrev pub world : World
world = record { db = db; refs = refs; markers = [] }

abbrev pub server : Server
server = record { backup_user_id = 3 }

abbrev pub calm_env : Env
calm_env = record {
  glob_fails = false;
  read_fails = λ n. false;
  ledger_fails = λ n. false;
  update_fails = λ n. false;
  refresh_fails = λ n. false;
  remove_fails = λ n. false;
  observed = λ r. some oid_base;
  now = 9;
}

-- The run of update-ref commits, but is killed before it can say so.
abbrev pub merge_env : MergeEnv
merge_env = record {
  git = git;
  commit_tree = λ tree base head. some oid_merge;
  disk = stores;
  fate = committed_unreported;
  recovery = calm_env;
  now = 8;
}

only_pull : (p : Pull) → In p db.pull_requests → p ≡ pull
only_pull p m = elim m [ inl e ↦ sym e | inr n ↦ elim n [ ] ]

only_review : (r : Review) → In r db.reviews → r ≡ review
only_review r m = elim m [ inl e ↦ sym e | inr n ↦ elim n [ ] ]

pub unique_reviews : UniqueReviews world.db
unique_reviews x y x_in y_in e = only_review x x_in ∙ sym (only_review y y_in)

nothing : (oid : Str) → ◌≡◌ {A = Option Str} none (some oid) → ⊥
nothing oid e = cc

pub world-Inv : Inv repository world
world-Inv = record {
  unique_pulls = λ p q p_in q_in e. only_pull p p_in ∙ sym (only_pull q q_in);
  unmerged_blank = λ p p_in h. cc (only_pull p p_in);
  no_lost_merge = λ id oid e. absurd (nothing oid e);
  no_false_merge = λ p p_in r s. cc (only_pull p p_in);
  markers_named = λ f m f_in. elim f_in [ ];
  markers_agree = λ f m f_in. elim f_in [ ];
}
