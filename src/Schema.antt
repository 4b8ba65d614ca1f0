-- ===== src/Schema.antt =====
-- The tables of shared/migrations/001_initial.sql and 002_kaneo.sql that the models read and write.
-- Identifiers and timestamps are natural numbers; a row that one SELECT gives is a record.
use gitclub.Base.{ℕ, Str, Bool, List}

pub record UserRow : Type 0 where
  pub id : ℕ
  pub username : Str
  pub password_hash : Str
  pub created_at : ℕ

-- The authenticated user that authenticate returns: users.id, users.username.
pub record Identity : Type 0 where
  pub id : ℕ
  pub username : Str

pub record Namespace : Type 0 where
  pub name : Str
  pub kind : Str

pub record NamespaceMember : Type 0 where
  pub namespace : Str
  pub user_id : ℕ
  pub role : Str

pub record Repo : Type 0 where
  pub id : ℕ
  pub owner : Str
  pub name : Str
  pub description : Str
  pub visibility : Str
  pub default_branch : Str
  pub require_review : Bool
  pub kaneo_project_url : Str
  pub created_at : ℕ
  pub updated_at : ℕ
  pub default_oid : Str

pub record RepoMember : Type 0 where
  pub repo_id : ℕ
  pub user_id : ℕ
  pub role : Str

pub record Pin : Type 0 where
  pub repo_id : ℕ
  pub user_id : ℕ

pub record Group : Type 0 where
  pub id : ℕ
  pub name : Str
  pub creator_id : ℕ
  pub shared : Bool
  pub created_at : ℕ

pub record GroupRepo : Type 0 where
  pub group_id : ℕ
  pub repo_id : ℕ

-- The state column is held to open, closed or merged by a CHECK.
pub data PullState : Type 0 where
  open_state closed_state merged_state : PullState

pub record Pull : Type 0 where
  pub id : ℕ
  pub repo_id : ℕ
  pub author_id : ℕ
  pub title : Str
  pub body : Str
  pub base_branch : Str
  pub head_branch : Str
  pub state : PullState
  pub created_at : ℕ
  pub updated_at : ℕ
  pub merged_oid : Str
  pub kaneo_task_url : Str

pub record Review : Type 0 where
  pub id : ℕ
  pub pull_id : ℕ
  pub author_id : ℕ
  pub decision : Str
  pub body : Str
  pub commit_oid : Str
  pub created_at : ℕ

-- expires_at is 0 for a token that does not expire.
pub record Token : Type 0 where
  pub token_hash : Str
  pub user_id : ℕ
  pub created_at : ℕ
  pub expires_at : ℕ

pub record SshKey : Type 0 where
  pub id : ℕ
  pub user_id : ℕ
  pub title : Str
  pub public_key : Str
  pub created_at : ℕ

pub record Db : Type 0 where
  pub users : List UserRow
  pub namespaces : List Namespace
  pub namespace_members : List NamespaceMember
  pub repositories : List Repo
  pub repo_members : List RepoMember
  pub pins : List Pin
  pub groups : List Group
  pub group_repos : List GroupRepo
  pub pull_requests : List Pull
  pub reviews : List Review
  pub tokens : List Token
  pub ssh_keys : List SshKey
  -- the identity sequences of users, groups, repositories, pull requests and keys
  pub next_user : ℕ
  pub next_group : ℕ
  pub next_repo : ℕ
  pub next_pull : ℕ
  pub next_key : ℕ
