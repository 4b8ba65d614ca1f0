-- ===== src/Repositories.antt =====
-- The writing branches of repositories in implementations/go/repositories.go: creation, settings, pins and
-- members. What the file system and git answer is an argument.
pub mod Settings
pub mod Catalogue
use gitclub.Base.{
  ℕ, String, suc, ◌≡◌, Str, bytes, Bool, true, false, not, ◌&&◌, ◌||◌, List, [], ◌∷◌, Option, none,
  some, ltb, leb, if◌then◌else◌, ◌==◌, nat_eq, str_keys, length, has_suffix, any, select_one,
  update, delete, Result, ok, err, fail, fail_if, or_fail, ◌>>=◌, ◌>>◌,
}
use gitclub.Schema.{Db, Repo, RepoMember, NamespaceMember, UserRow, Pin, Identity}
use gitclub.Access.{Server, rank, repo}
use gitclub.Git.{Git, valid_branch, resolve}
use gitclub.Namespaces.{name_ok, require_user, is_member, role_in}
use gitclub.Kaneo.{UrlPackage, kaneo_project_url}

-- What the body of a creation says; an absent text is empty.
pub record Wanted : Type 0 where
  pub owner : Str
  pub name : Str
  pub description : Str
  pub visibility : Str
  pub default_branch : Str

abbrev pub or_default : Str → Str → Str
or_default s d = if length s == 0 then d else s

abbrev pub is_visibility : Str → Bool
is_visibility v = v == bytes "private" || v == bytes "public"

abbrev pub repo_row : ℕ → Wanted → ℕ → Repo
repo_row id b now = record {
  id = id;
  owner = b.owner;
  name = b.name;
  description = b.description;
  visibility = or_default b.visibility (bytes "private");
  default_branch = or_default b.default_branch (bytes "main");
  require_review = true;
  kaneo_project_url = [];
  created_at = now;
  updated_at = now;
  default_oid = [];
}

abbrev pub has_name : Str → Str → Repo → Bool
has_name owner name r = r.owner == owner && r.name == name

-- The tests of the body, and the insert, whose owner and name are a key.
unfoldable pub insert_repository : Git → Db → Option Identity → Wanted → ℕ → Result Db
insert_repository git db who b now = do
  u ← require_user who
  fail_if (not (name_ok b.owner) || (not (name_ok b.name) || has_suffix b.name (bytes ".git"))) 400
      "Use lowercase owner/repository names, without .git suffix"
  fail_if (ltb (rank (role_in (select_one (is_member b.owner u.id) db.namespace_members))) 2) 403
      "Namespace write permission required"
  fail_if (not (is_visibility (or_default b.visibility (bytes "private")))) 400
      "Visibility must be private or public"
  fail_if (not (valid_branch git (or_default b.default_branch (bytes "main")))) 400
      "Invalid default branch"
  fail_if (ltb 4096 (length b.description)) 400 "Description exceeds 4096 bytes"
  fail_if (any (has_name b.owner b.name) db.repositories) 409 "That name or entry already exists"
  ok (record db {
    repositories = repo_row db.next_repo b now ∷ db.repositories;
    next_repo = suc db.next_repo;
  })

abbrev pub without_repo : ℕ → Db → Db
without_repo id db = record db { repositories = delete (λ (r : Repo). r.id == id) db.repositories }

-- POST /repos; initialized is whether initializeRepo succeeds. The identifier is given out in any case.
unfoldable pub create_repository :
    Git → Db → Option Identity → Wanted → ℕ → (initialized : Bool) → Result ℕ × Db
create_repository git db who b now initialized = elim (insert_repository git db who b now) [
  | err e ↦ (err e, db)
  | ok after ↦
      if initialized
      then (ok db.next_repo, after)
      else (fail 500 "Git repository initialization failed", without_repo db.next_repo after)
]

-- A value of the body.
pub data Value : Type 0 where
  text_value : Str → Value
  bool_value : Bool → Value
  other_value : Value

-- str(b, key)
abbrev pub text_of : Value → Str
text_of (text_value s) = s
text_of _ = []

abbrev pub checked_text : Value → Result Str
checked_text (text_value s) =
    fail_if (ltb 4096 (length s)) 400 "Description must be text of at most 4096 bytes" >> ok s
checked_text _ = fail 400 "Description must be text of at most 4096 bytes"

abbrev pub checked_bool : Value → Result Bool
checked_bool (bool_value b) = ok b
checked_bool _ = fail 400 "require_review must be boolean"

abbrev pub given_url : Value → Option Str
given_url (text_value s) = some s
given_url _ = none

-- One turn of the loop over the keys.
unfoldable pub set_field : UrlPackage → Git → Str → Value → Repo → Result Repo
set_field net git key v r =
    if key == bytes "description"
    then checked_text v >>= (λ s. ok (record r { description = s }))
    else if key == bytes "visibility"
    then fail_if (not (is_visibility (text_of v))) 400 "Visibility must be private or public"
      >> ok (record r { visibility = text_of v })
    else if key == bytes "require_review"
    then checked_bool v >>= (λ b. ok (record r { require_review = b }))
    else if key == bytes "kaneo_project_url"
    then kaneo_project_url net (given_url v) >>= (λ s. ok (record r { kaneo_project_url = s }))
    else if key == bytes "default_branch"
    then fail_if (not (valid_branch git (text_of v))) 400 "Invalid default branch"
      >> ok (record r { default_branch = text_of v })
    else fail 400 "Unsupported repository field"

-- The loop, in an order of the keys.
unfoldable pub set_fields : UrlPackage → Git → List (Str × Value) → Repo → Result Repo
set_fields net git [] r = ok r
set_fields net git ((key, v) ∷ rest) r = set_field net git key v r >>= set_fields net git rest

abbrev pub or_empty : Option Str → Str
or_empty none = []
or_empty (some s) = s

-- Behind the loop where default_branch was a key: HEAD is moved, or that fails.
abbrev pub set_head : Git → (moved : Bool) → (now : ℕ) → Repo → Result Repo
set_head git false now r = fail 500 "Default branch update failed"
set_head git true now r =
    ok (record r { default_oid = or_empty (resolve git r r.default_branch); updated_at = now })

-- The columns that the UPDATE writes.
abbrev pub with_settings : Repo → Repo → Repo
with_settings r x = record x {
  description = r.description;
  visibility = r.visibility;
  default_branch = r.default_branch;
  require_review = r.require_review;
  kaneo_project_url = r.kaneo_project_url;
  updated_at = r.updated_at;
  default_oid = r.default_oid;
}

-- PATCH /repos/ID under the lock, behind the first tests of access.
unfoldable pub patch_repository :
    UrlPackage
    → Git
    → Server
    → Db
    → ℕ
    → Option Identity
    → List (Str × Value)
    → (moved : Bool) → (now : ℕ) → Result Db
patch_repository net git s db id who body moved now = do
  r ← repo s db id who (bytes "admin")
  edited ← set_fields net git body r
  final ←
      (if any (λ (f : Str × Value). f.0 == bytes "default_branch") body
        then set_head git moved now edited
        else ok edited)
  ok (record db {
    repositories = update (λ (x : Repo). x.id == id) (with_settings final) db.repositories;
  })

abbrev pub is_pin : ℕ → ℕ → Pin → Bool
is_pin id uid p = p.repo_id == id && p.user_id == uid

-- POST /repos/ID/pin, behind the access to the repository; none is a value that is no boolean.
unfoldable pub set_pin : Db → Option Identity → ℕ → Option Bool → Result Db
set_pin db who id pinned = do
  u ← require_user who
  on ← or_fail pinned 400 "pinned must be boolean"
  ok (
      if on
      then (if any (is_pin id u.id) db.pins
          then db
          else record db { pins = record { repo_id = id; user_id = u.id } ∷ db.pins })
      else record db { pins = delete (is_pin id u.id) db.pins })

abbrev pub is_repo_member : ℕ → ℕ → RepoMember → Bool
is_repo_member id uid m = m.repo_id == id && m.user_id == uid

-- POST /repos/ID/members
unfoldable pub set_repo_member : Server → Db → Option Identity → ℕ → Str → Str → Result Db
set_repo_member s db who id username role = do
  r ← repo s db id who (bytes "admin")
  target ←
      or_fail (select_one (λ (v : UserRow). v.username == username) db.users) 400
        "Provide an existing username and admin, write, or read role"
  fail_if (rank role == 0) 400 "Provide an existing username and admin, write, or read role"
  ok (record db {
    repo_members =
        if any (is_repo_member id target.id) db.repo_members
        then update (is_repo_member id target.id) (λ (m : RepoMember). record m { role = role })
            db.repo_members
        else record { repo_id = id; user_id = target.id; role = role } ∷ db.repo_members;
  })
