-- ===== src/Tests/Serving.antt =====
-- The database layer, the links to Kaneo, the SSH transport and the settings of repositories on examples.
use gitclub.Base.{
  ℕ, ◌+◌, ◌++◌, ◌≡◌, ◌≢◌, ◌≤◌, ◌<◌, ◌↔◌, ◌⊎◌, inl, inr, refl, sym, ap, subst, ◌∙◌, Str, bytes, true,
  false, List, [], ◌∷◌, Option, none, some, arith, nat_eq, str_keys, str_eq, length, all, any,
  select, select_one, update, contains, contains_any, has_prefix, has_suffix, strip_suffix,
  trim_suffix, cut_at, split, join, In, Result, ok,
}
use gitclub.Schema.{Db, Identity, Repo, Pull, merged_state}
use gitclub.Access.{
  rank, role, repo, own_role, best_role, role_rows, namespace_roles, repo_roles, is_backup_user,
}
use gitclub.Access.Guard.{row_of}
use gitclub.Git.{valid_branch}
use gitclub.Namespaces.{valid_name, name_ok}
use gitclub.Database.Placeholders.{rebind, number_parts, rebind-number_parts}
use gitclub.Database.Migrations.{
  File, Schema, version, Faults, calm, reply_lost, no_faults, migrate, migrate_runs,
}
use gitclub.Database.Migrations.Resume.{Distinct}
use gitclub.Database.Migrations.Again.{migrate_again}
use gitclub.Kaneo.{
  UrlPackage, kaneo_id, is_project, is_refused, parse_text, parse_kaneo_url, short_text,
  project_url, kaneo_project_url, task_id, task_url, kaneo_task_url,
}
use gitclub.Kaneo.Links.{IsLink, project_of, kaneo_task_url-IsLink}
use gitclub.Kaneo.Readers.{is_linked}
use gitclub.Kaneo.Paging.{UniqueIds, read_pages, read_pages_iff}
use gitclub.Sessions.Tokens.{authenticate, new_token}
use gitclub.Sessions.Presenting.{with_bearer}
use gitclub.Ssh.{Parts, Grant, upload_pack, is_operation, parse_command, admitted, authorize}
use gitclub.Ssh.Command.{print_command, AreAllowed, parse_command_iff}
use gitclub.Ssh.Grants.{IsAdmitted, authorize-IsAdmitted}
use gitclub.Repositories.{
  Wanted, Value, text_value, set_field, set_fields, patch_repository, create_repository,
}
use gitclub.Repositories.Settings.{HasSettings, patch_repository-HasSettings}
use gitclub.Repositories.Catalogue.{Catalogue, create_repository-Catalogue}
use gitclub.Tests.Example.{db, author, server, repository, pull, git}

abbrev query : Str
query = bytes "SELECT '?' WHERE a=? AND b=?"

rebind-number_parts_example : rebind query ≡ join (number_parts (split query b'\'') 0 false) b'\''
rebind-number_parts_example = rebind-number_parts query

-- The tables are the bodies that were run.
abbrev exec : Str → List Str → Option (List Str)
exec body bodies = some (body ∷ bodies)

abbrev initial_file : File
initial_file = record { base = bytes "001_initial.sql"; body = some (bytes "a") }

abbrev kaneo_file : File
kaneo_file = record { base = bytes "002_kaneo.sql"; body = none }

abbrev files : List File
files = kaneo_file ∷ initial_file ∷ []

abbrev empty_schema : Schema (List Str)
empty_schema = record { tables = []; versions = [] }

versions_apart : version kaneo_file ≢ version initial_file
unfolding trim_suffix strip_suffix str_eq
versions_apart e = cc (ap (λ s. str_eq s (bytes "002_kaneo")) e)

files-Distinct : Distinct files
files-Distinct = (
  λ g m. elim m [ inl e ↦ λ q. versions_apart (q ∙ ap version (sym e)) | inr n ↦ elim n [ ] ],
  (λ g m. elim m [ ], tt),
)

-- A run in which the answer to the COMMIT of the first file is lost, and one that no query reaches.
abbrev reply_lost_once : Faults
reply_lost_once = record { setup_fails = false; file = λ v. record calm { commit = reply_lost } }

abbrev no_query : Faults
no_query = record { setup_fails = true; file = λ v. calm }

migrate_again_example :
    migrate exec no_faults files
      (migrate_runs exec (reply_lost_once ∷ no_query ∷ []) files empty_schema)
    ≡ migrate exec no_faults files empty_schema
migrate_again_example =
    migrate_again exec (reply_lost_once ∷ no_query ∷ []) files empty_schema files-Distinct

-- An address is printed as its path, under one host.
abbrev net : UrlPackage
net = record {
  parse = λ s. some (record {
    scheme = bytes "https";
    host = bytes "kaneo.example";
    hostname = bytes "kaneo.example";
    has_user = false;
    path = s;
    raw_path = [];
    raw_query = [];
    force_query = false;
  });
  string = λ u. u.path;
  parse_query = λ q. none;
}

abbrev task_text : Str
task_text = bytes "/dashboard/workspace/w/project/p/task/t"

abbrev project_text : Str
project_text = bytes "/dashboard/workspace/w/project/p/list"

accepted : kaneo_task_url net (some task_text) project_text ≡ ok task_text
unfolding kaneo_task_url task_url task_id kaneo_project_url project_url short_text parse_kaneo_url
    parse_text is_refused is_project kaneo_id all split join contains has_suffix has_prefix str_eq
accepted = refl

cons_ne : (c : ℕ) (s : Str) → c ∷ s ≢ []
cons_ne c s e = cc

kaneo_task_url-IsLink_example :
    (task : Str) × (link : IsLink net (bytes "/task/" ++ task) task_text) × (kaneo_id task ≡ true)
    × (kaneo_project_url net (some project_text)
        ≡ ok (
            net.string (record link.url {
              path = join (project_of link.workspace link.project) b'/' ++ bytes "/board";
            })))
kaneo_task_url-IsLink_example =
    kaneo_task_url-IsLink net (some task_text) project_text task_text accepted (cons_ne _ _)

abbrev merged_pull : Pull
merged_pull = record pull { state = merged_state; kaneo_task_url = task_text }

abbrev merged_db : Db
merged_db = record db { pull_requests = merged_pull ∷ [] }

merged_unique : UniqueIds merged_db
merged_unique p q m n e = only p m ∙ sym (only q n)
  where
    only : (x : Pull) → In x merged_db.pull_requests → x ≡ merged_pull
    only x k = elim k [ inl a ↦ sym a | inr b ↦ elim b [ ] ]

one_linked : length (select (is_linked 1 0) merged_db.pull_requests) ≡ 1
unfolding select
one_linked = refl

read_pages_iff_example :
    In merged_pull (read_pages merged_db 1 1 0)
    ↔ (In merged_pull merged_db.pull_requests × (is_linked 1 0 merged_pull ≡ true))
read_pages_iff_example =
    read_pages_iff merged_db 1 1 0 merged_pull merged_unique (omega (arith, one_linked))

abbrev parts : Parts
parts = record { operation = upload_pack; owner = bytes "octo"; name = bytes "club" }

abbrev command : Str
command = bytes "git-upload-pack 'octo/club.git'"

parse_command_iff_example :
    (parse_command command ≡ some parts) ↔ ((command ≡ print_command parts) × AreAllowed parts)
parse_command_iff_example = parse_command_iff command parts

abbrev hash : Str → Str
hash t = 1 ∷ t

abbrev keyed : Db
keyed = record db {
  ssh_keys =
      record { id = 6; user_id = 1; title = []; public_key = bytes "k"; created_at = 0 } ∷ [];
}

abbrev grant : Grant
grant = record { repo_id = 1; user_id = 1; token = bytes "t0"; operation = upload_pack }

abbrev granting : Result Grant × Db
granting = authorize hash server keyed 6 command (some (bytes "t0")) 5 5

grants : granting ≡ (ok grant, granting.1)
unfolding authorize admitted parse_command strip_suffix cut_at is_operation valid_name all any
    select select_one new_token repo role rank own_role best_role role_rows namespace_roles
    repo_roles is_backup_user str_eq
grants = refl

authorize-IsAdmitted_example :
    (u : Identity) × (p : Parts) × (r : Repo) × IsAdmitted server keyed 6 command u p r
    × (grant.repo_id ≡ r.id)
    × (grant.operation ≡ p.operation)
    × (((authenticate hash granting.1 (with_bearer grant.token) 100).0 ≡ some u)
        ↔ (100 < 5 + 180000))
authorize-IsAdmitted_example =
    authorize-IsAdmitted hash server keyed 6 command (some (bytes "t0")) 5 5 grant granting.1 100
      grants (cons_ne _ _)

abbrev administered : Db
administered = record db {
  namespace_members = record { namespace = bytes "octo"; user_id = 1; role = bytes "admin" } ∷ [];
}

repository-HasSettings : HasSettings net git repository
unfolding valid_branch contains_any any str_eq has_prefix
repository-HasSettings = (refl, refl, omega arith, inl refl)

all_settings : (r : Repo) → In r administered.repositories → HasSettings net git r
all_settings r m = elim m [
  | inl e ↦ subst (HasSettings net git) e repository-HasSettings
  | inr n ↦ elim n [ ]
]

abbrev settings : List (Str × Value)
settings = (bytes "visibility", text_value (bytes "public")) ∷ []

abbrev patched : Repo
patched = record repository { visibility = bytes "public" }

abbrev after : Db
after = record administered { repositories = patched ∷ [] }

patches : patch_repository net git server administered 1 (some author) settings true 9 ≡ ok after
unfolding patch_repository set_fields set_field any update select select_one repo role rank own_role
    best_role role_rows namespace_roles repo_roles is_backup_user str_eq
patches = refl

patch_repository-HasSettings_example :
    HasSettings net git patched
    × ((patched.id ≡ 1) ⊎ In patched administered.repositories)
    × ((r : Repo) × (row_of administered 1 ≡ some r)
        × (rank (bytes "admin") ≤ rank (role server administered r (some author))))
patch_repository-HasSettings_example =
    patch_repository-HasSettings net git server administered 1 (some author) settings true 9 after
      patched all_settings patches (inl refl)

abbrev wanted : Wanted
wanted = record {
  owner = bytes "octo";
  name = bytes "kit";
  description = [];
  visibility = [];
  default_branch = [];
}

repository_addressed :
    (name_ok repository.owner ≡ true)
    × (name_ok repository.name ≡ true)
    × (has_suffix repository.name (bytes ".git") ≡ false)
unfolding name_ok valid_name all has_suffix str_eq
repository_addressed = (refl, refl, refl)

db-Catalogue : Catalogue net git db
db-Catalogue = (
  λ x y m n e. only x m ∙ sym (only y n),
  λ r m. subst (λ (z : Repo). z.id < 2) (sym (only r m)) (omega arith),
  λ r m.
      subst
        (λ (z : Repo).
          ((name_ok z.owner ≡ true)
            × (name_ok z.name ≡ true)
            × (has_suffix z.name (bytes ".git") ≡ false))
          × HasSettings net git z)
        (sym (only r m)) (repository_addressed, repository-HasSettings),
)
  where
    only : (x : Repo) → In x db.repositories → x ≡ repository
    only x k = elim k [ inl a ↦ sym a | inr b ↦ elim b [ ] ]

create_repository-Catalogue_example :
    Catalogue net git (create_repository git db (some author) wanted 9 true).1
create_repository-Catalogue_example =
    create_repository-Catalogue net git db (some author) wanted 9 true db-Catalogue
