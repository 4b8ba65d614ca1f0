-- ===== src/Tests/Guarding.antt =====
-- The access functions on the example, and the limit on failed sign-ins.
use gitclub.Base.{
  subst, inl, List, Check, ℕ, ◌+◌, ◌≢◌, ◌≡◌, ◌≤◌, ◌<◌, ◌↔◌, refl, Str, bytes, true, false, [], ◌∷◌,
  some, none, ok, fail, arith, max, if◌then◌else◌, str_eq, In, select_one, all,
}
use gitclub.Schema.{Identity}
use gitclub.Access.{rank, role, repo, own_role, is_backup_user}
use gitclub.Access.Roles.{Grants, role-Grants}
use gitclub.Access.Guard.{row_of, repo-eq-ok, repo_hides}
use gitclub.Access.Backup.{unset, role-backup}
use gitclub.RateLimit.{
  Rates, expired, rate_of, set_rate, rate, admit, count_failure, Attempts, without, begun, begin,
  finish, Turn, begins, finishes, Reached, start, turn,
}
use gitclub.RateLimit.Bounds.{rate_of-Reached, begin_refused}
use gitclub.CappedOutput.{read_from, joined, read_from_lem}
use gitclub.Base.{length, take, ltb}
use gitclub.Base.{any, all, update, ◌∷◌}
use gitclub.Schema.{Db}
use gitclub.Namespaces.{
  valid_name, name_ok, require_user, create_namespace, upsert_member, set_member,
}
use gitclub.Namespaces.Admins.{AllHaveAdmin, create_namespace-AllHaveAdmin, set_member-AllHaveAdmin}
use gitclub.Base.{delete, ◌≢◌}
use gitclub.Schema.{Group, GroupRepo}
use gitclub.Groups.{group, group_view, Shows, group_view_iff, delete_group, delete_group_lem}
use gitclub.Tests.Example.{repository, author, db, server}

role-Grants_example :
    (2 ≤ rank (role server db repository (some author)))
    ↔ Grants server db repository (some author) 2
role-Grants_example = role-Grants server db repository (some author) 2 (omega arith)

repo-eq-ok_example : (repo server db 1 (some author) (bytes "write") ≡ ok repository) ↔ (
    (row_of db 1 ≡ some repository)
    × (0 < rank (role server db repository (some author)))
    × (rank (bytes "write") ≤ rank (role server db repository (some author))))
repo-eq-ok_example = repo-eq-ok server db 1 (some author) (bytes "write") repository

stored : row_of db 1 ≡ some repository
unfolding select_one
stored = refl

not_stored : row_of db 7 ≡ none
unfolding select_one
not_stored = refl

hidden : rank (role server db repository none) ≡ 0
unfolding rank role own_role is_backup_user str_eq
hidden = refl

repo_hides_example :
    repo server db 1 none (bytes "read") ≡ repo server db 7 (some author) (bytes "admin")
repo_hides_example =
    repo_hides server db 1 none (bytes "read") repository db 7 (some author) (bytes "admin") stored
      hidden not_stored

role-backup_example :
    rank (role server db repository (some (record { id = 3; username = bytes "backup" })))
    ≡ max (rank (role unset db repository (some (record { id = 3; username = bytes "backup" })))) (
        if is_backup_user server (some (record { id = 3; username = bytes "backup" }))
        then 1
        else 0)
role-backup_example =
    role-backup server db repository (some (record { id = 3; username = bytes "backup" }))

-- A host with twenty failures within the minute.
abbrev host : Str
host = bytes "10.0.0.1"

abbrev failed : Rates
failed = (host, record { count = 20; since = some 5 }) ∷ []

abbrev waiting : Attempts
waiting = record { rates = failed; running = [] }

since_5 : (rate_of host failed).since ≡ some 5
unfolding rate_of str_eq
since_5 = refl

full : 20 ≤ (rate_of host failed).count
unfolding rate_of str_eq
full = omega arith

begin_refused_example :
    ((begin 6 host waiting).0 ≡ fail 429 "Too many authentication attempts; retry in one minute")
    × ((begin 6 host waiting).1.running ≡ [])
    × (rate_of host (begin 6 host waiting).1.rates ≡ rate_of host failed)
begin_refused_example = begin_refused 6 5 host waiting (omega arith) since_5 (omega arith) full

-- Two attempts of one host overlap, and both fail.
abbrev no_attempt : Attempts
no_attempt = record { rates = []; running = [] }

abbrev seen : ℕ → Rates
seen count = (host, record { count = count; since = some 5 }) ∷ []

abbrev at_table : ℕ → List Str → Attempts
at_table count running = record { rates = seen count; running = running }

one_runs : (begin 5 host no_attempt).1 ≡ at_table 0 (host ∷ [])
unfolding begin begun rate admit rate_of set_rate expired
one_runs = refl

two_run : (begin 6 host (at_table 0 (host ∷ []))).1 ≡ at_table 0 (host ∷ host ∷ [])
unfolding begin begun rate admit rate_of set_rate expired str_eq
two_run = refl

abbrev refused : Check
refused = fail 401 "Invalid credentials"

one_fails : finish host refused (at_table 0 (host ∷ host ∷ [])) ≡ at_table 1 (host ∷ [])
unfolding finish count_failure without rate_of set_rate str_eq
one_fails = refl

two_fail : finish host refused (at_table 1 (host ∷ [])) ≡ at_table 2 []
unfolding finish count_failure without rate_of set_rate str_eq
two_fail = refl

one_reached : Reached 2 (at_table 0 (host ∷ []))
one_reached = turn start (subst (Turn no_attempt) one_runs (begins 5 host)) (omega arith)

two_reached : Reached 2 (at_table 0 (host ∷ host ∷ []))
two_reached =
    turn one_reached (subst (Turn (at_table 0 (host ∷ []))) two_run (begins 6 host)) (omega arith)

failed_reached : Reached 2 (at_table 2 [])
failed_reached =
    turn
      (turn two_reached
        (subst (Turn (at_table 0 (host ∷ host ∷ []))) one_fails (finishes host refused (inl refl)))
        (omega arith))
      (subst (Turn (at_table 1 (host ∷ []))) two_fail (finishes host refused (inl refl)))
      (omega arith)

-- Behind nineteen failures two attempts that overlap are both admitted, and leave twenty-one.
above_twenty :
    ((begin 6 host (at_table 19 (host ∷ []))).0 ≡ ok tt)
    × (finish host refused (finish host refused (begin 6 host (at_table 19 (host ∷ []))).1)
        ≡ at_table 21 [])
unfolding begin begun rate admit rate_of set_rate expired finish count_failure without str_eq
above_twenty = (refl, refl)

rate_of-Reached_example : (length (seen 2) ≤ 4096 + 2) × ((rate_of host (seen 2)).count ≤ 19 + 2)
rate_of-Reached_example = rate_of-Reached 2 (at_table 2 []) host failed_reached

read_from_lem_example :
    let r =
      read_from
        (record { buffer = []; cap = 4; truncated = false })
        (bytes "abc" ∷ bytes "def" ∷ []) in
    (r.0.buffer ≡ take 4 (joined (bytes "abc" ∷ bytes "def" ∷ [])))
    × (r.0.truncated ≡ ltb 4 (length (joined (bytes "abc" ∷ bytes "def" ∷ []))))
    × (r.1 ≡ length (joined (bytes "abc" ∷ bytes "def" ∷ [])))
read_from_lem_example = read_from_lem 4 (bytes "abc" ∷ bytes "def" ∷ [])

-- The author founds an organisation, and adds the other writer to it.
abbrev founded : Db
founded = record db {
  namespaces = record { name = bytes "guild"; kind = bytes "organization" } ∷ [];
  namespace_members =
      record { namespace = bytes "guild"; user_id = 1; role = bytes "admin" }
      ∷ db.namespace_members;
}

abbrev joined_by_bob : Db
joined_by_bob = record founded {
  namespace_members =
      record { namespace = bytes "guild"; user_id = 2; role = bytes "write" }
      ∷ founded.namespace_members;
}

founds : create_namespace db (some author) (bytes "guild") ≡ ok founded
unfolding create_namespace require_user name_ok valid_name all any str_eq
founds = refl

none_yet : AllHaveAdmin db
none_yet n n_in = elim n_in [ ]

founded-AllHaveAdmin : AllHaveAdmin founded
founded-AllHaveAdmin =
    create_namespace-AllHaveAdmin db (some author) (bytes "guild") founded none_yet founds

joins :
    set_member founded (some author) (bytes "guild") (bytes "bob") (bytes "write")
    ≡ ok joined_by_bob
unfolding set_member require_user upsert_member select_one any update rank str_eq
joins = refl

set_member-AllHaveAdmin_example : AllHaveAdmin joined_by_bob
set_member-AllHaveAdmin_example =
    set_member-AllHaveAdmin founded (some author) (bytes "guild") (bytes "bob") (bytes "write")
      joined_by_bob founded-AllHaveAdmin joins

group_view_iff_example :
    In 1 (group_view server db (some author) 1) ↔ Shows server db (some author) 1 1
group_view_iff_example = group_view_iff server db (some author) 1 1

-- The author deletes a group with a link.
abbrev grouped : Db
grouped = record db {
  groups =
      record { id = 5; name = bytes "mine"; creator_id = 1; shared = true; created_at = 1 } ∷ [];
  group_repos = record { group_id = 5; repo_id = 1 } ∷ [];
}

deletes : delete_group grouped (some author) 5 ≡ ok db
unfolding delete_group group require_user select_one delete
deletes = refl

delete_group_lem_example :
    ((g : Group) × (u : Identity) × In g grouped.groups
      × (g.id ≡ 5)
      × (some author ≡ some u)
      × (g.creator_id ≡ u.id))
    × ((g : Group) → In g db.groups ↔ (In g grouped.groups × (g.id ≢ 5)))
    × ((l : GroupRepo) → In l db.group_repos ↔ (In l grouped.group_repos × (l.group_id ≢ 5)))
delete_group_lem_example = delete_group_lem grouped (some author) 5 db deletes
