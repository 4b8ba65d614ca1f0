-- ===== src/Tests/Pushing.antt =====
-- The hook on a push of a new branch, and the default branch read from files.
use gitclub.Base.{
  ◌≡◌, ◌≢◌, ◌≤◌, ◌<◌, ◌↔◌, refl, Str, bytes, Bool, false, Option, List, [], ◌∷◌, ◌++◌, some, none,
  ok, All, length, if◌then◌else◌, ◌==◌, str_keys,
}
use gitclub.Schema.{Repo}
use gitclub.Hook.{Update, pre_receive, AllowedValue, pre_receive_iff}
use gitclub.StoredRefs.{Files, missing, regular, default_oid}
use gitclub.StoredRefs.Chain.{IsPlain, NamesWithin, default_oid-Names}
use gitclub.Access.{
  rank, role, repo, own_role, best_role, role_rows, namespace_roles, repo_roles, is_backup_user,
}
use gitclub.Base.{select, select_one, str_eq, all, has_prefix, inl}
use gitclub.Git.{oid_pattern}
use gitclub.Hook.{updates_of, check_quarantine, check_updates, check_update, check_default}
use gitclub.Hook.Handler.{git_hook, run_phase, Accepted, git_hook-Accepted}
use gitclub.Freshness.Stored.{UniqueRepos, with_tip, refresh-In}
use gitclub.Freshness.{row_with, store_tip, refresh}
use gitclub.Base.{In, update, sym, ◌∙◌, ◌⊎◌, inr}
use gitclub.Tests.Example.{repository, author, server, db, oid_base, oid_head}

abbrev new_branch : Update
new_branch = record {
  old = bytes "0000000000000000000000000000000000000000";
  new = oid_head;
  ref = bytes "refs/heads/topic";
}

abbrev is_ancestor : Str → Str → Bool
is_ancestor old new = old == oid_base

pre_receive_iff_example :
    (pre_receive is_ancestor repository none (some (some new_branch ∷ [])) ≡ ok tt) ↔ (
      (us : List (Option Update)) × (◌≡◌ {A = Option (List (Option Update))}
        (some (some new_branch ∷ []))
        (some us))
      × (0 < length us)
      × (length us ≤ 10000)
      × All (AllowedValue is_ancestor repository) us)
pre_receive_iff_example = pre_receive_iff is_ancestor repository (some (some new_branch ∷ []))

-- refs/heads/main is a loose file, and nothing else is there.
abbrev files : Files
files = record {
  is_symlink = λ ref. false;
  lstat_fails = λ ref. false;
  entry =
      λ ref. if ref == bytes "refs/heads/main" then regular (oid_base ++ bytes "\n") else missing;
}

plain : IsPlain files
plain ref = (refl, refl)

default_oid-Names_example :
    (default_oid files repository ≡ some oid_base)
    ↔ NamesWithin files 8 (bytes "refs/heads/" ++ repository.default_branch) oid_base
default_oid-Names_example = default_oid-Names files plain repository oid_base

let_through :
    (git_hook server db is_ancestor 1
      (some author)
      (bytes "pre-receive")
      none
      none
      9
      (some (some new_branch ∷ []))).0
    ≡ ok tt
unfolding git_hook run_phase pre_receive updates_of check_quarantine check_updates check_update
    check_default oid_pattern has_prefix all str_eq rank role repo own_role best_role role_rows
    namespace_roles repo_roles is_backup_user select select_one
let_through = refl

git_hook-Accepted_example :
    Accepted server db is_ancestor 1 (some author) (some (some new_branch ∷ []))
    × ((git_hook server db is_ancestor 1
          (some author)
          (bytes "pre-receive")
          none
          none
          9
          (some (some new_branch ∷ []))).1
        ≡ db)
git_hook-Accepted_example =
    git_hook-Accepted server db is_ancestor 1 (some author) none none 9
      (some (some new_branch ∷ [])) let_through

only_repository : (x : Repo) → In x db.repositories → x ≡ repository
only_repository x m = elim m [ inl e ↦ sym e | inr n ↦ elim n [ ] ]

unique_repos : UniqueRepos db
unique_repos x y x_in y_in e = only_repository x x_in ∙ sym (only_repository y y_in)

here : select_one (row_with 1) db.repositories ≡ some repository
unfolding select_one
here = refl

moved :
    In
      (record repository { default_oid = oid_head; updated_at = 9 })
      (refresh db repository (some oid_head) 9).0.repositories
unfolding refresh store_tip select_one update str_eq
moved = inl refl

refresh-In_example :
    (record repository { default_oid = oid_head; updated_at = 9 } ≡ with_tip repository oid_head 9)
    ⊎ ((repository.id ≢ repository.id)
        × In (record repository { default_oid = oid_head; updated_at = 9 }) db.repositories)
refresh-In_example =
    refresh-In db repository oid_head 9 repository unique_repos here
      (record repository { default_oid = oid_head; updated_at = 9 }) moved
