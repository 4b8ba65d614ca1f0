-- ===== src/Tests/Merging.antt =====
-- The merge request on the example, and the blockers of its pull request.
use gitclub.Base.{
  ◌≡◌, ◌↔◌, refl, [], some, ok, str_eq, has_prefix, contains, contains_any, trim_left, trim_right,
  trim_space, all, any, select, select_one, update, delete,
}
use gitclub.Schema.{merged_state}
use gitclub.Access.{
  rank, role, repo, own_role, best_role, role_rows, namespace_roles, repo_roles, is_backup_user,
}
use gitclub.Access.Guard.{row_of}
use gitclub.Base.Sorting.{sort, insert}
use gitclub.Freshness.{store_tip, refresh}
use gitclub.Git.{oid_pattern, valid_branch, checked_oid, resolve, pull_tips}
use gitclub.Pulls.Blockers.{
  pull_blockers, review_rows, is_writer, judge, scan, first_line, review_blockers,
}
use gitclub.Pulls.Mergeable.{MayMerge, pull_blockers-MayMerge}
use gitclub.Merge.World.{
  usable, remove_marker, record_merge, refresh_world, reconcile_applied, reconcile_ledger,
  reconcile_marker, reconcile_content, reconcile_file, reconcile_files, reconcile_merges,
}
use gitclub.Merge.Invariant.{Inv}
use gitclub.Merge.Route.{
  Merged, durable_marker, tx_applies, tx_apply, update_ref, pull_request, reply_merged,
  reply_ambiguous, conclude, with_marker, commit_merge, merge_unblocked, merge_route,
}
use gitclub.Merge.Endpoint.{
  guard_writer, merge_pull, merge_request, MergeMade, merge_request-Inv, merge_request-Effect,
}
use gitclub.Tests.Example.{
  repository, pull, author, world, server, calm_env, merge_env, git, oid_base, oid_head, oid_merge,
  unique_reviews, world-Inv,
}

pull_blockers-MayMerge_example :
    ((pull_blockers server world.db git repository pull oid_base oid_head).0 ≡ [])
    ↔ MayMerge server world.db repository pull oid_head git oid_base
pull_blockers-MayMerge_example =
    pull_blockers-MayMerge server world.db repository pull oid_head unique_reviews git oid_base

stored : row_of world.db 1 ≡ some repository
unfolding select_one
stored = refl

merge_request-Inv_example :
    Inv repository (merge_request calm_env merge_env server 1 (some author) 1 oid_head world).1
merge_request-Inv_example =
    merge_request-Inv calm_env merge_env server 1 (some author) 1 oid_head world unique_reviews
      repository stored world-Inv

-- The run of update-ref was killed behind its commit, and the request still finds the merge.
abbrev merged : Merged
merged = record {
  pull = record pull { state = merged_state; merged_oid = oid_merge; updated_at = 8 };
  commit_oid = oid_merge;
}

answer : (merge_request calm_env merge_env server 1 (some author) 1 oid_head world).0 ≡ ok merged
unfolding merge_request repo role own_role best_role role_rows namespace_roles repo_roles rank
    is_backup_user select select_one any all update delete sort insert str_eq has_prefix contains
    contains_any trim_left trim_right trim_space oid_pattern valid_branch checked_oid resolve
    pull_tips review_rows is_writer judge scan first_line review_blockers pull_blockers store_tip
    refresh usable remove_marker record_merge refresh_world reconcile_applied reconcile_ledger
    reconcile_marker reconcile_content reconcile_file reconcile_files reconcile_merges
    durable_marker tx_applies tx_apply update_ref pull_request reply_merged reply_ambiguous conclude
    with_marker commit_merge merge_unblocked merge_route guard_writer merge_pull
answer = refl

merge_request-Effect_example :
    MergeMade calm_env merge_env server 1
      (some author)
      1
      oid_head
      world
      unique_reviews
      repository
      stored
      world-Inv
      (merge_request calm_env merge_env server 1 (some author) 1 oid_head world).1
      merged
merge_request-Effect_example =
    merge_request-Effect calm_env merge_env server 1 (some author) 1 oid_head world unique_reviews
      repository stored world-Inv merged answer
