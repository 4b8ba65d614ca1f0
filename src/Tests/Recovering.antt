-- ===== src/Tests/Recovering.antt =====
-- A push, and a merge that is killed behind its ref transaction; then a reconciliation.
use gitclub.Base.{
  ℕ, ◌≡◌, ◌↔◌, refl, Str, bytes, true, false, [], inl, inr, some, str_eq, has_prefix, contains_any,
  any, update, delete, In, if◌then◌else◌, ◌==◌, str_keys,
}
use gitclub.Git.{valid_branch}
use gitclub.Freshness.{store_tip, refresh}
use gitclub.Merge.World.{
  World, Marker, MarkerFile, usable, remove_marker, record_merge, refresh_world, reconcile_applied,
  reconcile_ledger, reconcile_marker, reconcile_content, reconcile_file, reconcile_files,
  reconcile_merges,
}
use gitclub.Merge.Invariant.{Inv, Recorded}
use gitclub.Merge.Loop.{Done}
use gitclub.Merge.Route.{committed, tx_applies, tx_apply, update_ref}
use gitclub.Merge.Safety.{marked, HasRow, unnumbered, marked-Inv}
use gitclub.Merge.History.{
  History, here, next, push, killed_behind_refs, recovery, IsCalm, reconcile_merges_succeeds,
}
use gitclub.Tests.Example.{
  repository, pull, world, server, calm_env, git, oid_base, oid_head, oid_merge, world-Inv,
}

abbrev marker : Marker
marker = record {
  pull_id = 1;
  base_branch = bytes "main";
  base_oid = oid_base;
  commit_oid = oid_merge;
  updated_at = 8;
}

-- A push has made another branch.
abbrev pushed : World
pushed = record world {
  refs = record world.refs {
    heads = λ b. if b == bytes "other" then some oid_head else world.refs.heads b;
  };
}

abbrev killed : World
killed = (update_ref committed pull oid_head marker (marked marker pushed)).0

row : HasRow repository marker pushed
row = (pull, inl refl, refl, refl)

alone : unnumbered marker pushed ≡ false
unfolding any
alone = refl

killed-History : History server repository world killed
killed-History =
    next (next here (push pushed.refs.heads))
      (killed_behind_refs marker committed pull oid_head row alone refl)

reconciled : Done (reconcile_merges calm_env git repository killed)
unfolding update_ref tx_applies tx_apply any update delete str_eq has_prefix contains_any
    valid_branch store_tip refresh usable remove_marker record_merge refresh_world reconcile_applied
    reconcile_ledger reconcile_marker reconcile_content reconcile_file reconcile_files
    reconcile_merges
reconciled = refl

recovery_example :
    let r = (reconcile_merges calm_env git repository killed).1 in
    (r.markers ≡ [])
    × (r.refs ≡ killed.refs)
    × ((id : ℕ) (oid : Str)
        → (killed.refs.ledger id ≡ some oid) ↔ Recorded repository r.db.pull_requests id oid)
recovery_example =
    recovery server repository world killed calm_env git world-Inv killed-History reconciled

calm : IsCalm calm_env
calm = record {
  glob = refl;
  read = λ n. refl;
  ledger = λ n. refl;
  update = λ n. refl;
  refresh = λ n. refl;
  remove = λ n. refl;
}

marked_usable : usable git marker ≡ true
unfolding usable valid_branch has_prefix contains_any
marked_usable = refl

marked_whole :
    (f : MarkerFile)
    → In f (marked marker world).markers
    → (m : Marker) × (f.content ≡ some m) × (usable git m ≡ true)
marked_whole f m = elim m [ inl e ↦ (marker, cc, marked_usable) | inr n ↦ elim n [ ] ]

marked_world-Inv : Inv repository (marked marker world)
marked_world-Inv = marked-Inv repository marker world world-Inv (pull, inl refl, refl, refl) refl

reconcile_merges_succeeds_example :
    Done (reconcile_merges calm_env git repository (marked marker world))
reconcile_merges_succeeds_example =
    reconcile_merges_succeeds calm_env git repository calm (marked marker world) marked_world-Inv
      marked_whole
