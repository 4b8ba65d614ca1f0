-- ===== src/Merge/Success.antt =====
-- What a merge request does as a whole: it keeps the invariant, and a success means that the branches
-- were as inspected, moved by one transaction, and the merge is recorded.
use gitclub.Base.{
  ◌≡◌, inl, inr, ap, Str, Bool, true, false, [], Option, none, some, arith, nat_eq, str_eq_sound,
  str_keys, any, ok, err, ApiError, Bool-cases,
}
use gitclub.Schema.{Repo, Pull}
use gitclub.Merge.World.{Marker, World}
use gitclub.Merge.Invariant.{Recorded, Inv}
use gitclub.Merge.Loop.{reconcile_merges-Inv, reconcile_merges_complete}
use gitclub.Merge.Route.{
  Fate, committed, committed_unreported, not_committed, MergeEnv, Disk, stores, clears, leaves_torn,
  leaves_whole, durable_marker, with_marker, names, tx_applies, tx_apply, update_ref, conclude,
  commit_merge, Reply, Merged,
}
use gitclub.Merge.Torn.{torn, torn-Inv}
use gitclub.Merge.Safety.{
  marked, HasRow, unnumbered, landed, marked-Inv, update_ref-Inv, landed-Inv, ledger_self,
}
use gitclub.Merge.Answers.{conclude_world, conclude-Done, no_false_success}

-- The effect of a merge: the branches were as inspected, one transaction moved the base and made the
-- ledger's entry, and the table has the merge.
pub record Effect (repo : Repo) (d : Pull) (head : Str) (m : Marker) (w u : World) (a : Merged)
    : Type 0 where
  pub head_held : w.refs.heads d.head_branch ≡ some head
  pub base_held : w.refs.heads m.base_branch ≡ some m.base_oid
  pub moved : u.refs ≡ tx_apply m w.refs
  pub cleared : u.markers ≡ []
  pub recorded : Recorded repo u.db.pull_requests m.pull_id m.commit_oid
  pub answered : a.commit_oid ≡ m.commit_oid

names_sound : (o : Option Str) (x : Str) → names o x ≡ true → o ≡ some x
names_sound none x h = cc
names_sound (some y) x h = ap some (str_eq_sound y x h)

module _ (me : MergeEnv) (repo : Repo) (d : Pull) (head : Str) (m : Marker) (w : World)
    (v : Inv repo w) (empty : w.markers ≡ []) (row : HasRow repo m w)
    (fresh : w.refs.ledger m.pull_id ≡ none) where
  alone : unnumbered m w ≡ false
  unfolding any
  alone = rw empty

  concluded-Inv : (r : World × Bool) → Inv repo r.0 → Inv repo (conclude me repo m r).1
  concluded-Inv (u, reported) i =
      rw (conclude_world me repo m u reported) (reconcile_merges-Inv me.recovery me.git repo u i)

  durable_cases :
      (P : Reply → Type 0)
      → ((e : ApiError) (u : World) → Inv repo u → P (err e, u))
      → P (conclude me repo m (update_ref me.fate d head m (marked m w)))
      → P (commit_merge me repo d head m w)
  unfolding commit_merge durable_marker with_marker
  durable_cases P refused written = elim (Bool-cases (unnumbered m w)) [
    | inl t ↦ rw t (refused _ w v)
    | inr t ↦ rw t (by_disk me.disk)
  ]
    where
      by_disk :
          (disk : Disk)
          → P (
              with_marker me repo d head m (elim disk [
                | stores ↦ (true, marked m w)
                | clears ↦ (false, w)
                | leaves_torn ↦ (false, torn m.pull_id w)
                | leaves_whole ↦ (false, marked m w)
              ]))
      by_disk stores = written
      by_disk clears = refused _ w v
      by_disk leaves_torn = refused _ (torn m.pull_id w) (torn-Inv repo m.pull_id w v)
      by_disk leaves_whole = refused _ (marked m w) (marked-Inv repo m w v row fresh)

  pub commit_merge-Inv : Inv repo (commit_merge me repo d head m w).1
  commit_merge-Inv =
      durable_cases (λ r. Inv repo r.1) (λ e u i. i)
        (concluded-Inv _ (update_ref-Inv repo m w v row alone fresh me.fate d head))

  landed-Effect :
      (a : Merged) (reported : Bool)
      → tx_applies d head m w.refs ≡ true
      → (conclude me repo m (landed repo m w v row alone fresh, reported)).0 ≡ ok a
      → Effect repo d head m w
          (conclude me repo m (landed repo m w v row alone fresh, reported)).1
          a
  unfolding tx_applies
  landed-Effect a reported t h =
      let u = landed repo m w v row alone fresh in
      let i = landed-Inv repo m w v row alone fresh in
      let (done, c, p, o) = conclude-Done me repo m u i a reported h in
      let (cleared, refs, iff) = reconcile_merges_complete me.recovery me.git repo u i done in
      rw (conclude_world me repo m u reported) (record {
        head_held = names_sound (w.refs.heads d.head_branch) head (ground arith);
        base_held = names_sound (w.refs.heads m.base_branch) m.base_oid (ground arith);
        moved = refs;
        cleared = cleared;
        recorded = (iff m.pull_id m.commit_oid).0 (ledger_self repo m w v row alone fresh);
        answered = c;
      })

  marked_refused : (a : Merged) → (conclude me repo m (marked m w, false)).0 ≡ ok a → ⊥
  marked_refused a h =
      no_false_success me repo m (marked m w) (marked-Inv repo m w v row fresh) a (rw empty) fresh h

  abbrev pub Good : Reply → Type 0
  Good r = (a : Merged) → r.0 ≡ ok a → Effect repo d head m w r.1 a

  update_ref_effect :
      (fate : Fate) → Good (conclude me repo m (update_ref fate d head m (marked m w)))
  unfolding update_ref
  update_ref_effect committed = elim (Bool-cases (tx_applies d head m w.refs)) [
    | inl t ↦ rw (t, update_ref) (λ a h. landed-Effect a true t h)
    | inr t ↦ rw (t, update_ref) (λ a h. absurd (marked_refused a h))
  ]
  update_ref_effect committed_unreported = elim (Bool-cases (tx_applies d head m w.refs)) [
    | inl t ↦ rw (t, update_ref) (λ a h. landed-Effect a false t h)
    | inr t ↦ rw (t, update_ref) (λ a h. absurd (marked_refused a h))
  ]
  update_ref_effect not_committed = λ a h. absurd (marked_refused a h)

  pub commit_merge-Effect : Good (commit_merge me repo d head m w)
  commit_merge-Effect = durable_cases Good (λ e u i a h. cc) (update_ref_effect me.fate)
