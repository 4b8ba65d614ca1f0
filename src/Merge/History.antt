-- ===== src/Merge/History.antt =====
-- Histories of one repository: pushes, openings, edits, reviews, merge requests that run to their end or are killed on the way,
-- and reconciliations, in any order. The repository lock makes the requests of this list sequential;
-- pushes do not take it, and stand between any two steps.
use gitclub.Base.{
  ℕ, ◌≡◌, ◌<◌, ◌↔◌, inl, inr, refl, sym, subst, Str, true, false, List, [], ◌∷◌, Option, none, some,
  arith, ◌==◌, nat_eq, str_eq_refl, str_keys, In, select_one-In, ok, err,
}
use gitclub.Schema.{Db, Repo, Pull, Identity}
use gitclub.Access.{Server}
use gitclub.Git.{Git}
use gitclub.Pulls.Mergeable.{UniqueReviews}
use gitclub.Git.{Tips}
use gitclub.Pulls.Discussion.{Edit, Opinion, edit_pull, review_pull}
use gitclub.Pulls.Opening.{Proposal, open_pull}
use gitclub.Merge.Opening.{open_pull-Inv}
use gitclub.Merge.Editing.{edit_pull-Inv, review_pull-Inv}
use gitclub.Merge.World.{
  Refs, Marker, MarkerFile, World, Env, Step, usable, reconcile_applied, reconcile_ledger,
  reconcile_marker, reconcile_content, reconcile_file, and_then, reconcile_files, reconcile_merges,
}
use gitclub.Merge.Invariant.{Recorded, Inv, Inv-id}
use gitclub.Merge.Loop.{
  reconcile_file-Advance, reconcile_merges-Inv, reconcile_merges_complete, Done,
}
use gitclub.Merge.Route.{MergeEnv, Fate, update_ref}
use gitclub.Merge.Torn.{torn, torn-Inv}
use gitclub.Merge.Safety.{marked, HasRow, unnumbered, marked-Inv, update_ref-Inv}
use gitclub.Merge.Endpoint.{merge_request, merge_request-Inv}
use gitclub.Access.Guard.{row_of}

row_id : (db : Db) (id : ℕ) (r : Repo) → row_of db id ≡ some r → r.id ≡ id
row_id db id r h =
    let (_, t) = select_one-In (λ (x : Repo). x.id == id) db.repositories r h in ground arith

module _ (s : Server) (repo : Repo) where
  pub data Happens (w : World) : World → Type 0 where
    -- A push moves branches; references under refs/gitclub/ cannot be pushed.
    push :
        (heads : Str → Option Str) → Happens w (record w { refs = record w.refs { heads = heads } })
    -- reconcileMerges runs for some request, and may stop anywhere.
    reconcile : (env : Env) (git : Git) → Happens w (reconcile_merges env git repo w).1
    -- A request to merge, run to its reply.
    merge :
        (before : Env) (me : MergeEnv) (u : Option Identity) (id : ℕ) (expected : Str) (r : Repo)
        → UniqueReviews w.db
        → row_of w.db repo.id ≡ some r
        → Happens w (merge_request before me s repo.id u id expected w).1
    -- A pull request is opened, edited, or reviewed.
    opening :
        (git : Git) (u : Identity) (b : Proposal) (changed : Tips → Option Str) (now : ℕ) (p : Pull)
        (db : Db)
        → ((q : Pull) → In q w.db.pull_requests → q.id < w.db.next_pull)
        → open_pull git w.db repo u b changed now ≡ ok (p, db)
        → Happens w (record w { db = db })
    edit :
        (u : Identity) (d : Pull) (e : Edit) (now : ℕ) (db : Db)
        → In d w.db.pull_requests
        → edit_pull s w.db repo u d e now ≡ ok db
        → Happens w (record w { db = db })
    review :
        (u : Identity) (d : Pull) (tips : Tips) (o : Opinion) (id now : ℕ) (db : Db)
        → review_pull w.db u d tips o id now ≡ ok db
        → Happens w (record w { db = db })
    -- The process is killed while it writes the marker, and leaves a file that is no marker.
    killed_in_write : (n : ℕ) → Happens w (torn n w)
    -- The process is killed between the marker and the ref transaction.
    killed_before_refs :
        (m : Marker) → HasRow repo m w → w.refs.ledger m.pull_id ≡ none → Happens w (marked m w)
    -- It is killed behind the run of update-ref, before anything is recorded.
    killed_behind_refs :
        (m : Marker) (fate : Fate) (d : Pull) (head : Str)
        → HasRow repo m w
        → unnumbered m w ≡ false
        → w.refs.ledger m.pull_id ≡ none
        → Happens w (update_ref fate d head m (marked m w)).0

  pub data History (w : World) : World → Type 0 where
    here : History w w
    next : {u v : World} → History w u → Happens u v → History w v

  push-Inv :
      (w : World) (heads : Str → Option Str)
      → Inv repo w
      → Inv repo (record w { refs = record w.refs { heads = heads } })
  push-Inv w heads v = record {
    unique_pulls = v.unique_pulls;
    unmerged_blank = v.unmerged_blank;
    no_lost_merge = v.no_lost_merge;
    no_false_merge = v.no_false_merge;
    markers_named = v.markers_named;
    markers_agree = v.markers_agree;
  }

  Happens-Inv : {w u : World} → Happens w u → Inv repo w → Inv repo u
  Happens-Inv {w} (push heads) v = push-Inv w heads v
  Happens-Inv {w} (reconcile env git) v = reconcile_merges-Inv env git repo w v
  Happens-Inv {w} (merge before me u id expected r unique row) v =
      let e : r.id ≡ repo.id = row_id w.db repo.id r row in
      Inv-id r repo (merge_request before me s repo.id u id expected w).1 e (
        merge_request-Inv before me s repo.id u id expected w unique r row
          (Inv-id repo r w (sym e) v))
  Happens-Inv {w} (opening git u b changed now p db below h) v =
      (open_pull-Inv git repo u b changed now w p db v below h).0
  Happens-Inv {w} (edit u d e now db d_in h) v = (edit_pull-Inv s repo u d e now w db v d_in h).0
  Happens-Inv {w} (review u d tips o id now db h) v =
      review_pull-Inv repo u d tips o id now w db v h
  Happens-Inv {w} (killed_in_write n) v = torn-Inv repo n w v
  Happens-Inv {w} (killed_before_refs m row fresh) v = marked-Inv repo m w v row fresh
  Happens-Inv {w} (killed_behind_refs m fate d head row alone fresh) v =
      update_ref-Inv repo m w v row alone fresh fate d head

  pub History-Inv : {w u : World} → Inv repo w → History w u → Inv repo u
  History-Inv v here = v
  History-Inv v (next h e) = Happens-Inv e (History-Inv v h)

  -- After any history of pushes, openings, edits, reviews, reconciliations, merge requests and kills of the
  -- process from a consistent state, a reconciliation that does not fail leaves no marker, moves no ref,
  -- and a pull request is recorded as merged exactly if its ref transaction was committed, as the same
  -- commit.
  pub recovery :
      (w u : World) (env : Env) (git : Git)
      → Inv repo w
      → History w u
      → Done (reconcile_merges env git repo u)
      → let r = (reconcile_merges env git repo u).1 in
        (r.markers ≡ [])
        × (r.refs ≡ u.refs)
        × ((id : ℕ) (oid : Str)
            → (u.refs.ledger id ≡ some oid) ↔ Recorded repo r.db.pull_requests id oid)
  recovery w u env git v h d = reconcile_merges_complete env git repo u (History-Inv v h) d

-- Nothing fails.
pub record IsCalm (env : Env) : Type 0 where
  pub glob : env.glob_fails ≡ false
  pub read : (n : ℕ) → env.read_fails n ≡ false
  pub ledger : (n : ℕ) → env.ledger_fails n ≡ false
  pub update : (n : ℕ) → env.update_fails n ≡ false
  pub refresh : (n : ℕ) → env.refresh_fails n ≡ false
  pub remove : (n : ℕ) → env.remove_fails n ≡ false

-- A whole marker that agrees with the ledger.
abbrev pub Whole : Git → Refs → MarkerFile → Type 0
Whole git refs f =
    (m : Marker) × (f.content ≡ some m)
    × (usable git m ≡ true)
    × ((oid : Str) → refs.ledger m.pull_id ≡ some oid → oid ≡ m.commit_oid)

module _ (env : Env) (git : Git) (repo : Repo) (calm : IsCalm env) where
  applied_ok : (n : ℕ) (m : Marker) (w : World) → Done (reconcile_applied env repo n m w)
  unfolding reconcile_applied
  applied_ok n m w = simp (calm.update, calm.refresh, calm.remove)

  ledger_ok :
      (n : ℕ) (m : Marker) (w : World) (o : Option Str)
      → ((oid : Str) → o ≡ some oid → oid ≡ m.commit_oid)
      → Done (reconcile_ledger env repo n m w o)
  unfolding reconcile_ledger
  ledger_ok n m w none h = simp calm.remove
  ledger_ok n m w (some oid) h = rw (h oid refl, str_eq_refl m.commit_oid) (applied_ok n m w)

  content_ok :
      (n : ℕ) (m : Marker) (w : World) (o : Option Marker)
      → o ≡ some m
      → usable git m ≡ true
      → ((oid : Str) → w.refs.ledger m.pull_id ≡ some oid → oid ≡ m.commit_oid)
      → Done (reconcile_content env git repo n o w)
  unfolding reconcile_content reconcile_marker
  content_ok n m w o c u h =
      rw (c, reconcile_content)
        (rw u (simp calm.ledger (ledger_ok n m w (w.refs.ledger m.pull_id) h)))

  file_ok :
      (f : MarkerFile) (w : World) → Whole git w.refs f → Done (reconcile_file env git repo f w)
  unfolding reconcile_file
  file_ok f w (m, c, u, h) = simp calm.read (content_ok f.file_pull m w f.content c u h)

  then_ok : (r : Step) (rest : World → Step) → Done r → Done (rest r.1) → Done (and_then r rest)
  then_ok (ok _, w) rest d e = e
  then_ok (err _, w) rest d e = cc

  files_ok :
      (fs : List MarkerFile) (w : World)
      → ((f : MarkerFile) → In f fs → Whole git w.refs f)
      → Done (reconcile_files env git repo fs w)
  unfolding reconcile_files
  files_ok [] w whole = refl
  files_ok (f ∷ fs) w whole =
      then_ok (reconcile_file env git repo f w) (reconcile_files env git repo fs)
        (file_ok f w (whole f (inl refl)))
        (files_ok fs _ λ g g_in.
          subst (λ r. Whole git r g) (sym (reconcile_file-Advance env git repo f w).same_refs)
            (whole g (inr g_in)))

  -- Where nothing fails and every marker was written whole, a consistent state is always reconciled.
  pub reconcile_merges_succeeds :
      (w : World)
      → Inv repo w
      → ((f : MarkerFile)
          → In f w.markers
          → (m : Marker) × (f.content ≡ some m) × (usable git m ≡ true))
      → Done (reconcile_merges env git repo w)
  unfolding reconcile_merges
  reconcile_merges_succeeds w v whole = simp calm.glob (
      files_ok w.markers w
        λ f f_in. let (m, c, u) = whole f f_in in (m, c, u, v.markers_agree f m f_in c))
