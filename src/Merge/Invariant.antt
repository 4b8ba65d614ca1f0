-- ===== src/Merge/Invariant.antt =====
-- What ties the table, the ledger and the marker files together, and that reconcileMerges keeps it
-- wherever it stops.
use gitclub.Base.{
  ℕ, ◌≡◌, ◌≢◌, ◌⊎◌, inl, inr, sym, subst, ◌∙◌, Str, List, [], Option, some, arith, nat_eq, str_keys,
  In,
}
use gitclub.Schema.{Repo, Pull, merged_state}
use gitclub.Freshness.{refresh, store_tip}
use gitclub.Merge.World.{Marker, MarkerFile, World, Env, refresh_world}

-- The table says that pull request id was merged as oid.
pub record Recorded (repo : Repo) (pulls : List Pull) (id : ℕ) (oid : Str) : Type 0 where
  pub pull : Pull
  pub stored : In pull pulls
  pub same_id : pull.id ≡ id
  pub same_repo : pull.repo_id ≡ repo.id
  pub is_merged : pull.state ≡ merged_state
  pub same_oid : pull.merged_oid ≡ oid

-- A marker file holds the intent to merge pull request id as oid.
pub record Intended (markers : List MarkerFile) (id : ℕ) (oid : Str) : Type 0 where
  pub file : MarkerFile
  pub marker : Marker
  pub stored : In file markers
  pub parsed : file.content ≡ some marker
  pub same_id : marker.pull_id ≡ id
  pub same_oid : marker.commit_oid ≡ oid

pub record Consistent (repo : Repo) (pulls : List Pull) (ledger : ℕ → Option Str)
    (markers : List MarkerFile) : Type 0 where
  -- id is the primary key
  pub unique_pulls : (p q : Pull) → In p pulls → In q pulls → p.id ≡ q.id → p ≡ q
  -- a pull request that is not merged has no merge commit
  pub unmerged_blank : (p : Pull) → In p pulls → p.state ≢ merged_state → p.merged_oid ≡ []
  -- a merge in the ledger is in the table, or a marker still tells of it
  pub no_lost_merge :
      (id : ℕ) (oid : Str)
      → ledger id ≡ some oid
      → Recorded repo pulls id oid ⊎ Intended markers id oid
  -- the table claims no merge that the ledger does not have
  pub no_false_merge :
      (p : Pull)
      → In p pulls
      → p.repo_id ≡ repo.id
      → p.state ≡ merged_state
      → ledger p.id ≡ some p.merged_oid
  -- a marker names a stored pull request, and stands in the file of its number
  pub markers_named :
      (f : MarkerFile) (m : Marker)
      → In f markers
      → f.content ≡ some m
      → (f.file_pull ≡ m.pull_id)
        × ((p : Pull) × In p pulls × (p.id ≡ m.pull_id) × (p.repo_id ≡ repo.id))
  -- a marker whose transaction is in the ledger tells of that commit
  pub markers_agree :
      (f : MarkerFile) (m : Marker)
      → In f markers
      → f.content ≡ some m
      → (oid : Str) → ledger m.pull_id ≡ some oid
      → oid ≡ m.commit_oid

abbrev pub Inv : Repo → World → Type 0
Inv repo w = Consistent repo w.db.pull_requests w.refs.ledger w.markers

pub Recorded-id :
    (r q : Repo) (pulls : List Pull) (id : ℕ) (oid : Str)
    → r.id ≡ q.id
    → Recorded r pulls id oid
    → Recorded q pulls id oid
Recorded-id r q pulls id oid e x = record {
  pull = x.pull;
  stored = x.stored;
  same_id = x.same_id;
  same_repo = x.same_repo ∙ e;
  is_merged = x.is_merged;
  same_oid = x.same_oid;
}

-- Only the identifier of the repository matters.
pub Inv-id : (r q : Repo) (w : World) → r.id ≡ q.id → Inv r w → Inv q w
Inv-id r q w e v = record {
  unique_pulls = v.unique_pulls;
  unmerged_blank = v.unmerged_blank;
  no_lost_merge = λ id oid l. elim (v.no_lost_merge id oid l) [
    | inl x ↦ inl (Recorded-id r q w.db.pull_requests id oid e x)
    | inr i ↦ inr i
  ];
  no_false_merge = λ p p_in h. v.no_false_merge p p_in (h ∙ sym e);
  markers_named = λ f m f_in c.
      let (n, (p, p_in, i, h)) = v.markers_named f m f_in c in (n, (p, p_in, i, h ∙ e));
  markers_agree = v.markers_agree;
}

pub refresh_pulls :
    (env : Env) (repo : Repo) (w : World)
    → (refresh_world env repo w).db.pull_requests ≡ w.db.pull_requests
unfolding refresh_world refresh store_tip
refresh_pulls env repo w = ground arith

pub refresh_world-Inv :
    (env : Env) (repo : Repo) (w : World) → Inv repo w → Inv repo (refresh_world env repo w)
unfolding refresh_world
refresh_world-Inv env repo w v =
    subst (λ ps. Consistent repo ps w.refs.ledger w.markers) (sym (refresh_pulls env repo w)) v
