-- ===== src/Merge/Loop.antt =====
-- reconcileMerges keeps the invariant wherever it stops, never touches a ref, and, if it does not
-- fail, leaves no marker.
use gitclub.Base.{
  ℕ, ◌≡◌, ◌≢◌, ◌↔◌, inl, inr, refl, sym, ap, subst, ◌∙◌, Str, List, [], ◌∷◌, some, arith, nat_eq,
  nat_beq, In, In-delete, nil_of_no_In, ok, err, if_cases,
}
use gitclub.Schema.{Repo, Pull}
use gitclub.Git.{Git}
use gitclub.Freshness.{refresh, store_tip}
use gitclub.Merge.World.{
  Refs, Marker, MarkerFile, World, Env, Step, remove_marker, record_merge, refresh_world,
  reconcile_file, and_then, reconcile_files, reconcile_merges,
}
use gitclub.Merge.Invariant.{Recorded, Intended, Inv, refresh_pulls}
use gitclub.Merge.Recording.{kept_row}
use gitclub.Merge.Reconcile.{Known, refreshed, file_cases, reconcile_file-Inv}

-- What every round leaves: the refs, each row of the table with its number, and no new marker.
pub record Advance (w w' : World) : Type 0 where
  pub same_refs : w'.refs ≡ w.refs
  pub rows :
      (p : Pull)
      → In p w.db.pull_requests
      → (q : Pull) × In q w'.db.pull_requests × (q.id ≡ p.id) × (q.repo_id ≡ p.repo_id)
  pub fewer : (f : MarkerFile) → In f w'.markers → In f w.markers
  pub same_reviews : w'.db.reviews ≡ w.db.reviews

pub Advance-refl : (w : World) → Advance w w
Advance-refl w = record {
  same_refs = refl;
  rows = λ p m. (p, m, refl, refl);
  fewer = λ f m. m;
  same_reviews = refl;
}

pub Advance-trans : {u v w : World} → Advance u v → Advance v w → Advance u w
Advance-trans a b = record {
  same_refs = b.same_refs ∙ a.same_refs;
  rows = λ p m.
      let (q, q_in, e, r) = a.rows p m in
      let (q', q_in', e', r') = b.rows q q_in in (q', q_in', e' ∙ e, r' ∙ r);
  fewer = λ f m. a.fewer f (b.fewer f m);
  same_reviews = b.same_reviews ∙ a.same_reviews;
}

removed-Advance : (n : ℕ) (w : World) → Advance w (remove_marker n w)
unfolding remove_marker
removed-Advance n w = record {
  same_refs = refl;
  rows = λ p m. (p, m, refl, refl);
  fewer = λ f m. (In-delete _ f w.markers m).0;
  same_reviews = refl;
}

recorded-Advance : (repo : Repo) (m : Marker) (w : World) → Advance w (record_merge repo m w)
unfolding record_merge
recorded-Advance repo m w = record {
  same_refs = refl;
  rows = λ p p_in.
      let (b, b_in, e, r, _) = kept_row repo m p w.db.pull_requests p_in in (b, b_in, e, r);
  fewer = λ f f_in. f_in;
  same_reviews = refl;
}

refresh_reviews :
    (env : Env) (repo : Repo) (w : World) → (refresh_world env repo w).db.reviews ≡ w.db.reviews
unfolding refresh_world refresh store_tip
refresh_reviews env repo w = ground arith

refreshed-Advance : (env : Env) (repo : Repo) (w : World) → Advance w (refresh_world env repo w)
unfolding refresh_world
refreshed-Advance env repo w = record {
  same_refs = refl;
  rows = λ p p_in. (p, subst (In p) (sym (refresh_pulls env repo w)) p_in, refl, refl);
  fewer = λ f f_in. f_in;
  same_reviews = refresh_reviews env repo w;
}

-- A round that does not fail has removed its file.
abbrev Cleared : MarkerFile → Step → Type 0
Cleared f (ok _, w) = (g : MarkerFile) → In g w.markers → g.file_pull ≢ f.file_pull
Cleared f (err _, w) = Unit

removed-Cleared : (f : MarkerFile) (w : World) → Cleared f (ok tt, remove_marker f.file_pull w)
unfolding remove_marker
removed-Cleared f w g m e =
    ground (arith, In-delete (λ (h : MarkerFile). nat_beq h.file_pull f.file_pull) g w.markers m)

abbrev pub Done : Step → Type 0
Done r = r.0 ≡ ok tt

module _ (env : Env) (git : Git) (repo : Repo) where
  pub reconcile_file-Advance :
      (f : MarkerFile) (w : World) → Advance w (reconcile_file env git repo f w).1
  reconcile_file-Advance f w =
      file_cases env git repo (λ r. Advance w r.1) f w (λ e. Advance-refl w)
        (λ m c e. removed-Advance f.file_pull w) (λ m c e x. recorded-Advance repo m w)
        (λ m c e x. both m) (λ m c e. Advance-trans (both m) (removed-Advance f.file_pull _))
    where
      both : (m : Marker) → Advance w (refreshed env git repo m w)
      both m =
          Advance-trans (recorded-Advance repo m w)
            (refreshed-Advance env repo (record_merge repo m w))

  reconcile_file-Cleared :
      (f : MarkerFile) (w : World) → Cleared f (reconcile_file env git repo f w)
  reconcile_file-Cleared f w =
      file_cases env git repo (Cleared f) f w (λ e. tt) (λ m c e. removed-Cleared f w)
        (λ m c e x. tt) (λ m c e x. tt) (λ m c e. removed-Cleared f _)

  Known-Advance :
      {u w : World}
      → Advance u w
      → (f : MarkerFile) → Known repo u.db.pull_requests f
      → Known repo w.db.pull_requests f
  Known-Advance a f known m c =
      let (name, row) = known m c in
      let (p, p_in, e, r) = row in
      let (q, q_in, e', r') = a.rows p p_in in (name, (q, q_in, e' ∙ e, r' ∙ r))

  abbrev AllKnown : List MarkerFile → World → Type 0
  AllKnown files w = (f : MarkerFile) → In f files → Known repo w.db.pull_requests f

  and_then-Inv :
      (r : Step) (next : World → Step)
      → Inv repo r.1
      → (Inv repo r.1 → Inv repo (next r.1).1)
      → Inv repo (and_then r next).1
  and_then-Inv (ok _, w) next v h = h v
  and_then-Inv (err _, w) next v h = v

  reconcile_files-Inv :
      (files : List MarkerFile) (w : World)
      → AllKnown files w
      → Inv repo w
      → Inv repo (reconcile_files env git repo files w).1
  unfolding reconcile_files
  reconcile_files-Inv [] w known v = v
  reconcile_files-Inv (f ∷ fs) w known v =
      and_then-Inv (reconcile_file env git repo f w) (reconcile_files env git repo fs)
        (reconcile_file-Inv env git repo f w (known f (inl refl)) v)
        (reconcile_files-Inv fs _
          (λ g g_in. Known-Advance (reconcile_file-Advance f w) g (known g (inr g_in))))

  and_then-Advance :
      (w : World) (r : Step) (next : World → Step)
      → Advance w r.1
      → Advance r.1 (next r.1).1
      → Advance w (and_then r next).1
  and_then-Advance w (ok _, u) next a b = Advance-trans a b
  and_then-Advance w (err _, u) next a b = a

  reconcile_files-Advance :
      (files : List MarkerFile) (w : World) → Advance w (reconcile_files env git repo files w).1
  unfolding reconcile_files
  reconcile_files-Advance [] w = Advance-refl w
  reconcile_files-Advance (f ∷ fs) w =
      and_then-Advance w (reconcile_file env git repo f w) (reconcile_files env git repo fs)
        (reconcile_file-Advance f w) (reconcile_files-Advance fs _)

  pub and_then-Done :
      (r : Step) (next : World → Step)
      → Done (and_then r next)
      → Done r × (and_then r next ≡ next r.1)
  and_then-Done (ok _, w) next d = (refl, refl)
  and_then-Done (err _, w) next d = cc

  Cleared-Done :
      (f : MarkerFile) (r : Step)
      → Cleared f r
      → Done r
      → (g : MarkerFile) → In g r.1.markers
      → g.file_pull ≢ f.file_pull
  Cleared-Done f (ok _, w) c d = c
  Cleared-Done f (err _, w) c d = cc

  reconcile_files-Cleared :
      (files : List MarkerFile) (w : World)
      → Done (reconcile_files env git repo files w)
      → (f g : MarkerFile) → In f files
      → In g (reconcile_files env git repo files w).1.markers
      → g.file_pull ≢ f.file_pull
  unfolding reconcile_files
  reconcile_files-Cleared [] w d f g f_in g_in = elim f_in [ ]
  reconcile_files-Cleared (x ∷ xs) w d f g f_in g_in =
      let r = reconcile_file env git repo x w in
      let (first, same) = and_then-Done r (reconcile_files env git repo xs) d in
      let g_in' : In g (reconcile_files env git repo xs r.1).1.markers =
        subst (λ (t : Step). In g t.1.markers) same g_in in
      elim f_in [
        | inl e ↦
            subst (λ (y : MarkerFile). g.file_pull ≢ y.file_pull) e
              (Cleared-Done x r (reconcile_file-Cleared x w) first g
                ((reconcile_files-Advance xs r.1).fewer g g_in'))
        | inr m ↦ reconcile_files-Cleared xs r.1 (ap (λ (t : Step). t.0) (sym same) ∙ d) f g m g_in'
      ]

  -- Wherever reconcileMerges stops, for whatever reason, the invariant holds.
  pub reconcile_merges-Inv : (w : World) → Inv repo w → Inv repo (reconcile_merges env git repo w).1
  unfolding reconcile_merges
  reconcile_merges-Inv w v =
      if_cases (λ (r : Step). Inv repo r.1) env.glob_fails _ _ v
        (reconcile_files-Inv w.markers w (λ f f_in m c. v.markers_named f m f_in c) v)

  -- It never moves a ref, keeps every row, and makes no marker.
  pub reconcile_merges-Advance : (w : World) → Advance w (reconcile_merges env git repo w).1
  unfolding reconcile_merges
  reconcile_merges-Advance w =
      if_cases (λ (r : Step). Advance w r.1) env.glob_fails _ _ (Advance-refl w)
        (reconcile_files-Advance w.markers w)

  all_cleared :
      (w : World)
      → Done (reconcile_files env git repo w.markers w)
      → (reconcile_files env git repo w.markers w).1.markers ≡ []
  all_cleared w d = nil_of_no_In _ λ g g_in.
      reconcile_files-Cleared w.markers w d g g ((reconcile_files-Advance w.markers w).fewer g g_in)
        g_in refl

  reconcile_merges_clears :
      (w : World)
      → Done (reconcile_merges env git repo w)
      → (reconcile_merges env git repo w).1.markers ≡ []
  unfolding reconcile_merges
  reconcile_merges_clears w =
      if_cases (λ (r : Step). Done r → r.1.markers ≡ []) env.glob_fails _ _ (λ d. cc)
        (all_cleared w)

  no_Intended : (id : ℕ) (oid : Str) → ¬ Intended [] id oid
  no_Intended id oid i = elim i.stored [ ]

  -- From a consistent state, a reconcileMerges that does not fail has left no marker, no ref moved,
  -- and a pull request is recorded as merged exactly if the ledger has its merge, as the same commit.
  pub reconcile_merges_complete :
      (w : World)
      → Inv repo w
      → Done (reconcile_merges env git repo w)
      → let u = (reconcile_merges env git repo w).1 in
        (u.markers ≡ [])
        × (u.refs ≡ w.refs)
        × ((id : ℕ) (oid : Str)
            → (w.refs.ledger id ≡ some oid) ↔ Recorded repo u.db.pull_requests id oid)
  reconcile_merges_complete w v d =
      let u = (reconcile_merges env git repo w).1 in
      let v' = reconcile_merges-Inv w v in
      let refs = (reconcile_merges-Advance w).same_refs in
      let cleared = reconcile_merges_clears w d in
      (
        cleared,
        refs,
        λ id oid. (
          λ l. elim (v'.no_lost_merge id oid (ap (λ (r : Refs). r.ledger id) refs ∙ l)) [
            | inl r ↦ r
            | inr i ↦ absurd (no_Intended id oid (subst (λ ms. Intended ms id oid) cleared i))
          ],
          λ r.
              sym (ap (λ (r : Refs). r.ledger id) refs)
              ∙ (sym (ap u.refs.ledger r.same_id)
                  ∙ (v'.no_false_merge r.pull r.stored r.same_repo r.is_merged
                      ∙ ap some r.same_oid)),
        ),
      )
