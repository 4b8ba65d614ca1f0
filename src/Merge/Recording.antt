-- ===== src/Merge/Recording.antt =====
-- The UPDATE that records a merge keeps the table, the ledger and the markers together, where the
-- ledger has that merge.
use gitclub.Base.{
  ℕ, ◌≡◌, ◌≢◌, ◌⊎◌, inl, inr, refl, sym, ap, subst, ◌∙◌, Str, false, List, [], Option, some, arith,
  if◌then◌else◌, nat_eq, str_keys, update, In, In-update, update-In, Bool-cases,
}
use gitclub.Schema.{Repo, Pull, merged_state}
use gitclub.Merge.World.{Marker, MarkerFile, of_marker}
use gitclub.Merge.Invariant.{Recorded, Consistent}

ledger_functional :
    (ledger : ℕ → Option Str) {a b : ℕ} {x y : Str}
    → ledger a ≡ some x
    → ledger b ≡ some y
    → a ≡ b
    → x ≡ y
ledger_functional ledger p q e = cc (ap ledger e)

module _ (repo : Repo) (m : Marker) where
  abbrev pub merged_row : Pull → Pull
  merged_row p = record p {
    state = merged_state;
    merged_oid = m.commit_oid;
    updated_at = m.updated_at;
  }

  abbrev pub merged_pulls : List Pull → List Pull
  merged_pulls = update (of_marker repo m) merged_row

  -- A row after the update, seen from the row before.
  pub kept_row :
      (a : Pull) (pulls : List Pull)
      → In a pulls
      → (b : Pull) × In b (merged_pulls pulls)
        × (b.id ≡ a.id)
        × (b.repo_id ≡ a.repo_id)
        × (((a.id ≡ m.pull_id) × (b.state ≡ merged_state) × (b.merged_oid ≡ m.commit_oid))
            ⊎ ((b ≡ a) × (of_marker repo m a ≡ false)))
  kept_row a pulls a_in = elim (Bool-cases (of_marker repo m a)) [
    | inl t ↦ (
      merged_row a,
      subst (λ x. In x (merged_pulls pulls)) (rw t)
          (update-In (of_marker repo m) merged_row a pulls a_in),
      refl,
      refl,
      inl (ground arith, refl, refl),
    )
    | inr t ↦ (
      a,
      subst (λ x. In x (merged_pulls pulls)) (rw t)
          (update-In (of_marker repo m) merged_row a pulls a_in),
      refl,
      refl,
      inr (refl, t),
    )
  ]

  pub recorded_now :
      (p : Pull) (pulls : List Pull)
      → In p pulls
      → p.id ≡ m.pull_id
      → p.repo_id ≡ repo.id
      → Recorded repo (merged_pulls pulls) m.pull_id m.commit_oid
  recorded_now p pulls p_in e r = record {
    pull = b.0;
    stored = b.1;
    same_id = b.2 ∙ e;
    same_repo = b.3 ∙ r;
    is_merged = ground (arith, b.4);
    same_oid = ground (arith, b.4);
  }
    where
      b :
          (b : Pull) × In b (merged_pulls pulls)
          × (b.id ≡ p.id)
          × (b.repo_id ≡ p.repo_id)
          × (((p.id ≡ m.pull_id) × (b.state ≡ merged_state) × (b.merged_oid ≡ m.commit_oid))
              ⊎ ((b ≡ p) × (of_marker repo m p ≡ false)))
      b = kept_row p pulls p_in

  still_recorded :
      (pulls : List Pull) (ledger : ℕ → Option Str) (id : ℕ) (oid : Str)
      → ledger m.pull_id ≡ some m.commit_oid
      → ledger id ≡ some oid
      → Recorded repo pulls id oid
      → Recorded repo (merged_pulls pulls) id oid
  still_recorded pulls ledger id oid e l r =
      let (b, b_in, b_id, b_repo, c) = kept_row r.pull pulls r.stored in
      record {
        pull = b;
        stored = b_in;
        same_id = b_id ∙ r.same_id;
        same_repo = b_repo ∙ r.same_repo;
        is_merged = ground (arith, c);
        same_oid = elim c [
          | inl (i, _, o) ↦ o ∙ ledger_functional ledger e l (sym i ∙ r.same_id)
          | inr (same, _) ↦ ap (λ (x : Pull). x.merged_oid) same ∙ r.same_oid
        ];
      }

  in_ledger :
      (pulls : List Pull) (ledger : ℕ → Option Str)
      → ledger m.pull_id ≡ some m.commit_oid
      → ((p : Pull)
          → In p pulls
          → p.repo_id ≡ repo.id
          → p.state ≡ merged_state
          → ledger p.id ≡ some p.merged_oid)
      → (p : Pull) → In p (merged_pulls pulls)
      → p.repo_id ≡ repo.id
      → p.state ≡ merged_state
      → ledger p.id ≡ some p.merged_oid
  in_ledger pulls ledger e before p p_in r s =
      let (a, a_in, q) = In-update (of_marker repo m) merged_row p pulls p_in in
      elim (Bool-cases (of_marker repo m a)) [
        | inl t ↦
            let q' : p ≡ merged_row a = q ∙ (rw t) in
            subst (λ x. ledger x.id ≡ some x.merged_oid) (sym q') (ap ledger (ground arith) ∙ e)
        | inr t ↦
            let q' : p ≡ a = q ∙ (rw t) in
            subst (λ x. ledger x.id ≡ some x.merged_oid) (sym q')
              (before a a_in (subst (λ x. x.repo_id ≡ repo.id) q' r)
                (subst (λ x. x.state ≡ merged_state) q' s))
      ]

  abbrev updated_row : Pull → Pull
  updated_row p = if of_marker repo m p then merged_row p else p

  updated_id : (p : Pull) → (updated_row p).id ≡ p.id
  updated_id p = ground arith

  unique_rows :
      (pulls : List Pull)
      → ((p q : Pull) → In p pulls → In q pulls → p.id ≡ q.id → p ≡ q)
      → (p q : Pull) → In p (merged_pulls pulls)
      → In q (merged_pulls pulls)
      → p.id ≡ q.id
      → p ≡ q
  unique_rows pulls unique p q p_in q_in e =
      let (a, a_in, pa) = In-update (of_marker repo m) merged_row p pulls p_in in
      let (b, b_in, qb) = In-update (of_marker repo m) merged_row q pulls q_in in
      let ids : a.id ≡ b.id =
        sym (updated_id a)
        ∙ (ap (λ (x : Pull). x.id) (sym pa) ∙ (e ∙ (ap (λ (x : Pull). x.id) qb ∙ updated_id b))) in
      pa ∙ (ap updated_row (unique a b a_in b_in ids) ∙ sym qb)

  still_blank :
      (pulls : List Pull)
      → ((p : Pull) → In p pulls → p.state ≢ merged_state → p.merged_oid ≡ [])
      → (p : Pull) → In p (merged_pulls pulls)
      → p.state ≢ merged_state
      → p.merged_oid ≡ []
  still_blank pulls blank p p_in h =
      let (a, a_in, pa) = In-update (of_marker repo m) merged_row p pulls p_in in
      elim (Bool-cases (of_marker repo m a)) [
        | inl t ↦ let q : p ≡ merged_row a = pa ∙ rw t in absurd (h (ap (λ (x : Pull). x.state) q))
        | inr t ↦
            let q : p ≡ a = pa ∙ rw t in
            ap (λ (x : Pull). x.merged_oid) q
            ∙ blank a a_in (λ e. h (ap (λ (x : Pull). x.state) q ∙ e))
      ]

  pub update-Consistent :
      (pulls : List Pull) (ledger : ℕ → Option Str) (markers : List MarkerFile)
      → ledger m.pull_id ≡ some m.commit_oid
      → Consistent repo pulls ledger markers
      → Consistent repo (merged_pulls pulls) ledger markers
  update-Consistent pulls ledger markers e v = record {
    unique_pulls = unique_rows pulls v.unique_pulls;
    unmerged_blank = still_blank pulls v.unmerged_blank;
    no_lost_merge = λ id oid l. elim (v.no_lost_merge id oid l) [
      | inl r ↦ inl (still_recorded pulls ledger id oid e l r)
      | inr i ↦ inr i
    ];
    no_false_merge = in_ledger pulls ledger e v.no_false_merge;
    markers_named = λ f n f_in q.
        let (name, row) = v.markers_named f n f_in q in
        let (p, p_in, e, r) = row in
        let (b, b_in, b_id, b_repo, c) = kept_row p pulls p_in in
        (name, (b, b_in, b_id ∙ e, b_repo ∙ r));
    markers_agree = v.markers_agree;
  }
