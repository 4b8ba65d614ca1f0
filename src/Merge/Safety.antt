-- ===== src/Merge/Safety.antt =====
-- The merge route keeps the invariant at every point at which it can stop: before the marker, behind
-- the marker, behind the ref transaction, and behind the reconciliation.
use gitclub.Base.{
  ℕ, ◌≡◌, ◌≢◌, ◌⊎◌, inl, inr, refl, sym, ap, subst, ◌∙◌, Str, Bool, false, ◌∷◌, none, some, arith,
  ◌==◌, nat_eq, nat_beq_iff, str_keys, some_inj, any, In-any, In, if_cases,
}
use mathlib.Core.Bool.{false≢true}
use native.Mathlib.Decide.{ℕ_discrete}
use gitclub.Schema.{Repo, Pull, merged_state}
use gitclub.Merge.World.{Marker, MarkerFile, World}
use gitclub.Merge.Invariant.{Recorded, Intended, Inv}
use gitclub.Merge.Route.{
  Fate, committed, committed_unreported, not_committed, tx_applies, tx_apply, update_ref,
}

abbrev pub marked : Marker → World → World
marked m w = record w { markers = record { file_pull = m.pull_id; content = some m } ∷ w.markers }

abbrev pub unnumbered : Marker → World → Bool
unnumbered m w = any (λ (f : MarkerFile). f.file_pull == m.pull_id) w.markers

own_marker :
    (m n : Marker) (f : MarkerFile)
    → ◌≡◌ {A = MarkerFile} (record { file_pull = m.pull_id; content = some m }) f
    → f.content ≡ some n
    → (m ≡ n) × (f.file_pull ≡ m.pull_id)
own_marker m n f e c = (
  some_inj (ap (λ (g : MarkerFile). g.content) e ∙ c),
  sym (ap (λ (g : MarkerFile). g.file_pull) e),
)

-- The pull request of a marker is a row of this repository.
abbrev pub HasRow : Repo → Marker → World → Type 0
HasRow repo m w = (p : Pull) × In p w.db.pull_requests × (p.id ≡ m.pull_id) × (p.repo_id ≡ repo.id)

module _ (repo : Repo) (m : Marker) (w : World) (v : Inv repo w) (row : HasRow repo m w)
    (fresh : w.refs.ledger m.pull_id ≡ none) where
  later-Intended :
      {id : ℕ} {oid : Str} → Intended w.markers id oid → Intended (marked m w).markers id oid
  later-Intended i = record {
    file = i.file;
    marker = i.marker;
    stored = inr i.stored;
    parsed = i.parsed;
    same_id = i.same_id;
    same_oid = i.same_oid;
  }

  -- A kill behind durableMarker.
  pub marked-Inv : Inv repo (marked m w)
  marked-Inv = record {
    unique_pulls = v.unique_pulls;
    unmerged_blank = v.unmerged_blank;
    no_lost_merge = λ id oid l. elim (v.no_lost_merge id oid l) [
      | inl r ↦ inl r
      | inr i ↦ inr (later-Intended i)
    ];
    no_false_merge = v.no_false_merge;
    markers_named = named;
    markers_agree = agree;
  }
    where
      named :
          (f : MarkerFile) (n : Marker)
          → In f (marked m w).markers
          → f.content ≡ some n
          → (f.file_pull ≡ n.pull_id) × HasRow repo n w
      named f n (inl e) c =
          let (same, name) = own_marker m n f e c in
          subst (λ (k : Marker). (f.file_pull ≡ k.pull_id) × HasRow repo k w) same (name, row)
      named f n (inr f_in) c = v.markers_named f n f_in c

      agree :
          (f : MarkerFile) (n : Marker)
          → In f (marked m w).markers
          → f.content ≡ some n
          → (oid : Str) → w.refs.ledger n.pull_id ≡ some oid
          → oid ≡ n.commit_oid
      agree f n (inl e) c oid l =
          cc (ap (λ (k : Marker). w.refs.ledger k.pull_id) (own_marker m n f e c).0)
      agree f n (inr f_in) c oid l = v.markers_agree f n f_in c oid l

module _ (repo : Repo) (m : Marker) (w : World) (v : Inv repo w) (row : HasRow repo m w)
    (alone : unnumbered m w ≡ false) (fresh : w.refs.ledger m.pull_id ≡ none) where
  abbrev pub landed : World
  landed = record (marked m w) { refs = tx_apply m w.refs }

  pub ledger_self : (tx_apply m w.refs).ledger m.pull_id ≡ some m.commit_oid
  unfolding tx_apply
  ledger_self = ground arith

  ledger_other : (n : ℕ) → n ≢ m.pull_id → (tx_apply m w.refs).ledger n ≡ w.refs.ledger n
  unfolding tx_apply
  ledger_other n h = ground arith

  -- No marker was in the way, so the new one is the only one of its pull request.
  other_marker :
      (f : MarkerFile) (n : Marker) → In f w.markers → f.content ≡ some n → n.pull_id ≢ m.pull_id
  other_marker f n f_in c e =
      let name = (v.markers_named f n f_in c).0 in
      false≢true (
        sym alone
        ∙ In-any (λ (g : MarkerFile). g.file_pull == m.pull_id) w.markers f_in
            ((nat_beq_iff f.file_pull m.pull_id).1 (name ∙ e)))

  not_yet_merged :
      (p : Pull)
      → In p w.db.pull_requests
      → p.repo_id ≡ repo.id
      → p.state ≡ merged_state
      → p.id ≢ m.pull_id
  not_yet_merged p p_in r s e = cc (v.no_false_merge p p_in r s, ap w.refs.ledger e, fresh)

  -- A kill behind the ref transaction, before anything is recorded.
  pub landed-Inv : Inv repo landed
  landed-Inv = record {
    unique_pulls = v.unique_pulls;
    unmerged_blank = v.unmerged_blank;
    no_lost_merge = lost;
    no_false_merge =
        λ p p_in r s. ledger_other p.id (not_yet_merged p p_in r s) ∙ v.no_false_merge p p_in r s;
    markers_named = (marked-Inv repo m w v row fresh).markers_named;
    markers_agree = agree;
  }
    where
      lost :
          (id : ℕ) (oid : Str)
          → (tx_apply m w.refs).ledger id ≡ some oid
          → Recorded repo w.db.pull_requests id oid ⊎ Intended (marked m w).markers id oid
      lost id oid l = elim (ℕ_discrete id m.pull_id) [
        | yes e ↦ inr (record {
          file = record { file_pull = m.pull_id; content = some m };
          marker = m;
          stored = inl refl;
          parsed = refl;
          same_id = sym e;
          same_oid = some_inj (sym ledger_self ∙ (ap (tx_apply m w.refs).ledger (sym e) ∙ l));
        })
        | no n ↦
            (marked-Inv repo m w v row fresh).no_lost_merge id oid (sym (ledger_other id n) ∙ l)
      ]

      agree :
          (f : MarkerFile) (n : Marker)
          → In f (marked m w).markers
          → f.content ≡ some n
          → (oid : Str) → (tx_apply m w.refs).ledger n.pull_id ≡ some oid
          → oid ≡ n.commit_oid
      agree f n (inl e) c oid l =
          let same = (own_marker m n f e c).0 in
          some_inj (
            sym l
            ∙ (ap (λ (k : Marker). (tx_apply m w.refs).ledger k.pull_id) (sym same)
                ∙ (ledger_self ∙ ap (λ (k : Marker). some k.commit_oid) same)))
      agree f n (inr f_in) c oid l =
          v.markers_agree f n f_in c oid
            (sym (ledger_other n.pull_id (other_marker f n f_in c)) ∙ l)

  -- Behind the run of update-ref, however it ended.
  pub update_ref-Inv :
      (fate : Fate) (d : Pull) (head : Str) → Inv repo (update_ref fate d head m (marked m w)).0
  unfolding update_ref
  update_ref-Inv committed d head =
      if_cases (λ (r : World × Bool). Inv repo r.0) (tx_applies d head m w.refs) _ _ landed-Inv
        (marked-Inv repo m w v row fresh)
  update_ref-Inv committed_unreported d head =
      if_cases (λ (r : World × Bool). Inv repo r.0) (tx_applies d head m w.refs) _ _ landed-Inv
        (marked-Inv repo m w v row fresh)
  update_ref-Inv not_committed d head = marked-Inv repo m w v row fresh
