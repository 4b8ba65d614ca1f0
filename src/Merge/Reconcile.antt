-- ===== src/Merge/Reconcile.antt =====
-- One round of reconcileMerges keeps the invariant, wherever it stops.
use gitclub.Base.{
  ℕ, ◌≡◌, inl, inr, refl, sym, ap, subst, ◌∙◌, Str, List, Option, none, some, ◌==◌, nat_eq,
  str_keys, str_eq_sound, In, ok, err, ApiError, Bool-cases,
}
use gitclub.Schema.{Repo, Pull}
use gitclub.Git.{Git}
use gitclub.Merge.World.{
  Marker, MarkerFile, World, Env, Step, usable, remove_marker, record_merge, refresh_world,
  reconcile_applied, reconcile_ledger, reconcile_marker, reconcile_content, reconcile_file,
}
use gitclub.Merge.Removal.{remove-Consistent}
use gitclub.Merge.Invariant.{Recorded, Inv, refresh_world-Inv, refresh_pulls}
use gitclub.Merge.Recording.{recorded_now, merged_pulls, update-Consistent}

-- The marker stands in the file of its number and names a stored pull request.
abbrev pub Known : Repo → List Pull → MarkerFile → Type 0
Known repo pulls f =
    (m : Marker)
    → f.content ≡ some m
    → (f.file_pull ≡ m.pull_id)
      × ((p : Pull) × In p pulls × (p.id ≡ m.pull_id) × (p.repo_id ≡ repo.id))

module _ (env : Env) (git : Git) (repo : Repo) where
  abbrev pub refreshed : Marker → World → World
  refreshed m w = refresh_world env repo (record_merge repo m w)

  -- The five ways in which a round ends.
  pub file_cases :
      (P : Step → Type 0) (f : MarkerFile) (w : World)
      → ((e : ApiError) → P (err e, w))
      → ((m : Marker)
          → f.content ≡ some m
          → w.refs.ledger m.pull_id ≡ none
          → P (ok tt, remove_marker f.file_pull w))
      → ((m : Marker)
          → f.content ≡ some m
          → w.refs.ledger m.pull_id ≡ some m.commit_oid
          → (e : ApiError) → P (err e, record_merge repo m w))
      → ((m : Marker)
          → f.content ≡ some m
          → w.refs.ledger m.pull_id ≡ some m.commit_oid
          → (e : ApiError) → P (err e, refreshed m w))
      → ((m : Marker)
          → f.content ≡ some m
          → w.refs.ledger m.pull_id ≡ some m.commit_oid
          → P (ok tt, remove_marker f.file_pull (refreshed m w)))
      → P (reconcile_file env git repo f w)
  unfolding reconcile_file reconcile_content reconcile_marker reconcile_ledger reconcile_applied
  file_cases P f w stay unapplied recorded fresh applied =
      elim (Bool-cases (env.read_fails f.file_pull)) [
        | inl t ↦ rw t (stay _)
        | inr t ↦ rw t (content f.content refl)
      ]
    where
      ledgered :
          (m : Marker)
          → f.content ≡ some m
          → w.refs.ledger m.pull_id ≡ some m.commit_oid
          → P (reconcile_applied env repo f.file_pull m w)
      ledgered m c e = elim (Bool-cases (env.update_fails f.file_pull)) [
        | inl t ↦ rw t (stay _)
        | inr t ↦ rw t (elim (Bool-cases (env.refresh_fails f.file_pull)) [
          | inl u ↦ rw u (recorded m c e _)
          | inr u ↦ rw u (elim (Bool-cases (env.remove_fails f.file_pull)) [
            | inl v ↦ rw v (fresh m c e _)
            | inr v ↦ rw v (applied m c e)
          ])
        ])
      ]

      entry :
          (m : Marker)
          → f.content ≡ some m
          → (o : Option Str) → w.refs.ledger m.pull_id ≡ o
          → P (reconcile_ledger env repo f.file_pull m w o)
      entry m c none e = elim (Bool-cases (env.remove_fails f.file_pull)) [
        | inl t ↦ rw t (stay _)
        | inr t ↦ rw t (unapplied m c e)
      ]
      entry m c (some oid) e = elim (Bool-cases (oid == m.commit_oid)) [
        | inl t ↦ rw t (ledgered m c (e ∙ ap some (str_eq_sound oid m.commit_oid t)))
        | inr t ↦ rw t (stay _)
      ]

      looked : (m : Marker) → f.content ≡ some m → P (reconcile_marker env repo f.file_pull m w)
      looked m c = elim (Bool-cases (env.ledger_fails f.file_pull)) [
        | inl t ↦ rw t (stay _)
        | inr t ↦ rw t (entry m c (w.refs.ledger m.pull_id) refl)
      ]

      content :
          (c : Option Marker) → f.content ≡ c → P (reconcile_content env git repo f.file_pull c w)
      content none e = stay _
      content (some m) e = elim (Bool-cases (usable git m)) [
        | inl t ↦ rw t (looked m e)
        | inr t ↦ rw t (stay _)
      ]

  record_merge-Inv :
      (m : Marker) (w : World)
      → w.refs.ledger m.pull_id ≡ some m.commit_oid
      → Inv repo w
      → Inv repo (record_merge repo m w)
  unfolding record_merge
  record_merge-Inv m w e v = update-Consistent repo m w.db.pull_requests w.refs.ledger w.markers e v

  refreshed-Inv :
      (m : Marker) (w : World)
      → w.refs.ledger m.pull_id ≡ some m.commit_oid
      → Inv repo w
      → Inv repo (refreshed m w)
  refreshed-Inv m w e v =
      refresh_world-Inv env repo (record_merge repo m w) (record_merge-Inv m w e v)

  refreshed_pulls :
      (m : Marker) (w : World)
      → (refreshed m w).db.pull_requests ≡ merged_pulls repo m w.db.pull_requests
  unfolding record_merge
  refreshed_pulls m w = refresh_pulls env repo (record_merge repo m w)

  refreshed_refs : (m : Marker) (w : World) → (refreshed m w).refs ≡ w.refs
  unfolding record_merge refresh_world
  refreshed_refs m w = refl

  refreshed_markers : (m : Marker) (w : World) → (refreshed m w).markers ≡ w.markers
  unfolding record_merge refresh_world
  refreshed_markers m w = refl

  refreshed_recorded :
      (f : MarkerFile) (m : Marker) (w : World)
      → Known repo w.db.pull_requests f
      → f.content ≡ some m
      → Recorded repo (refreshed m w).db.pull_requests m.pull_id m.commit_oid
  refreshed_recorded f m w known c =
      let (name, row) = known m c in
      let (p, p_in, e, r) = row in
      subst (λ ps. Recorded repo ps m.pull_id m.commit_oid) (sym (refreshed_pulls m w))
        (recorded_now repo m p w.db.pull_requests p_in e r)

  removed-Inv :
      (n : ℕ) (w : World)
      → ((oid : Str) → w.refs.ledger n ≡ some oid → Recorded repo w.db.pull_requests n oid)
      → Inv repo w
      → Inv repo (remove_marker n w)
  unfolding remove_marker
  removed-Inv n w done v =
      remove-Consistent repo w.db.pull_requests w.refs.ledger w.markers n done v

  applied_recorded :
      (f : MarkerFile) (m : Marker) (w : World)
      → Known repo w.db.pull_requests f
      → f.content ≡ some m
      → w.refs.ledger m.pull_id ≡ some m.commit_oid
      → (oid : Str) → (refreshed m w).refs.ledger f.file_pull ≡ some oid
      → Recorded repo (refreshed m w).db.pull_requests f.file_pull oid
  unfolding record_merge refresh_world
  applied_recorded f m w known c e oid l =
      let name = (known m c).0 in
      subst (λ k. Recorded repo (refreshed m w).db.pull_requests k oid) (sym name)
        (subst (Recorded repo (refreshed m w).db.pull_requests m.pull_id)
          (cc (ap w.refs.ledger name)) (refreshed_recorded f m w known c))

  pub reconcile_file-Inv :
      (f : MarkerFile) (w : World)
      → Known repo w.db.pull_requests f
      → Inv repo w
      → Inv repo (reconcile_file env git repo f w).1
  reconcile_file-Inv f w known v =
      file_cases (λ r. Inv repo r.1) f w (λ e. v)
        (λ m c e. removed-Inv f.file_pull w (λ oid l. cc (ap w.refs.ledger (known m c).0)) v)
        (λ m c e x. record_merge-Inv m w e v) (λ m c e x. refreshed-Inv m w e v)
        (λ m c e.
          removed-Inv f.file_pull (refreshed m w) (applied_recorded f m w known c e)
            (refreshed-Inv m w e v))
