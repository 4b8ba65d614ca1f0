-- ===== src/Merge/Request.antt =====
-- The whole merge route, from a state in which the request's reconciliation has left no marker.
use gitclub.Base.{
  ℕ, ◌≡◌, inl, inr, refl, sym, ap, subst, String, Str, List, [], ◌∷◌, Option, none, some, ◌==◌,
  nat_eq, str_eq_sound, str_keys, In, trim_space, ok, err, ApiError, fail, if_cases, Bool-cases,
  Option-cases,
}
use gitclub.Schema.{Repo, Pull, open_state}
use gitclub.Access.{Server}
use gitclub.Git.{Tips, pull_tips}
use gitclub.Pulls.Blockers.{pull_blockers}
use gitclub.Pulls.Mergeable.{UniqueReviews, MayMerge, pull_blockers-MayMerge}
use gitclub.Merge.World.{Marker, World}
use gitclub.Merge.Invariant.{Recorded, Intended, Inv}
use gitclub.Merge.Route.{MergeEnv, commit_merge, merge_unblocked, merge_route, Reply, Merged}
use gitclub.Merge.Success.{Effect, commit_merge-Inv, commit_merge-Effect}

nothing_in : {A : Type 0} (xs : List A) → xs ≡ [] → (a : A) → In a xs → ⊥
nothing_in [] e a m = elim m [ ]
nothing_in (x ∷ xs) e a m = cc

module _ (me : MergeEnv) (s : Server) (repo : Repo) (d : Pull) (expected : Str) (w : World) where
  abbrev tips : Tips
  tips = pull_tips me.git repo d.base_branch d.head_branch

  abbrev blocked : List String × Str
  blocked = pull_blockers s w.db me.git repo d tips.base tips.head

  -- The marker of a merge of d to the commit oid.
  abbrev pub marker_for : Str → Marker
  marker_for oid = record {
    pull_id = d.id;
    base_branch = d.base_branch;
    base_oid = tips.base;
    commit_oid = oid;
    updated_at = me.now;
  }

  unblocked_cases :
      (P : Reply → Type 0) (b : List String × Str)
      → ((e : ApiError) → P (err e, w))
      → (b.0 ≡ [] → (oid : Str) → P (commit_merge me repo d tips.head (marker_for oid) w))
      → P (merge_unblocked me repo d tips b w)
  unfolding merge_unblocked
  unblocked_cases P (x ∷ xs, tree) refused merged = refused _
  unblocked_cases P ([], tree) refused merged = made (me.commit_tree tree tips.base tips.head)
    where
      made :
          (o : Option Str)
          → P (elim o [
            | none ↦ (fail 500 "Could not create merge commit; branches were unchanged", w)
            | some commit ↦ commit_merge me repo d tips.head (marker_for (trim_space commit)) w
          ])
      made none = refused _
      made (some commit) = merged refl (trim_space commit)

  route_cases :
      (P : Reply → Type 0)
      → ((e : ApiError) → P (err e, w))
      → (tips.head ≡ expected
          → blocked.0 ≡ []
          → (oid : Str) → P (commit_merge me repo d tips.head (marker_for oid) w))
      → P (merge_route me s repo d expected w)
  unfolding merge_route
  route_cases P refused merged =
      if_cases P tips.failed _ _ (refused _) (elim (Bool-cases (expected == tips.head)) [
        | inl t ↦
            rw t
              (unblocked_cases P blocked refused (merged (sym (str_eq_sound expected tips.head t))))
        | inr t ↦ rw t (refused _)
      ])

  module _ (v : Inv repo w) (unique : UniqueReviews w.db) (empty : w.markers ≡ [])
      (d_in : In d w.db.pull_requests) (d_repo : d.repo_id ≡ repo.id) where
    not_recorded : d.state ≡ open_state → (oid : Str) → ¬ Recorded repo w.db.pull_requests d.id oid
    not_recorded o oid r = cc (
      ap (λ (x : Pull). x.state) (v.unique_pulls r.pull d r.stored d_in r.same_id),
      o,
      r.is_merged,
    )

    not-Intended : (id : ℕ) (oid : Str) → ¬ Intended w.markers id oid
    not-Intended id oid i = absurd (nothing_in w.markers empty i.file i.stored)

    unledgered : d.state ≡ open_state → w.refs.ledger d.id ≡ none
    unledgered o = elim (Option-cases (w.refs.ledger d.id)) [
      | inl e ↦ e
      | inr (oid, e) ↦ elim (v.no_lost_merge d.id oid e) [
        | inl r ↦ absurd (not_recorded o oid r)
        | inr i ↦ absurd (not-Intended d.id oid i)
      ]
    ]

    may_merge : blocked.0 ≡ [] → MayMerge s w.db repo d tips.head me.git tips.base
    may_merge = (pull_blockers-MayMerge s w.db repo d tips.head unique me.git tips.base).0

    -- However git, the disk and the clock behave, the request leaves a consistent state.
    pub merge_route-Inv : Inv repo (merge_route me s repo d expected w).1
    merge_route-Inv =
        route_cases (λ r. Inv repo r.1) (λ e. v)
          λ h b oid.
            commit_merge-Inv me repo d tips.head (marker_for oid) w v empty (d, d_in, refl, d_repo)
              (unledgered (may_merge b).is_open)

    -- A success says that the pull request might merge at the expected head, that the branches held
    -- the inspected tips, and that the merge took effect.
    pub merge_route-Effect :
        (a : Merged)
        → (merge_route me s repo d expected w).0 ≡ ok a
        → MayMerge s w.db repo d expected me.git tips.base
          × Effect repo d expected
              (marker_for a.commit_oid)
              w
              (merge_route me s repo d expected w).1
              a
    merge_route-Effect =
        route_cases
          (λ r.
            (a : Merged)
            → r.0 ≡ ok a
            → MayMerge s w.db repo d expected me.git tips.base
              × Effect repo d expected (marker_for a.commit_oid) w r.1 a)
          (λ e a h. cc)
          λ h b oid a r.
            let e =
              commit_merge-Effect me repo d tips.head (marker_for oid) w v empty
                (d, d_in, refl, d_repo) (unledgered (may_merge b).is_open) a r in
            (
              subst (λ x. MayMerge s w.db repo d x me.git tips.base) h (may_merge b),
              subst
                  (λ x.
                    Effect repo d x (marker_for a.commit_oid) w
                      (commit_merge me repo d tips.head (marker_for oid) w).1 a)
                  h
                  (subst
                    (λ o.
                      Effect repo d tips.head (marker_for o) w
                        (commit_merge me repo d tips.head (marker_for oid) w).1 a)
                    (sym e.answered) e),
            )
