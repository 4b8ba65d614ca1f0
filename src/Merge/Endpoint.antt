-- ===== src/Merge/Endpoint.antt =====
-- A whole request for /pulls/ID/merge: the entry of collaborationRoutes (access read again under the
-- lock, reconciliation, the guard on writers), the pull request's row, and the merge route.
use gitclub.Base.{
  ℕ, ◌≡◌, ◌≤◌, some_inj, inl, inr, refl, sym, subst, ◌∙◌, Str, bytes, ◌&&◌, Option, none, some,
  arith, ltb, if◌then◌else◌, ◌==◌, nat_eq, str_keys, str_eq, In, select_one-In, Result, ok, err,
  ApiError, fail, Bool-cases,
}
use gitclub.Schema.{Repo, Pull, Identity}
use gitclub.Access.{Server, rank, role, repo}
use gitclub.Access.Guard.{row_of, repo-eq-ok}
use gitclub.Git.{pull_tips}
use gitclub.Pulls.Mergeable.{UniqueReviews, MayMerge}
use gitclub.Merge.World.{World, Step, Env, reconcile_merges}
use gitclub.Merge.Invariant.{Inv}
use gitclub.Merge.Loop.{
  reconcile_merges-Inv, reconcile_merges_complete, reconcile_merges-Advance, Done,
}
use gitclub.Merge.Route.{MergeEnv, Merged, Reply, after, pull_request, merge_route}
use gitclub.Merge.Success.{Effect}
use gitclub.Merge.Request.{marker_for, merge_route-Inv, merge_route-Effect}

-- The guard of the methods other than GET.
unfoldable pub guard_writer : Server → Repo → Option Identity → World → Step
guard_writer s r none w = (fail 401 "Sign in to change pull requests", w)
guard_writer s r (some u) w =
    if ltb (rank (role s w.db r (some u))) (rank (bytes "write"))
    then (fail 403 "Repository write access required", w)
    else (ok tt, w)

-- pullRequest, and the merge route on its row.
unfoldable pub merge_pull : MergeEnv → Server → Repo → ℕ → Str → World → Reply
merge_pull me s r id expected w = elim (pull_request r id w) [
  | ok d ↦ merge_route me s r d expected w
  | err e ↦ (err e, w)
]

-- before is the environment of the reconciliation at the entry.
unfoldable pub merge_request :
    Env → MergeEnv → Server → ℕ → Option Identity → ℕ → Str → World → Reply
merge_request before me s rid u id expected w = elim (repo s w.db rid u (bytes "read")) [
  | err e ↦ (err e, w)
  | ok r ↦
      after (reconcile_merges before me.git r w)
        λ w'. after (guard_writer s r u w') (merge_pull me s r id expected)
]

rank_write : rank (bytes "write") ≡ 2
unfolding rank str_eq
rank_write = refl

after_cases :
    (P : Reply → Type 0) (x : Step) (k : World → Reply)
    → ((e : ApiError) → P (err e, x.1))
    → (Done x → P (k x.1))
    → P (after x k)
after_cases P (ok tt, w) k refused go = go refl
after_cases P (err e, w) k refused go = refused e

guard_cases :
    (P : Step → Type 0) (s : Server) (r : Repo) (u : Option Identity) (w : World)
    → ((e : ApiError) → P (err e, w))
    → ((v : Identity) → u ≡ some v → 2 ≤ rank (role s w.db r (some v)) → P (ok tt, w))
    → P (guard_writer s r u w)
unfolding guard_writer
guard_cases P s r none w refused go = refused _
guard_cases P s r (some v) w refused go =
    elim (Bool-cases (ltb (rank (role s w.db r (some v))) (rank (bytes "write")))) [
      | inl t ↦ rw t (refused _)
      | inr t ↦ rw t (go v refl (ground (arith, rank_write)))
    ]

pull_request-In :
    (r : Repo) (id : ℕ) (w : World) (d : Pull)
    → pull_request r id w ≡ ok d
    → In d w.db.pull_requests × (d.repo_id ≡ r.id) × (d.id ≡ id)
unfolding pull_request
pull_request-In r id w d h =
    let (m, t) =
      select_one-In (λ (p : Pull). p.repo_id == r.id && p.id == id) w.db.pull_requests d
        (ground arith) in
    (m, ground arith, ground arith)

module _ (before : Env) (me : MergeEnv) (s : Server) (rid : ℕ) (u : Option Identity) (id : ℕ)
    (expected : Str) (w : World) (unique : UniqueReviews w.db) where
  abbrev pub entered : Repo → World
  entered r = (reconcile_merges before me.git r w).1

  entered_unique : (r : Repo) → UniqueReviews (entered r).db
  entered_unique r =
      let e = (reconcile_merges-Advance before me.git r w).same_reviews in
      λ x y x_in y_in. unique x y (subst (In x) e x_in) (subst (In y) e y_in)

  pull_cases :
      (P : Reply → Type 0) (r : Repo) (w' : World)
      → ((e : ApiError) → P (err e, w'))
      → ((d : Pull)
          → In d w'.db.pull_requests
          → d.repo_id ≡ r.id
          → d.id ≡ id
          → P (merge_route me s r d expected w'))
      → P (merge_pull me s r id expected w')
  unfolding merge_pull
  pull_cases P r w' refused go = found (pull_request r id w') refl
    where
      found :
          (o : Result Pull)
          → pull_request r id w' ≡ o
          → P (elim o [ ok d ↦ merge_route me s r d expected w' | err e ↦ (err e, w') ])
      found (err e) h = refused e
      found (ok d) h = let (m, q, i) = pull_request-In r id w' d h in go d m q i

  -- The ends of a request on the repository's row r.
  request_cases :
      (P : Reply → Type 0) (r : Repo)
      → row_of w.db rid ≡ some r
      → ((e : ApiError) → P (err e, w))
      → ((e : ApiError) → P (err e, entered r))
      → ((v : Identity) (d : Pull)
          → Done (reconcile_merges before me.git r w)
          → u ≡ some v
          → 2 ≤ rank (role s (entered r).db r (some v))
          → In d (entered r).db.pull_requests
          → d.repo_id ≡ r.id
          → d.id ≡ id
          → P (merge_route me s r d expected (entered r)))
      → P (merge_request before me s rid u id expected w)
  unfolding merge_request
  request_cases P r row refused late go = found (repo s w.db rid u (bytes "read")) refl
    where
      inside : Repo → Reply
      inside q =
          after (reconcile_merges before me.git q w)
            λ w'. after (guard_writer s q u w') (merge_pull me s q id expected)

      inside-P : P (inside r)
      inside-P = after_cases P (reconcile_merges before me.git r w) _ late λ done.
          guard_cases (λ x. P (after x (merge_pull me s r id expected))) s r u (entered r) late
            λ v is_v writes.
              pull_cases P r (entered r) late λ d m q i. go v d done is_v writes m q i

      found :
          (o : Result Repo)
          → repo s w.db rid u (bytes "read") ≡ o
          → P (elim o [ err e ↦ (err e, w) | ok q ↦ inside q ])
      found (err e) h = refused e
      found (ok q) h =
          let e : r ≡ q = some_inj (sym row ∙ ((repo-eq-ok s w.db rid u (bytes "read") q).0 h).0) in
          subst (λ x. P (inside x)) e inside-P

  module _ (r : Repo) (row : row_of w.db rid ≡ some r) (v : Inv r w) where
    -- However git, the disk and the clock behave, and wherever a reconciliation stops, a request to
    -- merge leaves a consistent state of a stored repository, where it found one with distinct
    -- identifiers of reviews.
    pub merge_request-Inv : Inv r (merge_request before me s rid u id expected w).1
    merge_request-Inv =
        let v' = reconcile_merges-Inv before me.git r w v in
        request_cases (λ x. Inv r x.1) r row (λ e. v) (λ e. v')
          λ i d done is_i writes m q same.
            merge_route-Inv me s r d expected (entered r) v' (entered_unique r)
              (reconcile_merges_complete before me.git r w v done).0 m q

    -- A merge on a state that the entry of the request has reconciled, with the state and the answer
    -- behind it.
    pub record MergeMade (u' : World) (a : Merged) : Type 0 where
      pub user : Identity
      pub pull : Pull
      pub signed_in : u ≡ some user
      pub may_write : 2 ≤ rank (role s (entered r).db r (some user))
      pub stored : In pull (entered r).db.pull_requests
      pub same_id : pull.id ≡ id
      pub same_repo : pull.repo_id ≡ r.id
      pub may_merge :
          MayMerge s
            (entered r).db
            r
            pull
            expected
            me.git
            (pull_tips me.git r pull.base_branch pull.head_branch).base
      pub effect :
          Effect r pull expected
            (marker_for me s r pull expected (entered r) a.commit_oid)
            (entered r)
            u'
            a

    -- From a consistent state of a stored repository with distinct identifiers of reviews, a successful
    -- merge request says that a writer asked, that the pull request might merge at the expected head,
    -- that the branches held the inspected tips, and that one transaction moved the base and entered
    -- the merge in the ledger, which is recorded.
    pub merge_request-Effect :
        (a : Merged)
        → (merge_request before me s rid u id expected w).0 ≡ ok a
        → MergeMade (merge_request before me s rid u id expected w).1 a
    merge_request-Effect =
        let v' = reconcile_merges-Inv before me.git r w v in
        request_cases (λ x. (a : Merged) → x.0 ≡ ok a → MergeMade x.1 a) r row (λ e a h. cc)
          (λ e a h. cc)
          λ i d done is_i writes m q same a h.
            let (may, eff) =
              merge_route-Effect me s r d expected (entered r) v' (entered_unique r)
                (reconcile_merges_complete before me.git r w v done).0 m q a h in
            record {
              user = i;
              pull = d;
              signed_in = is_i;
              may_write = writes;
              stored = m;
              same_id = same;
              same_repo = q;
              may_merge = may;
              effect = eff;
            }
