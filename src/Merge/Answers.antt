-- ===== src/Merge/Answers.antt =====
-- Behind the ref transaction: the replies of the merge route, and when it answers with success.
use gitclub.Base.{
  ℕ, ◌≡◌, ◌≢◌, inl, inr, refl, sym, ap, ◌∙◌, Bool, true, false, ◌&&◌, List, [], ◌∷◌, Option, none,
  some, arith, if◌then◌else◌, ◌==◌, nat_eq, str_eq_sound, str_keys, some_inj, select_one,
  select_one-In, In, length, ok, err, ApiError, if_cases, Bool-cases,
}
use gitclub.Schema.{Repo, Pull, PullState, merged_state}
use gitclub.Git.{Git}
use gitclub.Merge.World.{
  Refs, Marker, MarkerFile, World, Env, Step, usable, reconcile_content, reconcile_file,
  reconcile_files, reconcile_merges,
}
use gitclub.Merge.Invariant.{Inv}
use gitclub.Merge.Loop.{and_then-Done, reconcile_merges-Inv, reconcile_merges_complete, Done}
use gitclub.Merge.Route.{
  MergeEnv, pull_request, conclude, Reply, after, reply_merged, reply_ambiguous, Merged,
}

PullState-discrete : Discrete PullState
PullState-discrete = hlevel

-- The replies only read the world.
reply_merged_world : (repo : Repo) (m : Marker) (w : World) → (reply_merged repo m w).1 ≡ w
unfolding reply_merged
reply_merged_world repo m w = ground arith

reply_ambiguous_world : (repo : Repo) (m : Marker) (w : World) → (reply_ambiguous repo m w).1 ≡ w
unfolding reply_ambiguous
reply_ambiguous_world repo m w = ground arith

after_world :
    (r : Step) (next : World → Reply) → ((w : World) → (next w).1 ≡ w) → (after r next).1 ≡ r.1
after_world (ok _, w) next h = h w
after_world (err _, w) next h = refl

-- The world behind the reply is that of the reconciliation.
pub conclude_world :
    (me : MergeEnv) (repo : Repo) (m : Marker) (w : World) (reported : Bool)
    → (conclude me repo m (w, reported)).1 ≡ (reconcile_merges me.recovery me.git repo w).1
unfolding conclude
conclude_world me repo m w true = after_world _ _ (reply_merged_world repo m)
conclude_world me repo m w false = after_world _ _ (reply_ambiguous_world repo m)

after_ok :
    (r : Step) (next : World → Reply) (a : Merged)
    → (after r next).0 ≡ ok a
    → (r.0 ≡ ok tt) × ((next r.1).0 ≡ ok a)
after_ok (ok _, w) next a h = (refl, h)
after_ok (err _, w) next a h = cc

pull_request-In :
    (repo : Repo) (id : ℕ) (w : World) (p : Pull)
    → pull_request repo id w ≡ ok p
    → In p w.db.pull_requests × (p.repo_id ≡ repo.id) × (p.id ≡ id)
unfolding pull_request
pull_request-In repo id w p h =
    let found : select_one (λ (p : Pull). p.repo_id == repo.id && p.id == id) w.db.pull_requests
        ≡ some p =
      ground arith in
    let (p_in, t) = select_one-In _ w.db.pull_requests p found in (p_in, ground arith, ground arith)

reply_merged_ok :
    (repo : Repo) (m : Marker) (w : World) (a : Merged)
    → (reply_merged repo m w).0 ≡ ok a
    → (a.commit_oid ≡ m.commit_oid) × (pull_request repo m.pull_id w ≡ ok a.pull)
unfolding reply_merged
reply_merged_ok repo m w a h = ground arith

reply_ambiguous_ok :
    (repo : Repo) (m : Marker) (w : World) (a : Merged)
    → (reply_ambiguous repo m w).0 ≡ ok a
    → (a.commit_oid ≡ m.commit_oid)
      × (pull_request repo m.pull_id w ≡ ok a.pull)
      × (a.pull.merged_oid ≡ m.commit_oid)
unfolding reply_ambiguous
reply_ambiguous_ok repo m w a h = ground (arith, str_eq_sound a.pull.merged_oid m.commit_oid)

usable-commit_oid : (git : Git) (m : Marker) → usable git m ≡ true → m.commit_oid ≢ []
unfolding usable
usable-commit_oid git m h e = ground (arith, ap length e)

content_usable :
    (env : Env) (git : Git) (repo : Repo) (n : ℕ) (m : Marker) (w : World) (o : Option Marker)
    → o ≡ some m
    → Done (reconcile_content env git repo n o w)
    → usable git m ≡ true
unfolding reconcile_content
content_usable env git repo n m w none e d = cc
content_usable env git repo n m w (some k) e d = elim (Bool-cases (usable git k)) [
  | inl t ↦ ap (usable git) (some_inj (sym e)) ∙ t
  | inr t ↦ absurd (refused (usable git k) t _ _ d)
]
  where
    refused :
        (b : Bool) → b ≡ false → (x : ApiError) (r : Step) → Done (if b then r else (err x, w)) → ⊥
    refused true t x r d = cc
    refused false t x r d = cc

file_usable :
    (env : Env) (git : Git) (repo : Repo) (f : MarkerFile) (m : Marker) (w : World)
    → f.content ≡ some m
    → Done (reconcile_file env git repo f w)
    → usable git m ≡ true
unfolding reconcile_file
file_usable env git repo f m w c =
    if_cases (λ (r : Step). Done r → usable git m ≡ true) (env.read_fails f.file_pull) _ _ (λ d. cc)
      (content_usable env git repo f.file_pull m w f.content c)

files_usable :
    (env : Env) (git : Git) (repo : Repo) (ms : List MarkerFile) (f : MarkerFile) (m : Marker)
    (w : World)
    → f.content ≡ some m
    → ms ≡ f ∷ []
    → Done (reconcile_files env git repo ms w)
    → usable git m ≡ true
unfolding reconcile_files
files_usable env git repo [] f m w c e d = cc
files_usable env git repo (g ∷ gs) f m w c e d =
    let first =
      (and_then-Done env git repo (reconcile_file env git repo g w)
        (reconcile_files env git repo gs) d).0 in
    file_usable env git repo g m w (ground arith) first

-- A reconciliation that does not fail found its only marker usable.
only_usable :
    (env : Env) (git : Git) (repo : Repo) (m : Marker) (w : World)
    → w.markers ≡ record { file_pull = m.pull_id; content = some m } ∷ []
    → Done (reconcile_merges env git repo w)
    → m.commit_oid ≢ []
unfolding reconcile_merges
only_usable env git repo m w e =
    if_cases (λ (r : Step). Done r → m.commit_oid ≢ []) env.glob_fails _ _ (λ d. cc)
      (λ d. usable-commit_oid git m (files_usable env git repo w.markers _ m w refl e d))

module _ (me : MergeEnv) (repo : Repo) (m : Marker) (w : World) (v : Inv repo w) (a : Merged) where
  abbrev pub settled : World
  settled = (reconcile_merges me.recovery me.git repo w).1

  pub conclude-Done :
      (reported : Bool)
      → (conclude me repo m (w, reported)).0 ≡ ok a
      → Done (reconcile_merges me.recovery me.git repo w)
        × (a.commit_oid ≡ m.commit_oid)
        × (pull_request repo m.pull_id settled ≡ ok a.pull)
        × (reported ≡ false → a.pull.merged_oid ≡ m.commit_oid)
  unfolding conclude
  conclude-Done true h =
      let (d, r) = after_ok _ _ a h in
      let (c, p) = reply_merged_ok repo m settled a r in (d, c, p, λ e. cc)
  conclude-Done false h =
      let (d, r) = after_ok _ _ a h in
      let (c, p, o) = reply_ambiguous_ok repo m settled a r in (d, c, p, λ e. o)

  -- Without the transaction in the ledger no reply of success comes from an unreported run.
  pub no_false_success :
      w.markers ≡ record { file_pull = m.pull_id; content = some m } ∷ []
      → w.refs.ledger m.pull_id ≡ none
      → (conclude me repo m (w, false)).0 ≡ ok a
      → ⊥
  no_false_success e l h =
      let (d, c, p, o) = conclude-Done false h in
      let (p_in, r, i) = pull_request-In repo m.pull_id settled a.pull p in
      let (cleared, refs, iff) = reconcile_merges_complete me.recovery me.git repo w v d in
      let v' = reconcile_merges-Inv me.recovery me.git repo w v in
      elim (PullState-discrete a.pull.state merged_state) [
        | yes s ↦ cc (
          v'.no_false_merge a.pull p_in r s,
          ap (λ (x : Refs). x.ledger a.pull.id) refs,
          ap w.refs.ledger i,
          l,
        )
        | no n ↦
            only_usable me.recovery me.git repo m w e d
              (sym (o refl) ∙ v'.unmerged_blank a.pull p_in n)
      ]
