-- ===== src/Merge/Opening.antt =====
-- What POST /pulls opens, and that it keeps the table, the ledger and the markers together.
use gitclub.Base.{
  ℕ, suc, ◌≡◌, ◌≢◌, ◌<◌, ◌⊎◌, inl, inr, refl, sym, ap, subst, ◌∙◌, Str, Bool, true, false, not,
  ◌||◌, [], ◌∷◌, Option, arith, ◌==◌, nat_eq, str_keys, str_eq, str_eq_refl, In, ok, fail_if,
  fail_if-eq-ok, >>=-eq-ok,
}
use gitclub.Schema.{Db, Repo, Pull, Identity, open_state, merged_state}
use gitclub.Git.{Git, Tips, valid_branch, pull_tips}
use gitclub.Pulls.Discussion.{str, discussion_text, given_task}
use gitclub.Pulls.Opening.{Proposal, base_of, is_unchanged, opened, open_pull}
use gitclub.Merge.World.{World}
use gitclub.Merge.Invariant.{Inv}

-- An open pull request between two branches that differ and that both have a tip.
pub record IsOpened (git : Git) (r : Repo) (u : Identity) (p : Pull) : Type 0 where
  pub by_author : p.author_id ≡ u.id
  pub of_repo : p.repo_id ≡ r.id
  pub is_open : p.state ≡ open_state
  pub blank : p.merged_oid ≡ []
  pub apart : p.base_branch ≢ p.head_branch
  pub tips : (pull_tips git r p.base_branch p.head_branch).failed ≡ false

last_false : (x y z : Bool) → (x || (y || z)) ≡ false → z ≡ false
last_false true y z e = cc
last_false false true z e = cc
last_false false false z e = e

opened-IsOpened :
    (git : Git) (r : Repo) (u : Identity) (b : Proposal) (changed : Tips → Option Str) (id now : ℕ)
    (p : Pull)
    → opened git r u b changed id now ≡ ok p
    → (p.id ≡ id) × IsOpened git r u p
unfolding opened
opened-IsOpened git r u b changed id now p h =
    let (title, _, h1) = >>=-eq-ok (discussion_text b.title true 240 _) _ h in
    let (body, _, h2) = >>=-eq-ok (discussion_text b.body false 65536 _) _ h1 in
    let (task, _, h3) = >>=-eq-ok (given_task b.task []) _ h2 in
    let (_, valid, h4) =
      >>=-eq-ok
        (fail_if
          (not (valid_branch git (base_of r b))
            || (not (valid_branch git (str b.head_branch)) || base_of r b == str b.head_branch))
          400 _)
        _ h3 in
    let (_, exist, h5) =
      >>=-eq-ok (fail_if (pull_tips git r (base_of r b) (str b.head_branch)).failed 400 _) _ h4 in
    let (_, _, h6) =
      >>=-eq-ok
        (fail_if (is_unchanged (changed (pull_tips git r (base_of r b) (str b.head_branch)))) 409 _)
        _ h5 in
    let row : Pull = record {
      id = id;
      repo_id = r.id;
      author_id = u.id;
      title = title;
      body = body;
      base_branch = base_of r b;
      head_branch = str b.head_branch;
      state = open_state;
      created_at = now;
      updated_at = now;
      merged_oid = [];
      kaneo_task_url = task;
    } in
    let same : row ≡ p = cc in
    let differ =
      last_false (not (valid_branch git (base_of r b))) (not (valid_branch git (str b.head_branch)))
        (base_of r b == str b.head_branch) (fail_if-eq-ok _ 400 _ valid) in
    subst (λ (x : Pull). (x.id ≡ id) × IsOpened git r u x) same
      (
        refl,
        record {
          by_author = refl;
          of_repo = refl;
          is_open = refl;
          blank = refl;
          apart = λ e.
              cc
                (differ, ap (λ s. str_eq s (str b.head_branch)) e, str_eq_refl (str b.head_branch));
          tips =
              fail_if-eq-ok (pull_tips git r (base_of r b) (str b.head_branch)).failed 400 _ exist;
        },
      )

module _ (repo : Repo) (w : World) (p : Pull) where
  never_merged : p.state ≡ open_state → p.state ≡ merged_state → ⊥
  never_merged a b = open_ne (sym a ∙ b)
    where
      open_ne : open_state ≡ merged_state → ⊥
      open_ne e = cc

  added-Inv :
      (next : ℕ)
      → Inv repo w
      → p.state ≡ open_state
      → p.merged_oid ≡ []
      → ((q : Pull) → In q w.db.pull_requests → p.id ≢ q.id)
      → Inv repo (record w {
        db = record w.db { pull_requests = p ∷ w.db.pull_requests; next_pull = next };
      })
  added-Inv next v is_open blank new = record {
    unique_pulls = unique;
    unmerged_blank = λ q m h. elim m [
      | inl e ↦ ap (λ (x : Pull). x.merged_oid) (sym e) ∙ blank
      | inr n ↦ v.unmerged_blank q n h
    ];
    no_lost_merge = λ id oid l. elim (v.no_lost_merge id oid l) [
      | inl x ↦ inl (record {
        pull = x.pull;
        stored = inr x.stored;
        same_id = x.same_id;
        same_repo = x.same_repo;
        is_merged = x.is_merged;
        same_oid = x.same_oid;
      })
      | inr i ↦ inr i
    ];
    no_false_merge = λ q m h s. elim m [
      | inl e ↦ absurd (never_merged is_open (ap (λ (x : Pull). x.state) e ∙ s))
      | inr n ↦ v.no_false_merge q n h s
    ];
    markers_named = λ f m f_in c.
        let (n, (q, q_in, i, h)) = v.markers_named f m f_in c in (n, (q, inr q_in, i, h));
    markers_agree = v.markers_agree;
  }
    where
      unique :
          (x y : Pull)
          → (p ≡ x) ⊎ In x w.db.pull_requests
          → (p ≡ y) ⊎ In y w.db.pull_requests
          → x.id ≡ y.id
          → x ≡ y
      unique x y (inl a) (inl b) e = sym a ∙ b
      unique x y (inl a) (inr n) e = absurd (new y n (ap (λ (z : Pull). z.id) a ∙ e))
      unique x y (inr m) (inl b) e = absurd (new x m (ap (λ (z : Pull). z.id) b ∙ sym e))
      unique x y (inr m) (inr n) e = v.unique_pulls x y m n e

-- Where the identifiers of pull requests are below the next one, a success keeps a consistent state
-- consistent, and the pull request that it opens is its author's, of this repository, not merged, and
-- between two branches that differ and that both have a tip.
pub open_pull-Inv :
    (git : Git) (repo : Repo) (u : Identity) (b : Proposal) (changed : Tips → Option Str) (now : ℕ)
    (w : World) (p : Pull) (db : Db)
    → Inv repo w
    → ((q : Pull) → In q w.db.pull_requests → q.id < w.db.next_pull)
    → open_pull git w.db repo u b changed now ≡ ok (p, db)
    → Inv repo (record w { db = db }) × IsOpened git repo u p
unfolding open_pull
open_pull-Inv git repo u b changed now w p db v below h =
    let (row, made, h1) = >>=-eq-ok (opened git repo u b changed w.db.next_pull now) _ h in
    let same : row ≡ p = cc in
    let behind : record w.db {
      pull_requests = row ∷ w.db.pull_requests;
      next_pull = suc w.db.next_pull;
    }
        ≡ db =
      cc in
    let (number, fine) = opened-IsOpened git repo u b changed w.db.next_pull now row made in
    (
      subst (λ d. Inv repo (record w { db = d })) behind
          (added-Inv repo w row (suc w.db.next_pull) v fine.is_open fine.blank
            (λ q m e. omega (arith, e, number, below q m))),
      subst (IsOpened git repo u) same fine,
    )
