-- ===== src/Merge/Editing.antt =====
-- A PATCH of a pull request keeps the table, the ledger and the markers together: merged rows are
-- never edited.
use gitclub.Base.{
  ℕ, ◌≡◌, ◌≢◌, ◌⊎◌, inl, inr, sym, ap, subst, ◌∙◌, Str, bytes, Bool, true, false, not, ◌&&◌, List,
  Option, some, none, arith, if◌then◌else◌, ◌==◌, nat_eq, nat_beq_iff, str_keys, In, In-update,
  update-In, ok, fail_if, fail_if-eq-ok, >>=-eq-ok, Bool-cases,
}
use gitclub.Schema.{Db, Repo, Pull, Identity, PullState, open_state, closed_state, merged_state}
use gitclub.Access.{Server, role}
use gitclub.Git.{Tips}
use gitclub.Pulls.Discussion.{
  Field, given_text, given_state, given_task, is_merged, Edit, Written, edited, write_pull,
  edit_pull, Opinion, reviewed, review_pull,
}
use gitclub.Merge.World.{World, MarkerFile}
use gitclub.Merge.Invariant.{Recorded, Consistent, Inv}

given_state-open :
    (f : Option Field) (p q : PullState)
    → given_state f p ≡ ok q
    → is_merged p ≡ false
    → is_merged q ≡ false
unfolding given_state
given_state-open none p q e h = ground arith
given_state-open (some v) p q e h = ground arith

not_merged : (p : PullState) → is_merged p ≡ false → p ≢ merged_state
not_merged open_state h e = cc
not_merged closed_state h e = cc
not_merged merged_state h e = cc

module _ (d : Pull) (w : Written) (now : ℕ) (pulls : List Pull) (d_in : In d pulls)
    (unique : (p q : Pull) → In p pulls → In q pulls → p.id ≡ q.id → p ≡ q)
    (d_open : d.state ≢ merged_state) (w_open : w.state ≢ merged_state) where
  abbrev named : Pull → Bool
  named p = p.id == d.id

  abbrev written : Pull → Pull
  written p = record p {
    title = w.title;
    body = w.body;
    state = w.state;
    kaneo_task_url = w.task;
    updated_at = now;
  }

  abbrev row_after : Pull → Pull
  row_after p = if named p then written p else p

  -- A merged row behind the update is the row before it.
  row_before :
      (q : Pull)
      → In q (write_pull d w now pulls)
      → (a : Pull) × In a pulls
        × (q ≡ row_after a)
        × (q.repo_id ≡ a.repo_id)
        × (q.merged_oid ≡ a.merged_oid)
        × ((q ≡ a) ⊎ ((q.state ≢ merged_state) × (a.state ≢ merged_state)))
  unfolding write_pull
  row_before q q_in =
      let (a, a_in, e) = In-update named written q pulls q_in in
      (
        a,
        a_in,
        e,
        ap (λ (x : Pull). x.repo_id) e ∙ ground arith,
        ap (λ (x : Pull). x.merged_oid) e ∙ ground arith,
        elim (Bool-cases (named a)) [
          | inl t ↦
              let q_w : q ≡ written a = e ∙ rw t in
              let a_d : a ≡ d = unique a d a_in d_in ((nat_beq_iff a.id d.id).0 t) in
              inr (
                subst (λ (x : Pull). x.state ≢ merged_state) (sym q_w) w_open,
                subst (λ (x : Pull). x.state ≢ merged_state) (sym a_d) d_open,
              )
          | inr t ↦ inl (e ∙ rw t)
        ],
      )

  row_kept :
      (a : Pull)
      → In a pulls
      → (b : Pull) × In b (write_pull d w now pulls)
        × (b.id ≡ a.id)
        × (b.repo_id ≡ a.repo_id)
        × (a.state ≡ merged_state → b ≡ a)
  unfolding write_pull
  row_kept a a_in = (
    row_after a,
    update-In named written a pulls a_in,
    ground arith,
    ground arith,
    λ m. elim (Bool-cases (named a)) [
      | inl t ↦
          let a_d : a ≡ d = unique a d a_in d_in ((nat_beq_iff a.id d.id).0 t) in
          absurd (d_open (ap (λ (x : Pull). x.state) (sym a_d) ∙ m))
      | inr t ↦ rw t
    ],
  )

  row_after-id : (p : Pull) → (row_after p).id ≡ p.id
  row_after-id p = ground arith

  still_unique :
      (p q : Pull)
      → In p (write_pull d w now pulls)
      → In q (write_pull d w now pulls)
      → p.id ≡ q.id
      → p ≡ q
  still_unique p q p_in q_in e =
      let (a, a_in, pa, _, _, _) = row_before p p_in in
      let (b, b_in, qb, _, _, _) = row_before q q_in in
      let ids : a.id ≡ b.id =
        sym (row_after-id a)
        ∙ (ap (λ (x : Pull). x.id) (sym pa)
            ∙ (e ∙ (ap (λ (x : Pull). x.id) qb ∙ row_after-id b))) in
      pa ∙ (ap row_after (unique a b a_in b_in ids) ∙ sym qb)

  still-Recorded :
      (r : Repo) (id : ℕ) (oid : Str)
      → Recorded r pulls id oid
      → Recorded r (write_pull d w now pulls) id oid
  still-Recorded r id oid x =
      let (b, b_in, _, _, same) = row_kept x.pull x.stored in
      let e = same x.is_merged in
      record {
        pull = x.pull;
        stored = subst (λ (y : Pull). In y (write_pull d w now pulls)) e b_in;
        same_id = x.same_id;
        same_repo = x.same_repo;
        is_merged = x.is_merged;
        same_oid = x.same_oid;
      }

  write_pull-Consistent :
      (r : Repo) (ledger : ℕ → Option Str) (markers : List MarkerFile)
      → Consistent r pulls ledger markers
      → Consistent r (write_pull d w now pulls) ledger markers
  write_pull-Consistent r ledger markers v = record {
    unique_pulls = still_unique;
    unmerged_blank = λ p p_in h.
        let (a, a_in, _, _, o, c) = row_before p p_in in
        o
        ∙ v.unmerged_blank a a_in
            (elim c [ inl e ↦ subst (λ (x : Pull). x.state ≢ merged_state) e h | inr n ↦ n.1 ]);
    no_lost_merge = λ id oid l. elim (v.no_lost_merge id oid l) [
      | inl x ↦ inl (still-Recorded r id oid x)
      | inr i ↦ inr i
    ];
    no_false_merge = λ p p_in h m.
        let (a, a_in, _, _, _, c) = row_before p p_in in
        elim c [
          | inl e ↦
              subst (λ (x : Pull). ledger x.id ≡ some x.merged_oid) (sym e)
                (v.no_false_merge a a_in (subst (λ (x : Pull). x.repo_id ≡ r.id) e h)
                  (subst (λ (x : Pull). x.state ≡ merged_state) e m))
          | inr n ↦ absurd (n.0 m)
        ];
    markers_named = λ f m f_in q.
        let (name, (p, p_in, i, h)) = v.markers_named f m f_in q in
        let (b, b_in, b_id, b_repo, _) = row_kept p p_in in (name, (b, b_in, b_id ∙ i, b_repo ∙ h));
    markers_agree = v.markers_agree;
  }

-- Whatever a PATCH of a stored pull request asks for, a success keeps a consistent state
-- consistent, and the pull request was not merged.
pub edit_pull-Inv :
    (s : Server) (r : Repo) (u : Identity) (d : Pull) (e : Edit) (now : ℕ) (w : World) (db : Db)
    → Inv r w
    → In d w.db.pull_requests
    → edit_pull s w.db r u d e now ≡ ok db
    → Inv r (record w { db = db }) × (d.state ≢ merged_state)
unfolding edit_pull edited
edit_pull-Inv s r u d e now w db v d_in h =
    let (x, h0, done) = >>=-eq-ok (edited s w.db r u d e) _ h in
    let (_, _, h1) =
      >>=-eq-ok
        (fail_if (not (d.author_id == u.id) && not (role s w.db r (some u) == bytes "admin")) 403 _)
        _ h0 in
    let (_, m, h2) = >>=-eq-ok (fail_if (is_merged d.state) 409 _) _ h1 in
    let (title, _, h3) = >>=-eq-ok (given_text e.title d.title true 240 _) _ h2 in
    let (body, _, h4) = >>=-eq-ok (given_text e.body d.body false 65536 _) _ h3 in
    let (state, t, h5) = >>=-eq-ok (given_state e.state d.state) _ h4 in
    let (task, _, h6) = >>=-eq-ok (given_task e.task d.kaneo_task_url) _ h5 in
    let open_d = fail_if-eq-ok _ 409 _ m in
    let open_q = given_state-open e.state d.state state t open_d in
    let same : state ≡ x.state = cc in
    let stored : write_pull d x now w.db.pull_requests ≡ db.pull_requests = cc in
    (
      subst (λ ps. Consistent r ps w.refs.ledger w.markers) stored
          (write_pull-Consistent d x now w.db.pull_requests d_in v.unique_pulls
            (not_merged d.state open_d)
            (subst (λ q. q ≢ merged_state) same (not_merged state open_q)) r w.refs.ledger w.markers
            v),
      not_merged d.state open_d,
    )

pub review_pull-Inv :
    (r : Repo) (u : Identity) (d : Pull) (tips : Tips) (o : Opinion) (id now : ℕ) (w : World)
    (db : Db)
    → Inv r w
    → review_pull w.db u d tips o id now ≡ ok db
    → Inv r (record w { db = db })
unfolding review_pull
review_pull-Inv r u d tips o id now w db v h =
    let (x, _, done) = >>=-eq-ok (reviewed u d tips o id now) _ h in
    let same : w.db.pull_requests ≡ db.pull_requests = cc in
    subst (λ ps. Consistent r ps w.refs.ledger w.markers) same v
