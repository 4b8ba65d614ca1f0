-- ===== src/Pulls/Reviewing.antt =====
-- What a review that was accepted says.
use gitclub.Base.{
  ℕ, ◌≡◌, ◌≢◌, ◌<◌, inl, inr, refl, sym, ap, subst, bytes, false, not, ◌&&◌, ◌∷◌, arith, length,
  ◌==◌, nat_eq, str_keys, str_eq_iff, In, ok, fail_if, fail_if-eq-ok, >>=-eq-ok,
}
use gitclub.Schema.{Db, Pull, Review, Identity, PullState, open_state, closed_state, merged_state}
use gitclub.Git.{Tips}
use gitclub.Pulls.Mergeable.{IsLatest}
use gitclub.Pulls.Discussion.{
  str, discussion_text, Opinion, is_decision, is_over, reviewed, review_pull,
}

-- An accepted review is of an open pull request, of the head that its author was shown and that is
-- still current, and approves only another's work.
pub record Reviewed (u : Identity) (d : Pull) (tips : Tips) (o : Opinion) (id : ℕ) (r : Review)
    : Type 0 where
  pub is_open : d.state ≡ open_state
  pub same_id : r.id ≡ id
  pub same_pull : r.pull_id ≡ d.id
  pub same_author : r.author_id ≡ u.id
  pub same_decision : r.decision ≡ str o.decision
  pub shown_head : str o.expected_head_oid ≡ tips.head
  pub same_head : r.commit_oid ≡ tips.head
  pub of_another : r.decision ≡ bytes "approve" → d.author_id ≢ u.id

open_of : (p : PullState) → is_over p ≡ false → p ≡ open_state
open_of open_state h = refl
open_of closed_state h = cc
open_of merged_state h = cc

reviewed-Reviewed :
    (u : Identity) (d : Pull) (tips : Tips) (o : Opinion) (id now : ℕ) (r : Review)
    → reviewed u d tips o id now ≡ ok r
    → Reviewed u d tips o id r
unfolding reviewed
reviewed-Reviewed u d tips o id now r h =
    let (_, a, h1) = >>=-eq-ok (fail_if (is_over d.state) 409 _) _ h in
    let (_, b, h2) = >>=-eq-ok (fail_if (not (is_decision (str o.decision))) 400 _) _ h1 in
    let (_, c, h3) =
      >>=-eq-ok (fail_if (str o.decision == bytes "approve" && d.author_id == u.id) 403 _) _ h2 in
    let (content, e, h4) = >>=-eq-ok (discussion_text o.body false 65536 _) _ h3 in
    let (_, f, h5) = >>=-eq-ok (fail_if tips.failed 409 _) _ h4 in
    let (_, g, h6) = >>=-eq-ok (fail_if (length (str o.expected_head_oid) == 0) 400 _) _ h5 in
    let (_, i, h7) = >>=-eq-ok (fail_if (not (str o.expected_head_oid == tips.head)) 409 _) _ h6 in
    let own = fail_if-eq-ok _ 403 _ c in
    let shown = fail_if-eq-ok _ 409 _ i in
    record {
      is_open = open_of d.state (fail_if-eq-ok _ 409 _ a);
      same_id = cc;
      same_pull = cc;
      same_author = cc;
      same_decision = cc;
      shown_head = ground (arith, shown, str_eq_iff (str o.expected_head_oid) tips.head);
      same_head = cc;
      of_another = λ q. ground (arith, own, (str_eq_iff (str o.decision) (bytes "approve")).1 (cc));
    }

-- With identifiers of reviews below the new one, a review that is accepted is stored, is of an open
-- pull request at the head its author was shown, approves only another's work, and unless it is a mere
-- comment it is its author's latest review of that head.
pub review_pull-IsLatest :
    (db : Db) (u : Identity) (d : Pull) (tips : Tips) (o : Opinion) (id now : ℕ) (after : Db)
    → ((q : Review) → In q db.reviews → q.id < id)
    → review_pull db u d tips o id now ≡ ok after
    → (r : Review) × In r after.reviews
      × Reviewed u d tips o id r
      × (r.decision ≢ bytes "comment" → IsLatest after d tips.head r)
unfolding review_pull
review_pull-IsLatest db u d tips o id now after below h =
    let (r, e, done) = >>=-eq-ok (reviewed u d tips o id now) _ h in
    let x = reviewed-Reviewed u d tips o id now r e in
    let stored : r ∷ db.reviews ≡ after.reviews = cc in
    (
      r,
      subst (In r) stored (inl refl),
      x,
      λ c. record {
        stored = subst (In r) stored (inl refl);
        of_pull = x.same_pull;
        of_head = x.same_head;
        decided = c;
        newest = λ q q_in _ _ _ _. elim (subst (In q) (sym stored) q_in) [
          | inl same ↦ omega (arith, ap (λ (y : Review). y.id) same)
          | inr q_in' ↦ omega (arith, below q q_in', x.same_id)
        ];
      },
    )
