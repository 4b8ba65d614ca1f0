-- ===== src/Pulls/Mergeable.antt =====
-- pullBlockers against a description of when a pull request may merge: each reviewer counts with the
-- latest review of the current head, and only while having write access.
use mathlib.Core.List.{concat-ne-nil}
use gitclub.Base.{
  ℕ, ◌++◌, ◌≤◌, ◌≡◌, ◌≢◌, ◌↔◌, inl, inr, refl, String, Str, bytes, true, false, List, [], ◌∷◌, some,
  arith, if◌then◌else◌, ◌==◌, nat_eq, str_keys, str_eq, str_eq_iff, any, length, In, In-select,
  select-In,
}
use gitclub.Base.Sorting.{sort, Ordered, sort-Ordered, In-sort, sort-In}
use gitclub.Schema.{Db, Repo, Pull, Review, open_state}
use gitclub.Access.{Server, rank, role}
use gitclub.Git.{Git}
use gitclub.Pulls.Blockers.{
  newer, decides, review_rows, is_writer, Tally, scan, review_blockers, state_blockers,
  pull_blockers,
}
use gitclub.Pulls.Scan.{
  First, scan_approved, approved_of_First, scan_blockers, blockers_nil, First-In, First-newest,
  newest-First,
}

-- The identifiers of the reviews are distinct: id is the primary key.
abbrev pub UniqueReviews : Db → Type 0
UniqueReviews db = (x y : Review) → In x db.reviews → In y db.reviews → x.id ≡ y.id → x ≡ y

-- r is the latest review of its author at this head that is not a mere comment.
pub record IsLatest (db : Db) (pull : Pull) (head : Str) (r : Review) : Type 0 where
  pub stored : In r db.reviews
  pub of_pull : r.pull_id ≡ pull.id
  pub of_head : r.commit_oid ≡ head
  pub decided : r.decision ≢ bytes "comment"
  pub newest :
      (q : Review)
      → In q db.reviews
      → q.pull_id ≡ pull.id
      → q.commit_oid ≡ head
      → q.decision ≢ bytes "comment"
      → q.author_id ≡ r.author_id
      → q.id ≤ r.id

module _ (s : Server) (db : Db) (repo : Repo) (pull : Pull) (head : Str) where
  abbrev pub CanWrite : ℕ → Type 0
  CanWrite uid = 2 ≤ rank (role s db repo (some (record { id = uid; username = [] })))

  pub record IsApproval (r : Review) : Type 0 where
    pub latest : IsLatest db pull head r
    pub by_writer : CanWrite r.author_id
    pub approves : r.decision ≡ bytes "approve"
    pub by_another : r.author_id ≢ pull.author_id

  pub record MayMerge (git : Git) (base : Str) : Type 0 where
    pub is_open : pull.state ≡ open_state
    pub has_base : base ≢ []
    pub has_head : head ≢ []
    pub differs : base ≢ head
    pub nobody_objects :
        (r : Review)
        → IsLatest db pull head r
        → CanWrite r.author_id
        → r.decision ≢ bytes "request_changes"
    pub is_approved : repo.require_review ≡ true → (r : Review) × IsApproval r
    pub merges : (out : Str) × (git.merge_tree base head ≡ some out)

module _ (s : Server) (db : Db) (repo : Repo) (pull : Pull) (head : Str)
    (unique : UniqueReviews db) where
  abbrev rows : List Review
  rows = review_rows db pull.id head

  newer-Ordered : (xs : List Review) → Ordered newer (sort newer xs)
  newer-Ordered = sort-Ordered newer (λ x y h. ground arith) (λ x y z h k. ground arith)

  decides_iff :
      (r : Review)
      → (decides pull.id head r ≡ true)
        ↔ ((r.pull_id ≡ pull.id) × (r.commit_oid ≡ head) × (r.decision ≢ bytes "comment"))
  decides_iff r =
      ground (arith, str_eq_iff r.commit_oid head, str_eq_iff r.decision (bytes "comment"))

  In-rows : (r : Review) → In r rows → In r db.reviews × (decides pull.id head r ≡ true)
  unfolding review_rows
  In-rows r m = In-select (decides pull.id head) {a = r} db.reviews (In-sort newer r _ m)

  rows-In : (r : Review) → In r db.reviews → decides pull.id head r ≡ true → In r rows
  unfolding review_rows
  rows-In r m d = sort-In newer r _ (select-In (decides pull.id head) {a = r} db.reviews m d)

  IsLatest-of_First : (r : Review) → First r [] rows → IsLatest db pull head r
  IsLatest-of_First r f =
      let (r_in, d) = In-rows r (First-In r [] rows f) in
      let (p, c, n) = (decides_iff r).0 d in
      record {
        stored = r_in;
        of_pull = p;
        of_head = c;
        decided = n;
        newest = λ q q_in qp qc qn same.
            First-newest r [] rows (unfold review_rows in newer-Ordered _) f q
              (rows-In q q_in ((decides_iff q).1 (qp, qc, qn))) same;
      }

  First-of_latest : (r : Review) → IsLatest db pull head r → First r [] rows
  unfolding any
  First-of_latest r l =
      newest-First r [] rows (λ x y x_in y_in. unique x y (In-rows x x_in).0 (In-rows y y_in).0)
        (unfold review_rows in newer-Ordered _) refl
        (rows-In r l.stored ((decides_iff r).1 (l.of_pull, l.of_head, l.decided)))
        (λ q q_in same.
          let (q_in', d) = In-rows q q_in in
          let (p, c, n) = (decides_iff q).0 d in l.newest q q_in' p c n same)

  rank_write : rank (bytes "write") ≡ 2
  unfolding rank str_eq
  rank_write = refl

  is_writer_iff : (uid : ℕ) → (is_writer s db repo uid ≡ true) ↔ CanWrite s db repo pull head uid
  unfolding is_writer
  is_writer_iff uid = ground (arith, rank_write)

  abbrev Objectless : Type 0
  Objectless =
      (r : Review)
      → IsLatest db pull head r
      → CanWrite s db repo pull head r.author_id
      → r.decision ≢ bytes "request_changes"

  abbrev start : Str → List String → Tally
  start base before = record {
    approved = false;
    blockers = if base == head then before ++ "Head has no changes to merge" ∷ [] else before;
  }

  abbrev tally : Str → List String → Tally
  tally base before = scan (is_writer s db repo) pull.author_id rows [] (start base before)

  start_nil :
      (base : Str) (before : List String)
      → ((start base before).blockers ≡ []) ↔ ((before ≡ []) × (base ≢ head))
  start_nil base before =
      ground (arith, str_eq_iff base head, concat-ne-nil "Head has no changes to merge" before)

  tally_nil :
      (base : Str) (before : List String)
      → ((tally base before).blockers ≡ []) ↔ ((before ≡ []) × (base ≢ head) × Objectless)
  tally_nil base before = (
    λ h.
        let (e, n) = scan_blockers _ _ rows [] (start base before) h in
        let (e', d) = (start_nil base before).0 e in
        (
          e',
          d,
          λ r l w asks.
              n r (First-of_latest r l) ((is_writer_iff r.author_id).1 w, (str_eq_iff _ _).1 asks),
        ),
    λ (e, d, n).
        blockers_nil _ _ rows [] (start base before) ((start_nil base before).1 (e, d))
          (λ r f (w, asks).
            n r (IsLatest-of_First r f) ((is_writer_iff r.author_id).0 w)
              ((str_eq_iff _ _).0 asks)),
  )

  tally_approved :
      (base : Str) (before : List String)
      → ((tally base before).approved ≡ true) ↔ ((r : Review) × IsApproval s db repo pull head r)
  tally_approved base before = (
    λ h. elim (scan_approved _ _ rows [] (start base before) h) [
      | inl e ↦ cc
      | inr (r, f, (w, a, n)) ↦ (
        r,
        record {
          latest = IsLatest-of_First r f;
          by_writer = (is_writer_iff r.author_id).0 w;
          approves = (str_eq_iff _ _).0 a;
          by_another = n;
        },
      )
    ],
    λ (r, a).
        approved_of_First _ _ r rows [] (start base before) (First-of_latest r a.latest)
          ((is_writer_iff r.author_id).1 a.by_writer, (str_eq_iff _ _).1 a.approves, a.by_another),
  )

  review_blockers_nil :
      (base : Str) (before : List String)
      → (review_blockers s db repo pull base head before ≡ []) ↔ (
          ((tally base before).blockers ≡ [])
          × (repo.require_review ≡ true → (tally base before).approved ≡ true))
  unfolding review_blockers
  review_blockers_nil base before = ground (
    arith,
    concat-ne-nil "Approval of the current head by another writer is required"
        (tally base before).blockers,
  )

  open_iff : (state_blockers pull.state ≡ []) ↔ (pull.state ≡ open_state)
  open_iff = ground arith

  length_pos : (xs : Str) → xs ≢ [] → length xs ≢ 0
  length_pos [] h = absurd (h refl)
  length_pos (x ∷ xs) h = omega arith

  split_of_nil :
      (git : Git) (base : Str)
      → (pull_blockers s db git repo pull base head).0 ≡ []
      → (base ≢ [])
        × (head ≢ [])
        × (review_blockers s db repo pull base head (state_blockers pull.state) ≡ [])
        × ((out : Str) × (git.merge_tree base head ≡ some out))
  unfolding pull_blockers
  split_of_nil git base h = (
    λ e. concat-ne-nil missing (state_blockers pull.state) (ground arith),
    λ e. concat-ne-nil missing (state_blockers pull.state) (ground arith),
    ground (
      arith,
      concat-ne-nil missing (state_blockers pull.state),
      concat-ne-nil conflict (review_blockers s db repo pull base head (state_blockers pull.state)),
    ),
    ground (
      arith,
      concat-ne-nil missing (state_blockers pull.state),
      concat-ne-nil conflict (review_blockers s db repo pull base head (state_blockers pull.state)),
    ),
  )
    where
      missing : String
      missing = "Restore the missing base or head branch"

      conflict : String
      conflict = "Resolve merge conflicts or incompatible branch history"

  nil_of_split :
      (git : Git) (base out : Str)
      → base ≢ []
      → head ≢ []
      → review_blockers s db repo pull base head (state_blockers pull.state) ≡ []
      → git.merge_tree base head ≡ some out
      → (pull_blockers s db git repo pull base head).0 ≡ []
  unfolding pull_blockers
  nil_of_split git base out b h r e = ground (arith, length_pos base b, length_pos head h)

  -- Where the reviews have distinct identifiers, there is no blocker exactly if the pull request is
  -- open, both tips exist and differ, no writer's latest review of this head requests changes, a
  -- required approval was given by a writer other than the author as the latest review, and git
  -- merges the two tips.
  pub pull_blockers-MayMerge :
      (git : Git) (base : Str)
      → ((pull_blockers s db git repo pull base head).0 ≡ [])
        ↔ MayMerge s db repo pull head git base
  pull_blockers-MayMerge git base = (
    λ h.
        let (b, e, r, m) = split_of_nil git base h in
        let (t, needed) = (review_blockers_nil base (state_blockers pull.state)).0 r in
        let (o, d, n) = (tally_nil base (state_blockers pull.state)).0 t in
        record {
          is_open = open_iff.0 o;
          has_base = b;
          has_head = e;
          differs = d;
          nobody_objects = n;
          is_approved = λ q. (tally_approved base (state_blockers pull.state)).0 (needed q);
          merges = m;
        },
    λ m.
        nil_of_split git base m.merges.0 m.has_base m.has_head
          ((review_blockers_nil base (state_blockers pull.state)).1 (
            (tally_nil base (state_blockers pull.state)).1
                (open_iff.1 m.is_open, m.differs, m.nobody_objects),
            λ q. (tally_approved base (state_blockers pull.state)).1 (m.is_approved q),
          ))
          m.merges.1,
  )
