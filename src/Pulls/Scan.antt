-- ===== src/Pulls/Scan.antt =====
-- The loop of pullBlockers over the reviews: only the first row of each author counts, and only if
-- that author can write now.
use mathlib.Core.List.{concat-ne-nil}
use gitclub.Base.{
  ℕ, ◌≤◌, ◌≡◌, ◌≢◌, ◌⊎◌, inl, inr, refl, sym, ap, subst, ◌∙◌, bytes, Bool, true, false, List, [],
  ◌∷◌, arith, if◌then◌else◌, ◌==◌, nat_eq, str_keys, any, In, In-All, Bool-cases,
}
use native.Mathlib.Decide.{ℕ_discrete}
use gitclub.Base.Sorting.{Ordered}
use gitclub.Schema.{Review}
use gitclub.Pulls.Blockers.{newer, Tally, seen_author, requested, judge, scan}

-- r is the first row of its author from here on, and its author has not been seen.
pub data First (r : Review) : List ℕ → List Review → Type 0 where
  first :
      {x : Review} {seen : List ℕ} {rs : List Review}
      → x ≡ r
      → seen_author seen r ≡ false
      → First r seen (x ∷ rs)
  later :
      {x : Review} {seen : List ℕ} {rs : List Review}
      → First r (if seen_author seen x then seen else x.author_id ∷ seen) rs
      → First r seen (x ∷ rs)

module _ (writer : ℕ → Bool) (author : ℕ) where
  abbrev pub Approves : Review → Type 0
  Approves r =
      (writer r.author_id ≡ true)
      × ((r.decision == bytes "approve") ≡ true)
      × (r.author_id ≢ author)

  abbrev pub Requests : Review → Type 0
  Requests r = (writer r.author_id ≡ true) × ((r.decision == bytes "request_changes") ≡ true)

  scan_approved_of :
      (rs : List Review) (seen : List ℕ) (t : Tally)
      → t.approved ≡ true
      → (scan writer author rs seen t).approved ≡ true
  unfolding scan judge
  scan_approved_of [] seen t h = h
  scan_approved_of (x ∷ rs) seen t h = scan_approved_of rs _ _ (ground arith)

  abbrev counted : List ℕ → Review → Tally → Tally
  counted seen x t =
      if seen_author seen x then t else if writer x.author_id then judge author x t else t

  here_or_before :
      (x : Review) (rs : List Review) (seen : List ℕ) (t : Tally)
      → (counted seen x t).approved ≡ true
      → (t.approved ≡ true) ⊎ ((r : Review) × First r seen (x ∷ rs) × Approves r)
  unfolding judge
  here_or_before x rs seen t h = elim (Bool-cases t.approved) [
    | inl q ↦ inl q
    | inr q ↦ inr (x, first refl (ground arith), (ground arith, ground arith, ground arith))
  ]

  pub scan_approved :
      (rs : List Review) (seen : List ℕ) (t : Tally)
      → (scan writer author rs seen t).approved ≡ true
      → (t.approved ≡ true) ⊎ ((r : Review) × First r seen rs × Approves r)
  unfolding scan judge
  scan_approved [] seen t h = inl h
  scan_approved (x ∷ rs) seen t h = elim (scan_approved rs _ _ h) [
    | inl e ↦ here_or_before x rs seen t e
    | inr (r, f, a) ↦ inr (r, later f, a)
  ]

  counted_approved :
      (x : Review) (seen : List ℕ) (t : Tally)
      → seen_author seen x ≡ false
      → Approves x
      → (counted seen x t).approved ≡ true
  unfolding judge
  counted_approved x seen t fresh (w, d, n) = rw (fresh, w) (ground arith)

  counted_blockers :
      (x : Review) (seen : List ℕ) (t : Tally)
      → (counted seen x t).blockers ≡ []
      → (t.blockers ≡ []) × (seen_author seen x ≡ false → ¬ Requests x)
  unfolding judge
  counted_blockers x seen t h = (
    ground (arith, concat-ne-nil requested t.blockers),
    λ fresh (w, d). concat-ne-nil requested t.blockers (ground arith),
  )

  counted_blockers_nil :
      (x : Review) (seen : List ℕ) (t : Tally)
      → t.blockers ≡ []
      → (seen_author seen x ≡ false → ¬ Requests x)
      → (counted seen x t).blockers ≡ []
  unfolding judge
  counted_blockers_nil x seen t e n = ground arith

  pub approved_of_First :
      (r : Review) (rs : List Review) (seen : List ℕ) (t : Tally)
      → First r seen rs
      → Approves r
      → (scan writer author rs seen t).approved ≡ true
  unfolding scan
  approved_of_First r [] seen t f a = elim f [ ]
  approved_of_First r (x ∷ rs) seen t (first e fresh) a =
      scan_approved_of rs _ _ (
        subst (λ y. (counted seen y t).approved ≡ true) (sym e) (counted_approved r seen t fresh a))
  approved_of_First r (x ∷ rs) seen t (later f) a = approved_of_First r rs _ _ f a

  refused :
      (x : Review) (rs : List Review) (seen : List ℕ)
      → (seen_author seen x ≡ false → ¬ Requests x)
      → ((r : Review)
          → First r (if seen_author seen x then seen else x.author_id ∷ seen) rs
          → ¬ Requests r)
      → (r : Review) → First r seen (x ∷ rs)
      → ¬ Requests r
  refused x rs seen now rest r (first e fresh) =
      subst (λ y. (seen_author seen y ≡ false → ¬ Requests y)) e now fresh
  refused x rs seen now rest r (later f) = rest r f

  pub scan_blockers :
      (rs : List Review) (seen : List ℕ) (t : Tally)
      → (scan writer author rs seen t).blockers ≡ []
      → (t.blockers ≡ []) × ((r : Review) → First r seen rs → ¬ Requests r)
  unfolding scan
  scan_blockers [] seen t h = (h, λ r f. elim f [ ])
  scan_blockers (x ∷ rs) seen t h =
      let (e, rest) = scan_blockers rs _ _ h in
      ((counted_blockers x seen t e).0, refused x rs seen (counted_blockers x seen t e).1 rest)

  pub blockers_nil :
      (rs : List Review) (seen : List ℕ) (t : Tally)
      → t.blockers ≡ []
      → ((r : Review) → First r seen rs → ¬ Requests r)
      → (scan writer author rs seen t).blockers ≡ []
  unfolding scan
  blockers_nil [] seen t e none_asks = e
  blockers_nil (x ∷ rs) seen t e none_asks =
      blockers_nil rs _ _
        (counted_blockers_nil x seen t e (λ fresh. none_asks x (first refl fresh)))
        (λ r f. none_asks r (later f))

abbrev pub noted : List ℕ → Review → List ℕ
noted seen x = if seen_author seen x then seen else x.author_id ∷ seen

pub First-In : (r : Review) (seen : List ℕ) (rs : List Review) → First r seen rs → In r rs
First-In r seen [] f = elim f [ ]
First-In r seen (x ∷ rs) (first e fresh) = inl e
First-In r seen (x ∷ rs) (later f) = inr (First-In r (noted seen x) rs f)

seen_same :
    (seen : List ℕ) (x r : Review)
    → x.author_id ≡ r.author_id
    → seen_author seen x ≡ seen_author seen r
seen_same seen x r e = rw e

noted_self :
    (seen : List ℕ) (x r : Review)
    → seen_author (noted seen x) r ≡ false
    → x.author_id ≢ r.author_id
unfolding any
noted_self seen x r h e = ground (arith, seen_same seen x r e)

noted_fresh :
    (seen : List ℕ) (x r : Review)
    → seen_author (noted seen x) r ≡ false
    → seen_author seen r ≡ false
unfolding any
noted_fresh seen x r h = ground arith

First-fresh :
    (r : Review) (seen : List ℕ) (rs : List Review) → First r seen rs → seen_author seen r ≡ false
First-fresh r seen [] f = elim f [ ]
First-fresh r seen (x ∷ rs) (first e fresh) = fresh
First-fresh r seen (x ∷ rs) (later f) = noted_fresh seen x r (First-fresh r (noted seen x) rs f)

-- In newest-first order the first row of an author is the newest.
pub First-newest :
    (r : Review) (seen : List ℕ) (rs : List Review)
    → Ordered newer rs
    → First r seen rs
    → (q : Review) → In q rs
    → q.author_id ≡ r.author_id
    → q.id ≤ r.id
First-newest r seen [] o f q m e = elim m [ ]
First-newest r seen (x ∷ rs) o (first x_r fresh) q (inl x_q) e =
    omega (arith, ap (λ (y : Review). y.id) x_r, ap (λ (y : Review). y.id) x_q)
First-newest r seen (x ∷ rs) o (first x_r fresh) q (inr m) e =
    ground (arith, ap (λ (y : Review). y.id) x_r, In-All (λ y. newer y x ≡ false) {a = q} rs o.0 m)
First-newest r seen (x ∷ rs) o (later f) q (inl x_q) e = absurd (
    noted_self seen x r (First-fresh r (noted seen x) rs f)
      (ap (λ (y : Review). y.author_id) x_q ∙ e))
First-newest r seen (x ∷ rs) o (later f) q (inr m) e = First-newest r (noted seen x) rs o.1 f q m e

noted_other :
    (seen : List ℕ) (x r : Review)
    → x.author_id ≢ r.author_id
    → seen_author seen r ≡ false
    → seen_author (noted seen x) r ≡ false
unfolding any
noted_other seen x r h e = ground arith

-- With distinct identifiers, the newest row of an author is the first.
pub newest-First :
    (r : Review) (seen : List ℕ) (rs : List Review)
    → ((x y : Review) → In x rs → In y rs → x.id ≡ y.id → x ≡ y)
    → Ordered newer rs
    → seen_author seen r ≡ false
    → In r rs
    → ((q : Review) → In q rs → q.author_id ≡ r.author_id → q.id ≤ r.id)
    → First r seen rs
newest-First r seen [] unique o fresh m newest = elim m [ ]
newest-First r seen (x ∷ rs) unique o fresh (inl e) newest = first e fresh
newest-First r seen (x ∷ rs) unique o fresh (inr m) newest =
    elim (ℕ_discrete x.author_id r.author_id) [
      | yes same ↦
          first
            (unique x r (inl refl) (inr m) (
              ground (
                arith,
                newest x (inl refl) same,
                In-All (λ y. newer y x ≡ false) {a = r} rs o.0 m,
              )))
            fresh
      | no other ↦ later (
          newest-First r (noted seen x) rs (λ a b a_in b_in. unique a b (inr a_in) (inr b_in)) o.1
            (noted_other seen x r other fresh) m (λ q q_in. newest q (inr q_in)))
    ]
