-- ===== src/Kaneo/Paging.antt =====
-- Reading the pages one behind the other misses no linked merge.
use gitclub.Base.{
  ℕ, zero, suc, ◌++◌, ◌≡◌, ◌≤◌, ◌<◌, ◌↔◌, ◌⊎◌, inl, inr, refl, sym, ap, subst, true, false, List,
  [], ◌∷◌, arith, ltb, ◌==◌, nat_eq, length, select, select-In, In-select, In, In-append_left,
  In-append_right, In-append_cases, Bool-cases,
}
use gitclub.Base.Sorting.{sort, sort-Ordered, sort-In, In-sort}
use gitclub.Base.Pages.{take-In, take_cases, select_drops}
use gitclub.Schema.{Db, Pull}
use gitclub.Kaneo.Readers.{is_linked, comes_before, merge_page}

-- The identifier of the last row.
abbrev pub last_id : Pull → List Pull → ℕ
last_id p [] = p.id
last_id p (q ∷ page) = last_id q page

last_id-In : (p : Pull) (page : List Pull) → (q : Pull) × In q (p ∷ page) × (q.id ≡ last_id p page)
last_id-In p [] = (p, inl refl, refl)
last_id-In p (q ∷ page) = let (r, m, e) = last_id-In q page in (r, inr m, e)

-- What a client reads that asks again behind the last row of each page, until a page is empty.
unfoldable pub read_pages : Db → ℕ → (rounds after : ℕ) → List Pull
read_pages db rid zero after = []
read_pages db rid (suc rounds) after = elim (merge_page db rid after) [
  | [] ↦ []
  | p ∷ page ↦ (p ∷ page) ++ read_pages db rid rounds (last_id p page)
]

-- Rows with one identifier are one.
abbrev pub UniqueIds : Db → Type 0
UniqueIds db = (p q : Pull) → In p db.pull_requests → In q db.pull_requests → p.id ≡ q.id → p ≡ q

module _ (db : Db) (rid : ℕ) where
  abbrev linked : ℕ → List Pull
  linked after = select (is_linked rid after) db.pull_requests

  page_linked :
      (after : ℕ) (p : Pull)
      → In p (merge_page db rid after)
      → In p db.pull_requests × (is_linked rid after p ≡ true)
  unfolding merge_page
  page_linked after p m =
      In-select (is_linked rid after) {a = p} db.pull_requests
        (In-sort comes_before p (linked after) (take-In p 100 (sort comes_before (linked after)) m))

  page_cases :
      (after : ℕ) (p : Pull)
      → In p db.pull_requests
      → is_linked rid after p ≡ true
      → In p (merge_page db rid after)
        ⊎ ((length (merge_page db rid after) ≡ 100)
            × ((q : Pull) → In q (merge_page db rid after) → comes_before p q ≡ false))
  unfolding merge_page
  page_cases after p m t =
      take_cases comes_before p 100 (sort comes_before (linked after))
        (sort-Ordered comes_before (λ x y h. ground (arith, h)) (λ x y z h k. ground (arith, h, k))
          (linked after))
        (sort-In comes_before p (linked after)
          (select-In (is_linked rid after) db.pull_requests m t))

  later-linked :
      (after next : ℕ) (p : Pull)
      → after ≤ next
      → is_linked rid next p ≡ true
      → is_linked rid after p ≡ true
  later-linked after next p h t = ground (arith, h, t)

  beyond :
      (after next : ℕ) (p : Pull)
      → is_linked rid after p ≡ true
      → next < p.id
      → is_linked rid next p ≡ true
  beyond after next p t h = ground (arith, t, h)

  above : (after : ℕ) (p : Pull) → is_linked rid after p ≡ true → after < p.id
  above after p t = ground (arith, t)

  not_beyond : (after : ℕ) (p : Pull) → p.id ≤ after → is_linked rid after p ≡ false
  not_beyond after p h = ground (arith, h)

  -- The list of what follows shrinks with each page.
  next_fewer :
      (after : ℕ) (p : Pull) (page : List Pull)
      → merge_page db rid after ≡ p ∷ page
      → (after < last_id p page) × (length (linked (last_id p page)) < length (linked after))
  next_fewer after p page e =
      let (q, m, same) = last_id-In p page in
      let (q_in, q_linked) = page_linked after q (subst (In q) (sym e) m) in
      let up : after < last_id p page = omega (arith, same, above after q q_linked) in
      (
        up,
        select_drops (is_linked rid after) (is_linked rid (last_id p page)) q db.pull_requests
            (λ b. later-linked after (last_id p page) b (omega (arith, up))) q_in q_linked
            (not_beyond (last_id p page) q (omega (arith, same))),
      )

  read_pages-linked :
      (rounds after : ℕ) (p : Pull)
      → In p (read_pages db rid rounds after)
      → In p db.pull_requests × (is_linked rid after p ≡ true)
  unfolding read_pages
  read_pages-linked zero after p m = elim m [ ]
  read_pages-linked (suc rounds) after p m =
      paged (merge_page db rid after) refl (λ next. read_pages-linked rounds next p) m
    where
      paged :
          (page : List Pull)
          → merge_page db rid after ≡ page
          → ((next : ℕ)
              → In p (read_pages db rid rounds next)
              → In p db.pull_requests × (is_linked rid next p ≡ true))
          → In p (elim page as (λ _. List Pull) [
            | [] ↦ []
            | q ∷ rest ↦ (q ∷ rest) ++ read_pages db rid rounds (last_id q rest)
          ])
          → In p db.pull_requests × (is_linked rid after p ≡ true)
      paged [] e later k = elim k [ ]
      paged (q ∷ rest) e later k =
          elim (In-append_cases p (q ∷ rest) (read_pages db rid rounds (last_id q rest)) k) [
            | inl k' ↦ page_linked after p (subst (In p) (sym e) k')
            | inr k' ↦
                let (p_in, t) = later (last_id q rest) k' in
                (
                  p_in,
                  later-linked after (last_id q rest) p
                      (omega (arith, (next_fewer after q rest e).0)) t,
                )
          ]

  linked_none :
      (after : ℕ) (p : Pull)
      → In p db.pull_requests
      → is_linked rid after p ≡ true
      → length (linked after) ≤ 0
      → ⊥
  linked_none after p m t h =
      some_row (linked after) (select-In (is_linked rid after) db.pull_requests m t) h
    where
      some_row : (xs : List Pull) → In p xs → length xs ≤ 0 → ⊥
      some_row [] k e = elim k [ ]
      some_row (x ∷ xs) k e = omega (arith, e)

  linked-read_pages :
      (rounds after : ℕ) (p : Pull)
      → UniqueIds db
      → length (linked after) ≤ rounds
      → In p db.pull_requests
      → is_linked rid after p ≡ true
      → In p (read_pages db rid rounds after)
  unfolding read_pages
  linked-read_pages zero after p unique h m t = absurd (linked_none after p m t h)
  linked-read_pages (suc rounds) after p unique h m t =
      paged (merge_page db rid after) refl (λ next. linked-read_pages rounds next p unique)
    where
      last_is :
          (q : Pull) (rest : List Pull)
          → (x : Pull) → In x (q ∷ rest)
          → merge_page db rid after ≡ q ∷ rest
          → In x db.pull_requests
      last_is q rest x k e = (page_linked after x (subst (In x) (sym e) k)).0

      paged :
          (page : List Pull)
          → merge_page db rid after ≡ page
          → ((next : ℕ)
              → length (linked next) ≤ rounds
              → In p db.pull_requests
              → is_linked rid next p ≡ true
              → In p (read_pages db rid rounds next))
          → In p (elim page as (λ _. List Pull) [
            | [] ↦ []
            | q ∷ rest ↦ (q ∷ rest) ++ read_pages db rid rounds (last_id q rest)
          ])
      paged [] e later = elim (page_cases after p m t) [
        | inl k ↦ subst (In p) e k
        | inr full ↦ absurd (cc (full.0, ap (length {A = Pull}) e))
      ]
      paged (q ∷ rest) e later =
          let (x, k, same) = last_id-In q rest in
          elim (page_cases after p m t) [
            | inl n ↦
                In-append_left p (q ∷ rest) (read_pages db rid rounds (last_id q rest))
                  (subst (In p) e n)
            | inr full ↦ elim (Bool-cases (x.id == p.id)) [
              | inl one ↦ In-append_left p (q ∷ rest) (read_pages db rid rounds (last_id q rest)) (
                  subst (λ y. In y (q ∷ rest))
                    (unique x p (last_is q rest x k e) m (ground (arith, one))) k)
              | inr two ↦
                  let behind : ltb p.id x.id ≡ false = full.1 x (subst (In x) (sym e) k) in
                  let up : last_id q rest < p.id = ground (arith, same, behind, two) in
                  In-append_right p (q ∷ rest) (read_pages db rid rounds (last_id q rest)) (
                    later (last_id q rest) (omega (arith, h, (next_fewer after q rest e).1)) m
                      (beyond after (last_id q rest) p t up))
            ]
          ]

  -- Where identifiers are unique, a client that asks again behind the last row of each page, as many times
  -- as there are rows to read, reads exactly the linked merges of the repository behind its start.
  pub read_pages_iff :
      (rounds after : ℕ) (p : Pull)
      → UniqueIds db
      → length (linked after) ≤ rounds
      → In p (read_pages db rid rounds after)
        ↔ (In p db.pull_requests × (is_linked rid after p ≡ true))
  read_pages_iff rounds after p unique h =
      (read_pages-linked rounds after p, λ k. linked-read_pages rounds after p unique h k.0 k.1)
