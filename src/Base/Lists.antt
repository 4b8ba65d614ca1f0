-- ===== src/Base/Lists.antt =====
-- Lists over native numbers and Boolean tests: sizes, predicates, and rows chosen by a test.
use Prim.Native.Nat.{ℕ, zero, suc, ◌+◌}
use mathlib.Core.Path.{◌≡◌, refl, ap, subst, sym}
use mathlib.Core.Logic.{◌⊎◌, inl, inr}
use mathlib.Core.Bool.{Bool, true, false, ◌&&◌, ◌||◌}
use mathlib.Core.List.{List, [], ◌∷◌, ◌++◌, map}
use mathlib.Core.Option.{Option, none, some}
use native.Mathlib.Omega.{arith}
use gitclub.Base.Tests.{if◌then◌else◌, Bool-cases}

module _ {ℓ} {A : Type ℓ} where
  abbrev pub length : List A → ℕ
  length [] = 0
  length (x ∷ xs) = suc (length xs)

  pub length-append : (xs ys : List A) → length (xs ++ ys) ≡ length xs + length ys
  length-append [] ys = omega arith
  length-append (x ∷ xs) ys = omega (arith, length-append xs ys)

  abbrev pub take : ℕ → List A → List A
  take zero xs = []
  take (suc n) [] = []
  take (suc n) (x ∷ xs) = x ∷ take n xs

-- The empty type at each level.
pub data Never {ℓ} : Type ℓ where

-- Membership with its position, which proofs may take apart.
abbrev pub In {ℓ} : {A : Type ℓ} → A → List A → Type ℓ
In a [] = Never
In a (x ∷ xs) = (x ≡ a) ⊎ In a xs

module _ {ℓ κ} {A : Type ℓ} (P : A → Type κ) where
  abbrev pub All : List A → Type κ
  All [] = Unit
  All (x ∷ xs) = P x × All xs

  pub All-append : (xs ys : List A) → All xs → All ys → All (xs ++ ys)
  All-append [] ys hx hy = hy
  All-append (x ∷ xs) ys hx hy = (hx.0, All-append xs ys hx.1 hy)

module _ {ℓ} {A : Type ℓ} (p : A → Bool) where
  -- Whether some element passes, and whether all do.
  unfoldable pub any : List A → Bool
  any [] = false
  any (x ∷ xs) = p x || any xs

  unfoldable pub all : List A → Bool
  all [] = true
  all (x ∷ xs) = p x && all xs

  -- The rows of a WHERE clause.
  unfoldable pub select : List A → List A
  select [] = []
  select (x ∷ xs) = let rest = select xs in if p x then x ∷ rest else rest

  -- The first row of a WHERE clause.
  unfoldable pub select_one : List A → Option A
  select_one [] = none
  select_one (x ∷ xs) = let rest = select_one xs in if p x then some x else rest

  -- The rows that a DELETE leaves.
  unfoldable pub delete : List A → List A
  delete [] = []
  delete (x ∷ xs) = let rest = delete xs in if p x then rest else x ∷ rest

  -- The rows after an UPDATE.
  unfoldable pub update : (A → A) → List A → List A
  update f [] = []
  update f (x ∷ xs) = (if p x then f x else x) ∷ update f xs

  pub In-any : {a : A} (xs : List A) → In a xs → p a ≡ true → any xs ≡ true
  unfolding any
  In-any [] m h = elim m [ ]
  In-any (x ∷ xs) (inl e) h = ground (arith, ap p e)
  In-any (x ∷ xs) (inr m) h = ground (arith, In-any xs m h)

  pub any-In : (xs : List A) → any xs ≡ true → (a : A) × In a xs × (p a ≡ true)
  unfolding any
  any-In [] h = cc
  any-In (x ∷ xs) h = elim (Bool-cases (p x)) [
    | inl e ↦ (x, inl refl, e)
    | inr e ↦ let (a, m, q) = any-In xs (ground arith) in (a, inr m, q)
  ]

  pub select_one-In : (xs : List A) (a : A) → select_one xs ≡ some a → In a xs × (p a ≡ true)
  unfolding select_one
  select_one-In [] a h = cc
  select_one-In (x ∷ xs) a h = elim (Bool-cases (p x)) [
    | inl e ↦ let q : x ≡ a = ground arith in (inl q, ground (arith, ap p q))
    | inr e ↦ let (m, q) = select_one-In xs a (ground arith) in (inr m, q)
  ]

  pub In-select : {a : A} (xs : List A) → In a (select xs) → In a xs × (p a ≡ true)
  unfolding select
  In-select [] m = elim m [ ]
  In-select {a} (x ∷ xs) m = ground (arith, In-select {a = a} xs)

  pub select-In : {a : A} (xs : List A) → In a xs → p a ≡ true → In a (select xs)
  unfolding select
  select-In [] m h = elim m [ ]
  select-In {a} (x ∷ xs) (inl e) h = ground (arith, ap p e)
  select-In {a} (x ∷ xs) (inr m) h = ground (arith, select-In xs m h)

module _ {ℓ} {A : Type ℓ} where
  pub In-append_left : (a : A) (xs ys : List A) → In a xs → In a (xs ++ ys)
  In-append_left a [] ys m = elim m [ ]
  In-append_left a (x ∷ xs) ys (inl e) = inl e
  In-append_left a (x ∷ xs) ys (inr m) = inr (In-append_left a xs ys m)

  pub In-append_right : (a : A) (xs ys : List A) → In a ys → In a (xs ++ ys)
  In-append_right a [] ys m = m
  In-append_right a (x ∷ xs) ys m = inr (In-append_right a xs ys m)

  pub In-append_cases : (a : A) (xs ys : List A) → In a (xs ++ ys) → In a xs ⊎ In a ys
  In-append_cases a [] ys m = inr m
  In-append_cases a (x ∷ xs) ys (inl e) = inl (inl e)
  In-append_cases a (x ∷ xs) ys (inr m) = elim (In-append_cases a xs ys m) [
    | inl n ↦ inl (inr n)
    | inr n ↦ inr n
  ]

  pub In-map {κ} : {B : Type κ} (f : A → B) (a : A) (xs : List A) → In a xs → In (f a) (map f xs)
  In-map f a [] m = elim m [ ]
  In-map f a (x ∷ xs) (inl e) = inl (ap f e)
  In-map f a (x ∷ xs) (inr m) = inr (In-map f a xs m)

  pub map-In {κ} :
      {B : Type κ} (f : A → B) {b : B} (xs : List A)
      → In b (map f xs)
      → (a : A) × In a xs × (f a ≡ b)
  map-In f [] m = elim m [ ]
  map-In f (x ∷ xs) (inl e) = (x, inl refl, e)
  map-In f (x ∷ xs) (inr m) = let (a, n, e) = map-In f xs m in (a, inr n, e)

  pub In-All {κ} : (P : A → Type κ) {a : A} (xs : List A) → All P xs → In a xs → P a
  In-All P [] h m = elim m [ ]
  In-All P (x ∷ xs) h (inl e) = subst P e h.0
  In-All P (x ∷ xs) h (inr m) = In-All P xs h.1 m

-- A column of the rows of a WHERE clause, both ways.
module _ {ℓ κ} {A : Type ℓ} {B : Type κ} (p : A → Bool) (f : A → B) where
  pub column-In :
      (b : B) (xs : List A)
      → In b (map f (select p xs))
      → (a : A) × In a xs × (p a ≡ true) × (f a ≡ b)
  column-In b xs m =
      let (a, n, e) = map-In f (select p xs) m in
      let (n', q) = In-select p {a = a} xs n in (a, n', q, e)

  pub In-column : (a : A) (xs : List A) → In a xs → p a ≡ true → In (f a) (map f (select p xs))
  In-column a xs m q = In-map f a (select p xs) (select-In p xs m q)

module _ {ℓ} {A : Type ℓ} (p : A → Bool) (f : A → A) where
  -- Each row of an UPDATE comes from a row before it, changed exactly if it passed the test.
  pub In-update :
      (b : A) (xs : List A)
      → In b (update p f xs)
      → (a : A) × In a xs × (b ≡ (if p a then f a else a))
  unfolding update
  In-update b [] m = elim m [ ]
  In-update b (x ∷ xs) (inl e) = (x, inl refl, sym e)
  In-update b (x ∷ xs) (inr m) = let (a, n, e) = In-update b xs m in (a, inr n, e)

  pub update-In : (a : A) (xs : List A) → In a xs → In (if p a then f a else a) (update p f xs)
  unfolding update
  update-In a [] m = elim m [ ]
  update-In a (x ∷ xs) (inl e) = inl (rw e)
  update-In a (x ∷ xs) (inr m) = inr (update-In a xs m)

module _ {ℓ} {A : Type ℓ} (p : A → Bool) where
  pub In-delete : (a : A) (xs : List A) → In a (delete p xs) → In a xs × (p a ≡ false)
  unfolding delete
  In-delete a [] m = elim m [ ]
  In-delete a (x ∷ xs) m = ground (arith, In-delete a xs)

  pub delete-In : (a : A) (xs : List A) → In a xs → p a ≡ false → In a (delete p xs)
  unfolding delete
  delete-In a [] m h = elim m [ ]
  delete-In a (x ∷ xs) (inl e) h = ground (arith, ap p e)
  delete-In a (x ∷ xs) (inr m) h = ground (arith, delete-In a xs m h)

pub nil_of_no_In {ℓ} : {A : Type ℓ} (xs : List A) → ((a : A) → In a xs → ⊥) → xs ≡ []
nil_of_no_In [] h = refl
nil_of_no_In (x ∷ xs) h = absurd (h x (inl refl))
