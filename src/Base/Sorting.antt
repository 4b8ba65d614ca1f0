-- ===== src/Base/Sorting.antt =====
-- Ordering rows by a comparison, as ORDER BY and sort.Slice do: the result is a rearrangement in
-- which no row comes before an earlier one.
use mathlib.Core.Path.{◌≡◌}
use mathlib.Core.Logic.{◌⊎◌, inl, inr}
use mathlib.Core.Bool.{Bool, true, false}
use mathlib.Core.List.{List, [], ◌∷◌, Perm}
use mathlib.Core.List.Perm
use native.Mathlib.Omega.{arith}
use gitclub.Base.Tests.{if◌then◌else◌, Bool-cases}
use gitclub.Base.Lists.{In, All}

module _ {ℓ} {A : Type ℓ} (before : A → A → Bool) where
  unfoldable pub insert : A → List A → List A
  insert x [] = x ∷ []
  insert x (y ∷ ys) = let rest = insert x ys in if before y x then y ∷ rest else x ∷ y ∷ ys

  unfoldable pub sort : List A → List A
  unfolding insert
  sort [] = []
  sort (x ∷ xs) = insert x (sort xs)

  insert-In : (a x : A) (ys : List A) → (x ≡ a) ⊎ In a ys → In a (insert x ys)
  unfolding insert
  insert-In a x [] m = m
  insert-In a x (y ∷ ys) m = ground (arith, insert-In a x ys)

  pub In-insert : (a x : A) (ys : List A) → In a (insert x ys) → (x ≡ a) ⊎ In a ys
  unfolding insert
  In-insert a x [] m = m
  In-insert a x (y ∷ ys) m = ground (arith, In-insert a x ys)

  pub sort-In : (a : A) (xs : List A) → In a xs → In a (sort xs)
  unfolding sort
  sort-In a [] m = m
  sort-In a (x ∷ xs) (inl e) = insert-In a x (sort xs) (inl e)
  sort-In a (x ∷ xs) (inr m) = insert-In a x (sort xs) (inr (sort-In a xs m))

  pub In-sort : (a : A) (xs : List A) → In a (sort xs) → In a xs
  unfolding sort
  In-sort a [] m = m
  In-sort a (x ∷ xs) m = ground (arith, In-insert a x (sort xs) m, In-sort a xs)

  insert-perm : (x : A) (ys : List A) → Perm (insert x ys) (x ∷ ys)
  unfolding insert
  insert-perm x [] = Perm.refl _
  insert-perm x (y ∷ ys) = elim (Bool-cases (before y x)) [
    | inl e ↦ rw (e, insert) (Perm.trans (Perm.cons y (insert-perm x ys)) (Perm.swap x y ys))
    | inr e ↦ rw (e, insert) (Perm.refl _)
  ]

  pub sort-perm : (xs : List A) → Perm (sort xs) xs
  unfolding sort
  sort-perm [] = Perm.refl _
  sort-perm (x ∷ xs) = Perm.trans (insert-perm x (sort xs)) (Perm.cons x (sort-perm xs))

  abbrev pub Ordered : List A → Type ℓ
  Ordered [] = Unit
  Ordered (x ∷ xs) = All (λ y. before y x ≡ false) xs × Ordered xs

  module _ (asym : (x y : A) → before y x ≡ true → before x y ≡ false)
      (trans : (x y z : A) → before y x ≡ false → before z y ≡ false → before z x ≡ false) where
    All-after :
        (x y : A) (ys : List A)
        → before y x ≡ false
        → All (λ z. before z y ≡ false) ys
        → All (λ z. before z x ≡ false) ys
    All-after x y [] h all = tt
    All-after x y (z ∷ zs) h all = (trans x y z h all.0, All-after x y zs h all.1)

    All-insert :
        (y x : A) (ys : List A)
        → before x y ≡ false
        → All (λ z. before z y ≡ false) ys
        → All (λ z. before z y ≡ false) (insert x ys)
    unfolding insert
    All-insert y x [] h all = (h, tt)
    All-insert y x (z ∷ zs) h all = ground (arith, All-insert y x zs h all.1)

    insert-Ordered : (x : A) (ys : List A) → Ordered ys → Ordered (insert x ys)
    unfolding insert
    insert-Ordered x [] o = (tt, tt)
    insert-Ordered x (y ∷ ys) o =
        ground (arith, insert-Ordered x ys o.1, All-insert y x ys, asym x y, All-after x y ys)

    pub sort-Ordered : (xs : List A) → Ordered (sort xs)
    unfolding sort
    sort-Ordered [] = tt
    sort-Ordered (x ∷ xs) = insert-Ordered x (sort xs) (sort-Ordered xs)
