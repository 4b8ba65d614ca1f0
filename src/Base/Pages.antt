-- ===== src/Base/Pages.antt =====
-- The front of an ordered list, and how many rows a test selects.
use Prim.Native.Nat.{ℕ, zero, suc, ◌≤◌, ◌<◌}
use mathlib.Core.Path.{◌≡◌, refl, ap, subst, ◌∙◌}
use mathlib.Core.Logic.{◌⊎◌, inl, inr}
use mathlib.Core.Bool.{Bool, true, false}
use mathlib.Core.List.{List, [], ◌∷◌}
use native.Mathlib.Omega.{arith}
use gitclub.Base.Tests.{Bool-cases}
use gitclub.Base.Lists.{length, take, In, In-All, select}
use gitclub.Base.Sorting.{Ordered}

pub take-In : {A : Type 0} (a : A) (n : ℕ) (xs : List A) → In a (take n xs) → In a xs
take-In a zero xs m = elim m [ ]
take-In a (suc n) [] m = elim m [ ]
take-In a (suc n) (x ∷ xs) (inl e) = inl e
take-In a (suc n) (x ∷ xs) (inr m) = inr (take-In a n xs m)

-- What the front of an ordered list leaves out comes behind all of it.
pub take_cases :
    {A : Type 0} (before : A → A → Bool) (a : A) (n : ℕ) (xs : List A)
    → Ordered before xs
    → In a xs
    → In a (take n xs)
      ⊎ ((length (take n xs) ≡ n) × ((b : A) → In b (take n xs) → before a b ≡ false))
take_cases before a zero xs o m = inr (refl, λ b k. elim k [ ])
take_cases before a (suc n) [] o m = elim m [ ]
take_cases before a (suc n) (x ∷ xs) o (inl e) = inl (inl e)
take_cases {A = A} before a (suc n) (x ∷ xs) o (inr m) = elim (take_cases before a n xs o.1 m) [
  | inl k ↦ inl (inr k)
  | inr full ↦ inr (ap suc full.0, λ b k. behind full.1 b k)
]
  where
    behind :
        ((b : A) → In b (take n xs) → before a b ≡ false)
        → (b : A) → (x ≡ b) ⊎ In b (take n xs)
        → before a b ≡ false
    behind rest b (inl e) =
        subst (λ y. before a y ≡ false) e (In-All (λ y. before y x ≡ false) xs o.0 m)
    behind rest b (inr k) = rest b k

-- A narrower test that drops a row selects fewer.
pub select_fewer :
    {A : Type 0} (p q : A → Bool) (xs : List A)
    → ((a : A) → q a ≡ true → p a ≡ true)
    → length (select q xs) ≤ length (select p xs)
unfolding select
select_fewer p q [] h = omega arith
select_fewer p q (x ∷ xs) h = elim (Bool-cases (q x)) [
  | inl t ↦ rw (t, h x t) (ground (arith, select_fewer p q xs h))
  | inr t ↦ rw t (ground (arith, select_fewer p q xs h))
]

pub select_drops :
    {A : Type 0} (p q : A → Bool) (a : A) (xs : List A)
    → ((b : A) → q b ≡ true → p b ≡ true)
    → In a xs
    → p a ≡ true
    → q a ≡ false
    → length (select q xs) < length (select p xs)
unfolding select
select_drops p q a [] h m pa qa = elim m [ ]
select_drops p q a (x ∷ xs) h (inl e) pa qa =
    let px : p x ≡ true = ap p e ∙ pa in
    let qx : q x ≡ false = ap q e ∙ qa in rw (px, qx) (omega (arith, select_fewer p q xs h))
select_drops p q a (x ∷ xs) h (inr m) pa qa = elim (Bool-cases (q x)) [
  | inl t ↦ rw (t, h x t) (omega (arith, select_drops p q a xs h m pa qa))
  | inr t ↦ rw t (ground (arith, select_drops p q a xs h m pa qa))
]
