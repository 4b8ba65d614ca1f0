-- ===== src/Listing/Order.antt =====
-- The order of GET /repositories.
use gitclub.Base.{
  ◌≡◌, ◌<◌, ◌≤◌, ◌⊎◌, inl, inr, sym, ◌∙◌, true, false, not, List, [], ◌∷◌, arith, ltb,
  if◌then◌else◌, ◌==◌, nat_eq, str_keys, In, Bool-cases, In-All,
}
use gitclub.Base.Sorting.{sort, Ordered, sort-Ordered}
use gitclub.Listing.{Row, shown_before}

-- Pins come first, then what was updated later, then the smaller identifier.
abbrev pub Precedes : Row → Row → Type 0
Precedes a b =
    ((a.pinned ≡ true) × (b.pinned ≡ false))
    ⊎ ((a.pinned ≡ b.pinned)
        × ((b.repo.updated_at < a.repo.updated_at)
            ⊎ ((a.repo.updated_at ≡ b.repo.updated_at) × (a.repo.id ≤ b.repo.id))))

abbrev pub IsInOrder : List Row → Type 0
IsInOrder [] = Unit
IsInOrder (x ∷ xs) = ((y : Row) → In y xs → Precedes x y) × IsInOrder xs

not_before : (a b : Row) → shown_before b a ≡ false → Precedes a b
unfolding shown_before
not_before a b h = elim (Bool-cases a.pinned) [
  | inl p ↦ elim (Bool-cases b.pinned) [
    | inl q ↦ inr (p ∙ sym q, later (ground (arith, p, q, h)))
    | inr q ↦ inl (p, q)
  ]
  | inr p ↦ elim (Bool-cases b.pinned) [
    | inl q ↦ cc (rw (p, q) at h)
    | inr q ↦ inr (p ∙ sym q, later (ground (arith, p, q, h)))
  ]
]
  where
    later :
        (if not (b.repo.updated_at == a.repo.updated_at)
            then ltb a.repo.updated_at b.repo.updated_at
            else ltb b.repo.id a.repo.id)
          ≡ false
        → (b.repo.updated_at < a.repo.updated_at)
          ⊎ ((a.repo.updated_at ≡ b.repo.updated_at) × (a.repo.id ≤ b.repo.id))
    later e = ground (arith, e)

pub Ordered-IsInOrder : (rows : List Row) → Ordered shown_before rows → IsInOrder rows
Ordered-IsInOrder [] o = tt
Ordered-IsInOrder (x ∷ xs) o = (
  λ y m. not_before x y (In-All (λ z. shown_before z x ≡ false) xs o.0 m),
  Ordered-IsInOrder xs o.1,
)

pub order-Ordered : (rows : List Row) → Ordered shown_before (sort shown_before rows)
unfolding shown_before
order-Ordered rows =
    sort-Ordered shown_before (λ x y h. ground arith) (λ x y z h k. ground arith) rows
