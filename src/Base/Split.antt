-- ===== src/Base/Split.antt =====
-- Taking texts apart at a byte: Split, Join, Cut and TrimSuffix of the package strings.
use Prim.Native.Nat.{ℕ}
use mathlib.Core.Path.{◌≡◌, refl, sym, ap, subst, ◌∙◌}
use mathlib.Core.Logic.{inl, inr}
use mathlib.Core.Bool.{true, false}
use mathlib.Core.Option.{Option, none, some}
use mathlib.Core.List.{List, [], ◌∷◌, ◌++◌}
use native.Mathlib.Omega.{arith}
use gitclub.Base.Tests.{if◌then◌else◌, nat_beq, Bool-cases}
use gitclub.Base.Lists.{length, length-append}
use gitclub.Base.Text.{Str, str_eq, str_eq_sound, str_eq_refl}

-- A byte in front of the first part.
abbrev pub push_byte : ℕ → List Str → List Str
push_byte c [] = (c ∷ []) ∷ []
push_byte c (part ∷ parts) = (c ∷ part) ∷ parts

-- strings.Split(s, sep) with a separator of one byte
unfoldable pub split : Str → ℕ → List Str
split [] sep = [] ∷ []
split (c ∷ s) sep =
    let parts = split s sep in if nat_beq c sep then [] ∷ parts else push_byte c parts

-- strings.Join(parts, sep)
unfoldable pub join : List Str → ℕ → Str
join [] sep = []
join (part ∷ []) sep = part
join (part ∷ other ∷ parts) sep = part ++ (sep ∷ join (other ∷ parts) sep)

-- The byte does not occur.
abbrev pub Lacks : ℕ → Str → Type 0
Lacks sep [] = Unit
Lacks sep (c ∷ s) = (nat_beq c sep ≡ false) × Lacks sep s

pub split-append :
    (s t : Str) (sep : ℕ) → Lacks sep s → split (s ++ (sep ∷ t)) sep ≡ s ∷ split t sep
unfolding split
split-append [] t sep h = ground arith
split-append (c ∷ s) t sep h = ground (arith, split-append s t sep h.1)

pub split-Lacks : (s : Str) (sep : ℕ) → Lacks sep s → split s sep ≡ s ∷ []
unfolding split
split-Lacks [] sep h = refl
split-Lacks (c ∷ s) sep h = ground (arith, split-Lacks s sep h.1)

-- A split has a first part.
pub split_cons :
    (s : Str) (sep : ℕ) → (part : Str) × (parts : List Str) × (split s sep ≡ part ∷ parts)
unfolding split
split_cons [] sep = ([], [], refl)
split_cons (c ∷ s) sep =
    let (p, ps, e) = split_cons s sep in
    elim (Bool-cases (nat_beq c sep)) [
      | inl t ↦ ([], split s sep, ground (arith, t))
      | inr t ↦ (c ∷ p, ps, ground (arith, t, e))
    ]

-- What stands in front of the first part stands in front of the whole.
pub join_cons :
    (c : ℕ) (p : Str) (ps : List Str) (sep : ℕ) → join ((c ∷ p) ∷ ps) sep ≡ c ∷ join (p ∷ ps) sep
unfolding join
join_cons c p [] sep = refl
join_cons c p (q ∷ ps) sep = refl

pub join_append :
    (s p : Str) (ps : List Str) (sep : ℕ) → join ((s ++ p) ∷ ps) sep ≡ s ++ join (p ∷ ps) sep
join_append [] p ps sep = refl
join_append (c ∷ s) p ps sep =
    join_cons c (s ++ p) ps sep ∙ ap (λ x. c ∷ x) (join_append s p ps sep)

-- Joining what was split gives the text back.
pub join-split : (s : Str) (sep : ℕ) → join (split s sep) sep ≡ s
unfolding split join
join-split [] sep = refl
join-split (c ∷ s) sep =
    step (split s sep) (split_cons s sep).0 (split_cons s sep).1 (split_cons s sep).2
      (join-split s sep)
  where
    step :
        (parts : List Str) (p : Str) (ps : List Str)
        → parts ≡ p ∷ ps
        → join parts sep ≡ s
        → join (if nat_beq c sep then [] ∷ parts else push_byte c parts) sep ≡ c ∷ s
    step [] p ps e h = cc
    step (q ∷ qs) p ps e h = ground (arith, join_cons c q qs sep)

abbrev pub put_byte : ℕ → Option (Str × Str) → Option (Str × Str)
put_byte c none = none
put_byte c (some (a, b)) = some (c ∷ a, b)

-- strings.Cut(s, sep) with a separator of one byte; none where it does not occur.
unfoldable pub cut_at : ℕ → Str → Option (Str × Str)
cut_at sep [] = none
cut_at sep (c ∷ s) =
    let rest = cut_at sep s in if nat_beq c sep then some ([], s) else put_byte c rest

pub cut_at-append : (sep : ℕ) (s t : Str) → Lacks sep s → cut_at sep (s ++ (sep ∷ t)) ≡ some (s, t)
unfolding cut_at
cut_at-append sep [] t h = ground arith
cut_at-append sep (c ∷ s) t h = ground (arith, cut_at-append sep s t h.1)

put_byte-eq-some :
    (c : ℕ) (o : Option (Str × Str)) (a b : Str)
    → put_byte c o ≡ some (a, b)
    → (a' : Str) × (o ≡ some (a', b)) × (a ≡ c ∷ a')
put_byte-eq-some c none a b h = cc
put_byte-eq-some c (some (x, y)) a b h = (x, ground arith, ground arith)

pub cut_at_sound :
    (sep : ℕ) (s a b : Str) → cut_at sep s ≡ some (a, b) → (s ≡ a ++ (sep ∷ b)) × Lacks sep a
unfolding cut_at
cut_at_sound sep [] a b h = cc
cut_at_sound sep (c ∷ s) a b h = elim (Bool-cases (nat_beq c sep)) [
  | inl t ↦ here t (rw t at h)
  | inr t ↦
      let (a', e, q) = put_byte-eq-some c (cut_at sep s) a b (rw t at h) in
      let (same, free) = cut_at_sound sep s a' b e in
      (ap (λ x. c ∷ x) same ∙ ap (λ x. x ++ (sep ∷ b)) (sym q), subst (Lacks sep) (sym q) (t, free))
]
  where
    here :
        nat_beq c sep ≡ true
        → ◌≡◌ {A = Option (Str × Str)} (some ([], s)) (some (a, b))
        → (c ∷ s ≡ a ++ (sep ∷ b)) × Lacks sep a
    here t q = let e : [] ≡ a = cc in let f : s ≡ b = cc in (ground arith, subst (Lacks sep) e tt)

abbrev put_front : ℕ → Option Str → Option Str
put_front c none = none
put_front c (some t) = some (c ∷ t)

-- What stands before the ending p; none where s has another ending.
unfoldable pub strip_suffix : Str → Str → Option Str
strip_suffix [] p = if str_eq [] p then some [] else none
strip_suffix (c ∷ s) p =
    let rest = strip_suffix s p in if str_eq (c ∷ s) p then some [] else put_front c rest

abbrev or_whole : Str → Option Str → Str
or_whole s none = s
or_whole s (some t) = t

-- strings.TrimSuffix(s, p)
unfoldable pub trim_suffix : Str → Str → Str
unfolding strip_suffix
trim_suffix s p = or_whole s (strip_suffix s p)

longer : (c : ℕ) (s p : Str) → str_eq ((c ∷ s) ++ p) p ≡ false
longer c s p = elim (Bool-cases (str_eq ((c ∷ s) ++ p) p)) [
  | inl t ↦ absurd (
      omega
        (arith, ap (length {A = ℕ}) (str_eq_sound ((c ∷ s) ++ p) p t), length-append {A = ℕ} s p))
  | inr t ↦ t
]

pub strip_suffix-append : (s p : Str) → strip_suffix (s ++ p) p ≡ some s
unfolding strip_suffix
strip_suffix-append [] [] = rw (str_eq_refl [])
strip_suffix-append [] (c ∷ p) = rw (str_eq_refl (c ∷ p))
strip_suffix-append (c ∷ s) p = rw (longer c s p, strip_suffix-append s p)

pub strip_suffix_sound : (s p a : Str) → strip_suffix s p ≡ some a → s ≡ a ++ p
unfolding strip_suffix
strip_suffix_sound [] p a h = elim (Bool-cases (str_eq [] p)) [
  | inl t ↦ ground (arith, str_eq_sound [] p t)
  | inr t ↦ ground arith
]
strip_suffix_sound (c ∷ s) p a h = elim (Bool-cases (str_eq (c ∷ s) p)) [
  | inl t ↦ at_once (str_eq_sound (c ∷ s) p t) (rw t at h)
  | inr t ↦ later (strip_suffix s p) (λ u e. strip_suffix_sound s p u e) (rw t at h)
]
  where
    at_once : c ∷ s ≡ p → some [] ≡ some a → c ∷ s ≡ a ++ p
    at_once e q = let n : [] ≡ a = cc in e ∙ ap (λ x. x ++ p) n

    later :
        (o : Option Str)
        → ((u : Str) → o ≡ some u → s ≡ u ++ p)
        → put_front c o ≡ some a
        → c ∷ s ≡ a ++ p
    later none e q = cc
    later (some t) e q = let n : c ∷ t ≡ a = cc in ap (λ x. c ∷ x) (e t refl) ∙ ap (λ x. x ++ p) n
