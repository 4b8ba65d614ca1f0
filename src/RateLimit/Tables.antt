-- ===== src/RateLimit/Tables.antt =====
-- What a store and the pruning do to the entries of the table of failures.
use gitclub.Base.{
  ℕ, ◌+◌, ◌≤◌, ◌≡◌, inl, inr, sym, subst, Str, false, [], ◌∷◌, arith, str_eq, str_eq_refl,
  str_eq_iff, length, delete, All, Bool-cases,
}
use gitclub.RateLimit.{RateEntry, Rates, expired, rate_of, set_rate, pruned}

-- No two entries have a host in common.
abbrev pub Unique : Rates → Type 0
Unique [] = Unit
Unique ((h, x) ∷ rest) = All (λ (e : Str × RateEntry). str_eq h e.0 ≡ false) rest × Unique rest

pub length-set_rate :
    (host : Str) (v : RateEntry) (rates : Rates) → length (set_rate host v rates) ≤ length rates + 1
unfolding set_rate
length-set_rate host v [] = omega arith
length-set_rate host v ((h, x) ∷ rest) = ground (arith, length-set_rate host v rest)

pub rate_of-set_rate :
    (host : Str) (v : RateEntry) (rates : Rates) → rate_of host (set_rate host v rates) ≡ v
unfolding set_rate rate_of
rate_of-set_rate host v [] = rw (str_eq_refl host)
rate_of-set_rate host v ((h, x) ∷ rest) = ground (arith, rate_of-set_rate host v rest)

pub length-pruned : (t : ℕ) (rates : Rates) → length (pruned t rates) ≤ length rates
unfolding delete
length-pruned t [] = omega arith
length-pruned t ((k, x) ∷ rest) = ground (arith, length-pruned t rest)

-- An entry behind a store is the stored one, or one of another host that was there.
pub set_rate-All :
    (P Q : Str × RateEntry → Type 0) (host : Str) (v : RateEntry) (rates : Rates)
    → ((e : Str × RateEntry) → str_eq host e.0 ≡ false → P e → Q e)
    → Q (host, v)
    → Unique rates
    → All P rates
    → All Q (set_rate host v rates)
unfolding set_rate
set_rate-All P Q host v [] other q one all = (q, tt)
set_rate-All P Q host v ((h, x) ∷ rest) other q one all = elim (Bool-cases (str_eq h host)) [
  | inl t ↦
      let same = (str_eq_iff h host).0 t in
      rw t (
        subst (λ k. Q (k, v)) (sym same) q,
        both rest (subst (λ k. All (λ (e : Str × RateEntry). str_eq k e.0 ≡ false) rest) same one.0)
            all.1,
      )
  | inr t ↦
      rw t (
        other (h, x) (str_eq_apart h host t) all.0,
        set_rate-All P Q host v rest other q one.1 all.1,
      )
]
  where
    str_eq_apart : (h host : Str) → str_eq h host ≡ false → str_eq host h ≡ false
    str_eq_apart h host t = elim (Bool-cases (str_eq host h)) [
      | inl e ↦ cc (t, (str_eq_iff h host).1 (sym ((str_eq_iff host h).0 e)))
      | inr e ↦ e
    ]

    both :
        (es : Rates)
        → All (λ (e : Str × RateEntry). str_eq host e.0 ≡ false) es
        → All P es
        → All Q es
    both [] a b = tt
    both (e ∷ es) a b = (other e a.0 b.0, both es a.1 b.1)

pub set_rate-Unique :
    (host : Str) (v : RateEntry) (rates : Rates) → Unique rates → Unique (set_rate host v rates)
unfolding set_rate
set_rate-Unique host v [] one = (tt, tt)
set_rate-Unique host v ((h, x) ∷ rest) one = elim (Bool-cases (str_eq h host)) [
  | inl t ↦ rw t one
  | inr t ↦ rw t (
    set_rate-All (λ e. str_eq h e.0 ≡ false) (λ e. str_eq h e.0 ≡ false) host v rest (λ e o p. p) t
        one.1 one.0,
    set_rate-Unique host v rest one.1,
  )
]

pub pruned-All :
    (P : Str × RateEntry → Type 0) (t : ℕ) (rates : Rates) → All P rates → All P (pruned t rates)
unfolding delete
pruned-All P t [] all = tt
pruned-All P t (e ∷ rest) all = elim (Bool-cases (expired t e.1)) [
  | inl x ↦ rw x (pruned-All P t rest all.1)
  | inr x ↦ rw x (all.0, pruned-All P t rest all.1)
]

pub pruned-Unique : (t : ℕ) (rates : Rates) → Unique rates → Unique (pruned t rates)
unfolding delete
pruned-Unique t [] one = tt
pruned-Unique t ((h, x) ∷ rest) one = elim (Bool-cases (expired t x)) [
  | inl e ↦ rw e (pruned-Unique t rest one.1)
  | inr e ↦ rw e (
    pruned-All (λ (e : Str × RateEntry). str_eq h e.0 ≡ false) t rest one.0,
    pruned-Unique t rest one.1,
  )
]

pub weaken :
    (P Q : Str × RateEntry → Type 0) (rates : Rates)
    → ((e : Str × RateEntry) → P e → Q e)
    → All P rates
    → All Q rates
weaken P Q [] f all = tt
weaken P Q (e ∷ rest) f all = (f e all.0, weaken P Q rest f all.1)
