-- ===== src/Database/Placeholders.antt =====
-- rebind of implementations/go/db.go, against a description by the quoted parts of a query.
use gitclub.Base.{
  ℕ, zero, suc, ◌+◌, ◌/◌, ◌%◌, ◌++◌, ◌≡◌, refl, sym, ap, ◌∙◌, inl, inr, Str, Bool, true, false, not,
  ◌&&◌, List, [], ◌∷◌, arith, ltb, if◌then◌else◌, nat_beq, split, join, split_cons, Bool-cases,
  join_cons, join_append, ◌≤◌, ◌-◌, ◌*◌,
}

-- strconv.Itoa, the digits from the right; as many rounds as the number are enough.
abbrev pub digits : (fuel n : ℕ) → Str → Str
digits zero n s = (48 + n % 10) ∷ s
digits (suc fuel) n s =
    let more = digits fuel (n / 10) ((48 + n % 10) ∷ s) in if ltb n 10 then (48 + n) ∷ s else more

unfoldable pub itoa : ℕ → Str
itoa n = digits n n []

-- The loop over the bytes, with n and quoted.
unfoldable pub rebind_from : Str → ℕ → Bool → Str
rebind_from [] n quoted = []
rebind_from (c ∷ query) n quoted =
    let flipped = rebind_from query n (not quoted) in
    let numbered = rebind_from query (suc n) quoted in
    let same = rebind_from query n quoted in
    if nat_beq c b'\''
    then c ∷ flipped
    else if nat_beq c b'?' && not quoted
    then b'$' ∷ (itoa (suc n) ++ numbered)
    else c ∷ same

unfoldable pub rebind : Str → Str
rebind query = rebind_from query 0 false

-- The description. A part outside the quotes has its marks numbered on from n.
unfoldable pub number : Str → ℕ → Str
number [] n = []
number (c ∷ s) n =
    let numbered = number s (suc n) in
    let same = number s n in if nat_beq c b'?' then b'$' ∷ (itoa (suc n) ++ numbered) else c ∷ same

unfoldable pub marks : Str → ℕ
marks [] = 0
marks (c ∷ s) = let rest = marks s in if nat_beq c b'?' then suc rest else rest

-- The parts between the quotes: a quoted one stays as it is, and another is numbered on from the ones
-- before.
unfoldable pub number_parts : List Str → ℕ → Bool → List Str
number_parts [] n quoted = []
number_parts (part ∷ parts) n true = part ∷ number_parts parts n false
number_parts (part ∷ parts) n false = number part n ∷ number_parts parts (n + marks part) true

-- What a text of digits says, behind a number that was read before.
unfoldable pub value : Str → ℕ → ℕ
value [] n = n
value (c ∷ s) n = value s (10 * n + (c - 48))

value-digits : (fuel n : ℕ) (s : Str) → n ≤ fuel → value (digits fuel n s) 0 ≡ value s n
unfolding value
value-digits zero n s h = ap (value s) (omega (arith, h))
value-digits (suc fuel) n s h = elim (Bool-cases (ltb n 10)) [
  | inl t ↦ rw t (ap (value s) (omega arith))
  | inr t ↦
      rw t
        (value-digits fuel (n / 10) ((48 + n % 10) ∷ s) (ground arith) ∙ ap (value s) (omega arith))
]

-- The digits of a number say the number: the rounds are enough.
value-itoa : (n : ℕ) → value (itoa n) 0 ≡ n
unfolding itoa value
value-itoa n = value-digits n n [] (omega arith)

join_parts :
    (ps : List Str) (n : ℕ) (quoted : Bool) (p : Str)
    → join ([] ∷ number_parts (p ∷ ps) n quoted) b'\''
      ≡ b'\'' ∷ join (number_parts (p ∷ ps) n quoted) b'\''
unfolding join number_parts
join_parts ps n true p = refl
join_parts ps n false p = refl

number_empty : (n : ℕ) → number [] n ≡ []
unfolding number
number_empty n = refl

marks_empty : marks [] ≡ 0
unfolding marks
marks_empty = refl

number_mark :
    (c : ℕ) (s : Str) (n : ℕ)
    → nat_beq c b'?' ≡ true
    → number (c ∷ s) n ≡ b'$' ∷ (itoa (suc n) ++ number s (suc n))
unfolding number
number_mark c s n m = rw m refl

marks_mark : (c : ℕ) (s : Str) → nat_beq c b'?' ≡ true → marks (c ∷ s) ≡ suc (marks s)
unfolding marks
marks_mark c s m = rw m refl

number_plain :
    (c : ℕ) (s : Str) (n : ℕ) → nat_beq c b'?' ≡ false → number (c ∷ s) n ≡ c ∷ number s n
unfolding number
number_plain c s n m = rw m refl

marks_plain : (c : ℕ) (s : Str) → nat_beq c b'?' ≡ false → marks (c ∷ s) ≡ marks s
unfolding marks
marks_plain c s m = rw m refl

rebind_from_lem :
    (query : Str) (n : ℕ) (quoted : Bool)
    → rebind_from query n quoted ≡ join (number_parts (split query b'\'') n quoted) b'\''
unfolding rebind_from join number_parts split
rebind_from_lem [] n true = refl
rebind_from_lem [] n false = rw (number_empty n) refl
rebind_from_lem (c ∷ query) n quoted =
    let (p, ps, e) = split_cons query b'\'' in
    let later : (m : ℕ) (b : Bool)
        → rebind_from query m b ≡ join (number_parts (p ∷ ps) m b) b'\'' =
      λ m b. rw (sym e) (rebind_from_lem query m b) in
    rw e (elim (Bool-cases (nat_beq c b'\'')) [
      | inl t ↦ rw t (quote p ps (ground arith) quoted (later n (not quoted)))
      | inr t ↦ rw t (elim (Bool-cases (nat_beq c b'?')) [
        | inl m ↦ rw m (mark p ps (ground arith) quoted m (later (suc n) quoted) (later n quoted))
        | inr m ↦ rw m (plain p ps quoted m (later n quoted))
      ])
    ])
  where
    quote :
        (p : Str) (ps : List Str)
        → c ≡ b'\''
        → (b : Bool) → rebind_from query n (not b) ≡ join (number_parts (p ∷ ps) n (not b)) b'\''
        → c ∷ rebind_from query n (not b) ≡ join (number_parts ([] ∷ p ∷ ps) n b) b'\''
    quote p ps e true h = rw e (ap (λ x. b'\'' ∷ x) h)
    quote p ps e false h =
        rw (e, number_empty n, marks_empty)
          (ap (λ x. b'\'' ∷ x)
            (h ∙ ap (λ k. join (p ∷ number_parts ps k false) b'\'') (omega arith)))

    mark :
        (p : Str) (ps : List Str)
        → c ≡ b'?'
        → (b : Bool) → nat_beq c b'?' ≡ true
        → rebind_from query (suc n) b ≡ join (number_parts (p ∷ ps) (suc n) b) b'\''
        → rebind_from query n b ≡ join (number_parts (p ∷ ps) n b) b'\''
        → (if not b
            then b'$' ∷ (itoa (suc n) ++ rebind_from query (suc n) b)
            else c ∷ rebind_from query n b)
          ≡ join (number_parts ((c ∷ p) ∷ ps) n b) b'\''
    mark p ps e true m h g = ap (λ x. c ∷ x) g ∙ sym (join_cons c p (number_parts ps n false) b'\'')
    mark p ps e false m h g =
        let rest : List Str = number_parts ps (suc n + marks p) true in
        let next : ◌≡◌ {A = ℕ} (suc n + marks p) (n + marks (c ∷ p)) =
          omega (arith, marks_mark c p m) in
        ap (λ x. b'$' ∷ (itoa (suc n) ++ x)) h
        ∙ ap (λ x. b'$' ∷ x) (sym (join_append (itoa (suc n)) (number p (suc n)) rest b'\''))
        ∙ sym (join_cons b'$' (itoa (suc n) ++ number p (suc n)) rest b'\'')
        ∙ ap
            (λ k. join ((b'$' ∷ (itoa (suc n) ++ number p (suc n))) ∷ number_parts ps k true) b'\'')
            next
        ∙ ap (λ x. join (x ∷ number_parts ps (n + marks (c ∷ p)) true) b'\'')
            (sym (number_mark c p n m))

    plain :
        (p : Str) (ps : List Str) (b : Bool)
        → nat_beq c b'?' ≡ false
        → rebind_from query n b ≡ join (number_parts (p ∷ ps) n b) b'\''
        → c ∷ rebind_from query n b ≡ join (number_parts ((c ∷ p) ∷ ps) n b) b'\''
    plain p ps true m h = ap (λ x. c ∷ x) h ∙ sym (join_cons c p (number_parts ps n false) b'\'')
    plain p ps false m h =
        ap (λ x. c ∷ x) h
        ∙ sym (join_cons c (number p n) (number_parts ps (n + marks p) true) b'\'')
        ∙ ap (λ k. join ((c ∷ number p n) ∷ number_parts ps (n + k) true) b'\'')
            (sym (marks_plain c p m))
        ∙ ap (λ x. join (x ∷ number_parts ps (n + marks (c ∷ p)) true) b'\'')
            (sym (number_plain c p n m))

-- A query is rebound part by part between its quotes: what is quoted stays as it is, and the marks
-- outside are numbered from one on in their order, the text between them kept.
pub rebind-number_parts :
    (query : Str) → rebind query ≡ join (number_parts (split query b'\'') 0 false) b'\''
unfolding rebind
rebind-number_parts query = rebind_from_lem query 0 false
