-- ===== src/CappedOutput.antt =====
-- The bounded buffer that git's output is read into: cappedOutput of implementations/go/git.go.
use gitclub.Base.{
  ℕ, ◌+◌, ◌-◌, ◌≤◌, ◌++◌, ◌≡◌, refl, sym, ap, ◌∙◌, Str, Bool, true, false, List, [], ◌∷◌, arith,
  ltb, if◌then◌else◌, length, length-append, take, Bool-cases, subst, inl, inr, zero, suc,
}

pub record CappedOutput : Type 0 where
  pub buffer : Str
  pub cap : ℕ
  pub truncated : Bool

-- Write; it always reports the whole chunk as written.
unfoldable pub write : CappedOutput → Str → CappedOutput × ℕ
write b p =
    let n = length p in
    let remain = b.cap - length b.buffer in
    if ltb remain n
    then (record b { buffer = b.buffer ++ take remain p; truncated = true }, n)
    else (record b { buffer = b.buffer ++ p }, n)

-- ReadFrom, by way of io.Copy: one Write a chunk.
unfoldable pub read_from : CappedOutput → List Str → CappedOutput × ℕ
unfolding write
read_from b [] = (b, 0)
read_from b (p ∷ ps) =
    let (after, n) = write b p in let (last, rest) = read_from after ps in (last, n + rest)

abbrev pub joined : List Str → Str
joined [] = []
joined (p ∷ ps) = p ++ joined ps

take_all : (n : ℕ) (xs : Str) → length xs ≤ n → take n xs ≡ xs
take_all zero [] h = refl
take_all zero (x ∷ xs) h = absurd (omega (arith, h))
take_all (suc n) [] h = refl
take_all (suc n) (x ∷ xs) h = ap (λ ys. x ∷ ys) (take_all n xs (omega (arith, h)))

length-take : (n : ℕ) (xs : Str) → length (take n xs) ≡ n - (n - length xs)
length-take zero xs = omega arith
length-take (suc n) [] = omega arith
length-take (suc n) (x ∷ xs) = omega (arith, length-take n xs)

take-append : (n : ℕ) (xs ys : Str) → take n (xs ++ ys) ≡ take n xs ++ take (n - length xs) ys
take-append zero [] ys = refl
take-append zero (x ∷ xs) ys =
    let e : 0 - suc (length xs) ≡ 0 = omega arith in ap (λ n. take n ys) (sym e)
take-append (suc n) [] ys = let e : suc n - 0 ≡ suc n = omega arith in ap (λ k. take k ys) (sym e)
take-append (suc n) (x ∷ xs) ys =
    let e : suc n - suc (length xs) ≡ n - length xs = omega arith in
    ap (λ zs. x ∷ zs) (take-append n xs ys ∙ ap (λ k. take n xs ++ take k ys) (sym e))

-- What the buffer holds after the bytes seen.
pub record Holds (b : CappedOutput) (seen : Str) : Type 0 where
  pub kept : b.buffer ≡ take b.cap seen
  pub flag : b.truncated ≡ ltb b.cap (length seen)

remain_lem :
    (b : CappedOutput) (seen : Str) → Holds b seen → b.cap - length b.buffer ≡ b.cap - length seen
remain_lem b seen h = rw h.kept (omega (arith, length-take b.cap seen))

write-Holds : (b : CappedOutput) (seen p : Str) → Holds b seen → Holds (write b p).0 (seen ++ p)
unfolding write
write-Holds b seen p h = elim (Bool-cases (ltb (b.cap - length seen) (length p))) [
  | inl t ↦
      rw (remain_lem b seen h, t)
        (record {
          kept = rw (h.kept, take-append b.cap seen p) refl;
          flag = ground (arith, length-append seen p);
        })
  | inr t ↦
      rw (remain_lem b seen h, t)
        (record {
          kept =
              rw (h.kept, take-append b.cap seen p, take_all (b.cap - length seen) p (ground arith))
                refl;
          flag = ground (arith, h.flag, length-append seen p);
        })
]

write-cap : (b : CappedOutput) (p : Str) → (write b p).0.cap ≡ b.cap
unfolding write
write-cap b p = ground arith

append_assoc : (xs ys zs : Str) → (xs ++ ys) ++ zs ≡ xs ++ (ys ++ zs)
append_assoc [] ys zs = refl
append_assoc (x ∷ xs) ys zs = ap (λ ws. x ∷ ws) (append_assoc xs ys zs)

append_nil : (xs : Str) → xs ++ [] ≡ xs
append_nil [] = refl
append_nil (x ∷ xs) = ap (λ ys. x ∷ ys) (append_nil xs)

read_from-Holds :
    (b : CappedOutput) (seen : Str) (chunks : List Str)
    → Holds b seen
    → Holds (read_from b chunks).0 (seen ++ joined chunks)
unfolding read_from
read_from-Holds b seen [] h = rw (append_nil seen) h
read_from-Holds b seen (p ∷ ps) h =
    subst (Holds (read_from (write b p).0 ps).0) (append_assoc seen p (joined ps))
      (read_from-Holds (write b p).0 (seen ++ p) ps (write-Holds b seen p h))

read_from-cap : (b : CappedOutput) (chunks : List Str) → (read_from b chunks).0.cap ≡ b.cap
unfolding read_from
read_from-cap b [] = refl
read_from-cap b (p ∷ ps) = read_from-cap (write b p).0 ps ∙ write-cap b p

read_from-count :
    (b : CappedOutput) (chunks : List Str) → (read_from b chunks).1 ≡ length (joined chunks)
unfolding read_from write
read_from-count b [] = refl
read_from-count b (p ∷ ps) =
    ground (arith, length-append p (joined ps), read_from-count (write b p).0 ps)

-- However the output is cut into chunks, an empty buffer ends with the first limit bytes of it and no
-- more, marks itself as truncated exactly if there were more, and reports every byte as written.
pub read_from_lem :
    (limit : ℕ) (chunks : List Str)
    → let r = read_from (record { buffer = []; cap = limit; truncated = false }) chunks in
      (r.0.buffer ≡ take limit (joined chunks))
      × (r.0.truncated ≡ ltb limit (length (joined chunks)))
      × (r.1 ≡ length (joined chunks))
read_from_lem limit chunks =
    let b : CappedOutput = record { buffer = []; cap = limit; truncated = false } in
    let h =
      read_from-Holds b [] chunks (record { kept = sym (nil_take limit); flag = ground arith }) in
    (
      h.kept ∙ ap (λ n. take n (joined chunks)) (read_from-cap b chunks),
      h.flag ∙ ap (λ n. ltb n (length (joined chunks))) (read_from-cap b chunks),
      read_from-count b chunks,
    )
  where
    nil_take : (n : ℕ) → take {A = ℕ} n [] ≡ []
    nil_take n = take_all n [] (omega arith)
