-- ===== src/Sessions/Passwords.antt =====
-- passwordHash and passwordMatches of implementations/go/main.go. The key derivation is a parameter:
-- kdf p salt is pbkdf2.Key(sha256.New, p, salt, 600000, 32), none its error.
use gitclub.Base.{
  ℕ, ◌++◌, ◌≡◌, ◌↔◌, refl, sym, ap, ◌∙◌, subst, some_inj, Str, bytes, Bool, true, false, ◌&&◌, List,
  [], ◌∷◌, Option, none, some, arith, if◌then◌else◌, ◌==◌, str_keys, str_eq_iff, str_eq_refl,
  nat_beq, split, split-append, split-Lacks, Lacks,
}
use gitclub.Base.Hex.{hex_encode, hex_decode, hex_decode-encode, AreBytes, hex_digit}

abbrev pub Kdf : Type 0
Kdf = Str → Str → Option Str

abbrev pub scheme : Str
scheme = bytes "pbkdf2_sha256"

abbrev pub rounds : Str
rounds = bytes "600000"

-- "pbkdf2_sha256$600000$" + hex(salt) + "$" + hex(h)
unfoldable pub stored_hash : Str → Str → Str
stored_hash salt key =
    scheme ++ (b'$' ∷ (rounds ++ (b'$' ∷ (hex_encode salt ++ (b'$' ∷ hex_encode key)))))

-- passwordHash; a salt of none is a failure of rand.Read.
unfoldable pub password_hash : Kdf → Option Str → Str → Option Str
password_hash kdf none p = none
password_hash kdf (some salt) p = elim (kdf p salt) [
  | none ↦ none
  | some key ↦ some (stored_hash salt key)
]

abbrev pub same_key : Option Str → Option Str → Bool
same_key (some expected) (some got) = expected == got
same_key _ _ = false

-- The parts between the dollar signs.
unfoldable pub matches_parts : Kdf → Str → List Str → Bool
matches_parts kdf p (a ∷ b ∷ salt ∷ key ∷ []) =
    if a == scheme && b == rounds
    then elim (hex_decode salt) [
      | none ↦ false
      | some salt' ↦ same_key (hex_decode key) (kdf p salt')
    ]
    else false
matches_parts _ _ _ = false

-- passwordMatches
unfoldable pub password_matches : Kdf → Str → Str → Bool
password_matches kdf p h = matches_parts kdf p (split h b'$')

hex_digit-ne : (n : ℕ) → nat_beq (hex_digit n) b'$' ≡ false
hex_digit-ne n = ground arith

hex_encode-Lacks : (s : Str) → Lacks b'$' (hex_encode s)
unfolding hex_encode
hex_encode-Lacks [] = tt
hex_encode-Lacks (c ∷ s) = (hex_digit-ne _, (hex_digit-ne _, hex_encode-Lacks s))

split-stored_hash :
    (salt key : Str)
    → split (stored_hash salt key) b'$' ≡ scheme ∷ rounds ∷ hex_encode salt ∷ hex_encode key ∷ []
unfolding stored_hash
split-stored_hash salt key =
    split-append scheme _ b'$' (ground arith)
    ∙ ap (λ ps. scheme ∷ ps)
        (split-append rounds _ b'$' (ground arith)
          ∙ ap (λ ps. rounds ∷ ps)
              (split-append (hex_encode salt) (hex_encode key) b'$' (hex_encode-Lacks salt)
                ∙ ap (λ ps. hex_encode salt ∷ ps)
                    (split-Lacks (hex_encode key) b'$' (hex_encode-Lacks key))))

-- A stored hash is matched by the passwords with its key, and by no other.
password_matches-stored_hash :
    (kdf : Kdf) (q salt key : Str)
    → AreBytes salt
    → AreBytes key
    → (password_matches kdf q (stored_hash salt key) ≡ true) ↔ (kdf q salt ≡ some key)
unfolding password_matches matches_parts
password_matches-stored_hash kdf q salt key s k =
    rw
      (
        split-stored_hash salt key,
        str_eq_refl scheme,
        str_eq_refl rounds,
        hex_decode-encode salt s,
        hex_decode-encode key k,
      )
      (same (kdf q salt))
  where
    same : (o : Option Str) → (same_key (some key) o ≡ true) ↔ (o ≡ some key)
    same none = (λ e. cc, λ e. cc)
    same (some got) = (
      λ e. ap some (sym ((str_eq_iff key got).0 e)),
      λ e. (str_eq_iff key got).1 (sym (some_inj e)),
    )

-- Where the salt and the derived keys are bytes, the hash that is stored for a password is matched by
-- exactly the passwords from which the same key is derived.
pub password_matches-password_hash :
    (kdf : Kdf) (p q salt h : Str)
    → AreBytes salt
    → ((key : Str) → kdf p salt ≡ some key → AreBytes key)
    → password_hash kdf (some salt) p ≡ some h
    → (password_matches kdf q h ≡ true) ↔ (kdf q salt ≡ kdf p salt)
unfolding password_hash
password_matches-password_hash kdf p q salt h s k e = derived (kdf p salt) k e
  where
    derived :
        (o : Option Str)
        → ((key : Str) → o ≡ some key → AreBytes key)
        → elim o as (λ _. Option Str) [ none ↦ none | some key ↦ some (stored_hash salt key) ]
          ≡ some h
        → (password_matches kdf q h ≡ true) ↔ (kdf q salt ≡ o)
    derived none are h' = absurd (nothing h')
      where
        nothing : none ≡ some h → ⊥
        nothing n = cc
    derived (some key) are h' =
        subst (λ x. (password_matches kdf q x ≡ true) ↔ (kdf q salt ≡ some key)) (some_inj h')
          (password_matches-stored_hash kdf q salt key s (are key refl))
