-- ===== src/Sessions/Returning.antt =====
-- Signing in behind a registration.
use gitclub.Base.{
  ℕ, ◌≡◌, ◌≢◌, ◌≤◌, ◌↔◌, refl, sym, ap, subst, ◌∙◌, Str, Bool, true, false, not, ◌||◌, [], Option,
  none, some, arith, ltb, ltb→lt, if◌then◌else◌, ◌==◌, nat_eq, str_keys, str_eq_refl, length, any,
  beq_refl, select_one, Result, ok, err, fail,
}
use gitclub.Base.Hex.{AreBytes}
use gitclub.Schema.{Db, UserRow, Identity, Token}
use gitclub.Access.{named}
use gitclub.Sessions.Passwords.{
  Kdf, password_hash, stored_hash, password_matches, password_matches-password_hash,
}
use gitclub.Sessions.Tokens.{new_token, authenticate}
use gitclub.Sessions.Presenting.{with_token, new_token-eq-ok, with_token-authenticate, with_bearer}
use gitclub.Sessions.Accounts.{
  identity, account_row, with_account, enroll, signed_in, register, hash_of, refuses, login,
}
use gitclub.Sessions.Enrolling.{enroll-eq-ok}

password_hash-length :
    (kdf : Kdf) (salt : Option Str) (p h : Str)
    → password_hash kdf salt p ≡ some h
    → (length h == 0) ≡ false
unfolding password_hash stored_hash
password_hash-length kdf none p h e = cc
password_hash-length kdf (some salt) p h e = derived (kdf p salt) e
  where
    derived :
        (o : Option Str)
        → elim o as (λ _. Option Str) [ none ↦ none | some key ↦ some (stored_hash salt key) ]
          ≡ some h
        → (length h == 0) ≡ false
    derived none q = cc
    derived (some key) q =
        let n : stored_hash salt key ≡ h = cc in
        subst (λ x. (length x == 0) ≡ false) n (ground arith)

module _ (kdf : Kdf) (hash : Str → Str) where
  register-eq-ok :
      (db : Db) (username password : Str) (salt token : Option Str) (stamp now : ℕ) (u : Identity)
      (t : Str) (after : Db)
      → register kdf hash db username password salt token stamp now ≡ (ok (u, t), after)
      → (h : Str) × (password_hash kdf salt password ≡ some h)
        × (u ≡ identity (account_row db username h stamp))
        × (after ≡ with_token hash (with_account db username h stamp) u.id t now)
  unfolding register
  register-eq-ok db username password salt token stamp now u t after q =
      opened (enroll kdf db username password salt stamp) refl q
    where
      issued :
          (v : Identity) (mid : Db) (r : Result (Str × Db))
          → new_token hash mid v.id token now ≡ r
          → signed_in v mid r ≡ (ok (u, t), after)
          → (v ≡ u) × (after ≡ with_token hash mid u.id t now)
      issued v mid (err problem) e s =
          absurd (cc (ap (λ (x : Result (Identity × Str) × Db). x.0) s))
      issued v mid (ok (t0, end)) e s =
          let head : ◌≡◌ {A = Result (Identity × Str)} (ok (v, t0)) (ok (u, t)) =
            ap (λ (x : Result (Identity × Str) × Db). x.0) s in
          let same : v ≡ u = cc in
          let given : t0 ≡ t = cc in
          let last : end ≡ after = ap (λ (x : Result (Identity × Str) × Db). x.1) s in
          (
            same,
            sym last
                ∙ (new_token-eq-ok hash mid v.id token now t0 end e).1
                ∙ ap (λ (x : Identity). with_token hash mid x.id t0 now) same
                ∙ ap (λ x. with_token hash mid u.id x now) given,
          )

      opened :
          (r : Result (Identity × Db))
          → enroll kdf db username password salt stamp ≡ r
          → elim r as (λ _. Result (Identity × Str) × Db) [
            | err problem ↦ (err problem, db)
            | ok (v, mid) ↦ signed_in v mid (new_token hash mid v.id token now)
          ]
            ≡ (ok (u, t), after)
          → (h : Str) × (password_hash kdf salt password ≡ some h)
            × (u ≡ identity (account_row db username h stamp))
            × (after ≡ with_token hash (with_account db username h stamp) u.id t now)
      opened (err problem) e s = absurd (cc (ap (λ (x : Result (Identity × Str) × Db). x.0) s))
      opened (ok (v, mid)) e s =
          let (h, made, _, who, same) =
            enroll-eq-ok kdf hash db username password salt stamp v mid e in
          let (vu, end) = issued v mid (new_token hash mid v.id token now) refl s in
          (h, made, sym vu ∙ who, end ∙ ap (λ m. with_token hash m u.id t now) same)

  -- A sign-in to an account that has a hash.
  login_iff :
      (db : Db) (username q t : Str) (now : ℕ) (v : UserRow)
      → select_one (named username) db.users ≡ some v
      → (length v.password_hash == 0) ≡ false
      → any (λ (k : Token). k.token_hash == hash t) db.tokens ≡ false
      → (login kdf hash db username q (some t) now
          ≡ (ok (identity v, t), with_token hash db v.id t now))
        ↔ ((length q ≤ 256) × (password_matches kdf q v.password_hash ≡ true))
  unfolding login refuses hash_of new_token
  login_iff db username q t now v row filled free =
      rw (row, filled, free)
        (guarded (ltb 256 (length q)) (password_matches kdf q v.password_hash) refl)
    where
      Answer : Type 0
      Answer = Result (Identity × Str) × Db

      reached : Answer
      reached = (ok (identity v, t), with_token hash db v.id t now)

      refused : Answer
      refused = (fail 401 "Incorrect username or password", db)

      never : refused ≡ reached → ⊥
      never e = cc (ap (λ (x : Answer). x.0) e)

      guarded :
          (long match : Bool)
          → ltb 256 (length q) ≡ long
          → ((if long || (not match || false) then refused else reached) ≡ reached)
            ↔ ((length q ≤ 256) × (match ≡ true))
      guarded true match e =
          (λ s. absurd (never s), λ h. absurd (omega (arith, h.0, ltb→lt 256 (length q) e)))
      guarded false true e = (λ s. (ground arith, refl), λ h. refl)
      guarded false false e = (λ s. absurd (never s), λ h. cc (h.1))

  -- Behind a registration whose salt and derived keys are bytes, a sign-in under the new name with a
  -- token whose hash is not stored succeeds for exactly the passwords of at most 256 bytes from
  -- which the same key is derived, as the same user and with that token stored.
  pub register-login :
      (db : Db) (username password salt : Str) (token : Option Str) (stamp now : ℕ) (u : Identity)
      (t : Str) (after : Db) (q again : Str) (later : ℕ)
      → AreBytes salt
      → ((key : Str) → kdf password salt ≡ some key → AreBytes key)
      → register kdf hash db username password (some salt) token stamp now ≡ (ok (u, t), after)
      → any (λ (k : Token). k.token_hash == hash again) after.tokens ≡ false
      → (login kdf hash after username q (some again) later
          ≡ (ok (u, again), with_token hash after u.id again later))
        ↔ ((length q ≤ 256) × (kdf q salt ≡ kdf password salt))
  unfolding select_one
  register-login db username password salt token stamp now u t after q again later s k r free =
      let (h, made, who, same) =
        register-eq-ok db username password (some salt) token stamp now u t after r in
      let row = account_row db username h stamp in
      let found : select_one (named username) after.users ≡ some row =
        rw (same, str_eq_refl username) refl in
      let its =
        login_iff after username q again later row found
          (password_hash-length kdf (some salt) password h made) free in
      let (there, back) = password_matches-password_hash kdf password q salt h s k made in
      rw who (λ e. let (short, m) = its.0 e in (short, there m), λ e. its.1 (e.0, back e.1))

  -- The token of a registration, where it is not empty, signs in the new user at every later time.
  pub register-authenticate :
      (db : Db) (username password : Str) (salt token : Option Str) (stamp now : ℕ) (u : Identity)
      (t : Str) (after : Db) (later : ℕ)
      → t ≢ []
      → register kdf hash db username password salt token stamp now ≡ (ok (u, t), after)
      → (authenticate hash after (with_bearer t) later).0 ≡ some u
  unfolding select_one
  register-authenticate db username password salt token stamp now u t after later some_t r =
      let (h, _, who, same) =
        register-eq-ok db username password salt token stamp now u t after r in
      rw (same, who)
        (with_token-authenticate hash (with_account db username h stamp) db.next_user t now later
          (account_row db username h stamp) some_t (rw (beq_refl db.next_user) refl))
