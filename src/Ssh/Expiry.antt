-- ===== src/Ssh/Expiry.antt =====
-- A token that has been given an end: the UPDATE of the route authorize, and authenticate behind it.
use gitclub.Base.{
  ℕ, ◌≡◌, ◌<◌, ◌↔◌, inl, inr, refl, ap, ◌∙◌, Str, Bool, true, false, ◌||◌, List, [], ◌∷◌, none,
  some, arith, ltb, if◌then◌else◌, ◌==◌, nat_eq, str_keys, str_eq, str_eq_refl, any, select_one,
  update, Bool-cases, lt→ltb,
}
use gitclub.Schema.{Db, UserRow, Token}
use gitclub.Sessions.Accounts.{identity}
use gitclub.Sessions.Tokens.{is_live, session_user}
use gitclub.Sessions.Presenting.{with_token}
use gitclub.Ssh.{of_id, expiring}

-- Tokens of other hashes are not the one that is asked for.
others :
    (h : Str) (at until : ℕ) (ts : List Token)
    → any (λ (k : Token). k.token_hash == h) ts ≡ false
    → select_one (is_live h at) (
        update
          (λ (k : Token). k.token_hash == h)
          (λ (k : Token). record k { expires_at = until })
          ts)
      ≡ none
unfolding any select_one update
others h at until [] e = refl
others h at until (t ∷ ts) e =
    let (a, b) = parts (str_eq t.token_hash h) (any (λ (k : Token). k.token_hash == h) ts) e in
    rw a (rw a (others h at until ts b))
  where
    parts : (x y : Bool) → (x || y) ≡ false → (x ≡ false) × (y ≡ false)
    parts true y q = cc
    parts false y q = (refl, q)

session_user-none :
    (db : Db) (h : Str) (at : ℕ)
    → select_one (is_live h at) db.tokens ≡ none
    → session_user db h at ≡ none
unfolding session_user
session_user-none db h at e = rw (session_user, e) refl

session_user-some :
    (db : Db) (h : Str) (at : ℕ) (k : Token) (v : UserRow)
    → select_one (is_live h at) db.tokens ≡ some k
    → select_one (of_id k.user_id) db.users ≡ some v
    → session_user db h at ≡ some (identity v)
unfolding session_user
session_user-some db h at k v e q = rw (session_user, e, q) refl

module _ (hash : Str → Str) (db : Db) (uid : ℕ) (t : Str) (issued until at : ℕ) where
  ending : Token
  ending = record { token_hash = hash t; user_id = uid; created_at = issued; expires_at = until }

  -- The token that has just been given an end, and the others.
  expiring-tokens :
      (expiring (hash t) until (with_token hash db uid t issued)).tokens
      ≡ ending
        ∷ update
            (λ (k : Token). k.token_hash == hash t)
            (λ (k : Token). record k { expires_at = until })
            db.tokens
  unfolding update ending
  expiring-tokens = rw (str_eq_refl (hash t)) refl

  live-ending : 0 < until → is_live (hash t) at ending ≡ ltb at until
  unfolding ending
  live-ending some_end = rw (str_eq_refl (hash t)) (ground (arith, some_end))

  select_one-ending :
      any (λ (k : Token). k.token_hash == hash t) db.tokens ≡ false
      → 0 < until
      → select_one
          (is_live (hash t) at)
          (expiring (hash t) until (with_token hash db uid t issued)).tokens
        ≡ (if ltb at until then some ending else none)
  unfolding select_one
  select_one-ending free some_end =
      ap (select_one (is_live (hash t) at)) expiring-tokens
      ∙ rw (others (hash t) at until db.tokens free)
          (ap (λ b. if b then some ending else none) (live-ending some_end))

  pub session_user-expiring :
      (v : UserRow)
      → any (λ (k : Token). k.token_hash == hash t) db.tokens ≡ false
      → select_one (of_id uid) db.users ≡ some v
      → 0 < until
      → (session_user (expiring (hash t) until (with_token hash db uid t issued)) (hash t) at
          ≡ some (identity v))
        ↔ (at < until)
  unfolding ending
  session_user-expiring v free row some_end = elim (Bool-cases (ltb at until)) [
    | inl e ↦ (
      λ h. ground (arith, e),
      λ h.
          session_user-some behind (hash t) at ending v
            (select_one-ending free some_end ∙ ap (λ b. if b then some ending else none) e) row,
    )
    | inr e ↦ (
      λ h. cc (
        session_user-none behind (hash t) at
            (select_one-ending free some_end ∙ ap (λ b. if b then some ending else none) e),
        h,
      ),
      λ h. absurd (never e h),
    )
  ]
    where
      behind : Db
      behind = expiring (hash t) until (with_token hash db uid t issued)

      never : ltb at until ≡ false → at < until → ⊥
      never e h = cc (e, lt→ltb at until h)
