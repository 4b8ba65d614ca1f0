-- ===== src/Sessions/Presenting.antt =====
-- What authenticate, newToken and logout mean for each other.
use gitclub.Base.{
  ℕ, ◌++◌, ◌≡◌, ◌≢◌, ◌<◌, ◌↔◌, ◌⊎◌, inl, inr, refl, sym, ap, subst, ◌∙◌, Str, Bool, true, false,
  ◌||◌, [], ◌∷◌, Option, none, some, arith, ltb, ◌==◌, nat_eq, str_keys, str_eq, str_eq_iff,
  str_eq_refl, length, has_prefix, trim_prefix, any, select_one, In-delete, delete-In, In,
  Bool-cases, Result, ok,
}
use gitclub.Schema.{Db, UserRow, Identity, Token}
use gitclub.Sessions.Tokens.{
  Credentials, bearer, presented, is_live, session_user, session_of, authenticate, new_token,
  logout, Session,
}

-- The request that the holder of a token makes.
abbrev pub with_bearer : Str → Credentials
with_bearer t = record {
  authorization = bearer ++ t;
  path = [];
  basic_password = [];
  cookie = none;
}

presented-with_bearer : (t : Str) → t ≢ [] → presented (with_bearer t) ≡ t
unfolding presented has_prefix trim_prefix
presented-with_bearer [] h = absurd (h refl)
presented-with_bearer (a ∷ t) h = ground arith

module _ (hash : Str → Str) where
  -- A request that is taken for a user presents a token that is not empty, whose hash is stored, that
  -- has not expired, and that belongs to that user, who is stored.
  pub authenticate-Session :
      (db : Db) (c : Credentials) (now : ℕ) (u : Identity)
      → (authenticate hash db c now).0 ≡ some u
      → Session hash db c now u
  unfolding authenticate
  authenticate-Session db c now u h = elim (Bool-cases (length (presented c) == 0)) [
    | inl t ↦ absurd (nobody (rw t at h))
    | inr t ↦
        let (k, v, k_in, live, v_in, same, i, n) =
          session_of hash db c now (hash (presented c)) u (rw t at h) in
        let (its, fresh) = both k live in
        record {
          token = k;
          owner = v;
          presents = λ e. cc (ap (λ s. length s == 0) e, t);
          stored = k_in;
          of_hash = (str_eq_iff k.token_hash (hash (presented c))).0 its;
          unexpired = either k fresh;
          known = v_in;
          of_owner = same;
          same_id = i;
          same_name = n;
        }
  ]
    where
      nobody : none ≡ some u → ⊥
      nobody e = cc

      both :
          (k : Token)
          → is_live (hash (presented c)) now k ≡ true
          → (str_eq k.token_hash (hash (presented c)) ≡ true)
            × ((k.expires_at == 0 || ltb now k.expires_at) ≡ true)
      both k e = ground arith

      either :
          (k : Token)
          → (k.expires_at == 0 || ltb now k.expires_at) ≡ true
          → (k.expires_at ≡ 0) ⊎ (now < k.expires_at)
      either k e = ground arith

  authenticate_presents :
      (db : Db) (c : Credentials) (now : ℕ)
      → hash (authenticate hash db c now).1 ≡ hash (presented c)
  unfolding authenticate
  authenticate_presents db c now = elim (Bool-cases (length (presented c) == 0)) [
    | inl t ↦ rw t (ap hash (empty (presented c) t))
    | inr t ↦ rw t refl
  ]
    where
      empty : (s : Str) → (length s == 0) ≡ true → [] ≡ s
      empty [] e = refl
      empty (a ∷ s) e = ground arith

  -- Behind a sign-out a request that presents the same token is taken for no one, at any time, and the
  -- tokens that are stored are those that were and whose hash is another.
  pub logout_lem :
      (db : Db) (c again : Credentials) (now later : ℕ) (k : Token)
      → presented again ≡ presented c
      → ((authenticate hash (logout hash db c now) again later).0 ≡ none)
        × (In k (logout hash db c now).tokens
            ↔ (In k db.tokens × (k.token_hash ≢ hash (presented c))))
  unfolding logout
  logout_lem db c again now later k e = (
    refused (authenticate hash (logout hash db c now) again later).0 refl,
    (
      λ m. let (k_in, gone) = In-delete revoked k db.tokens m in (k_in, λ q. cc (gone, its k q)),
      λ m. delete-In revoked k db.tokens m.0 (elim (Bool-cases (revoked k)) [
        | inl t ↦ absurd (
            m.1 (
              (str_eq_iff k.token_hash (hash (authenticate hash db c now).1)).0 t
              ∙ authenticate_presents db c now))
        | inr t ↦ t
      ]),
    ),
  )
    where
      revoked : Token → Bool
      revoked x = x.token_hash == hash (authenticate hash db c now).1

      its : (x : Token) → x.token_hash ≡ hash (presented c) → revoked x ≡ true
      its x q =
          (str_eq_iff x.token_hash (hash (authenticate hash db c now).1)).1
            (q ∙ sym (authenticate_presents db c now))

      refused :
          (o : Option Identity)
          → (authenticate hash (logout hash db c now) again later).0 ≡ o
          → o ≡ none
      refused none q = refl
      refused (some u) q =
          let s = authenticate-Session (logout hash db c now) again later u q in
          let (_, gone) = In-delete revoked s.token db.tokens s.stored in
          absurd (cc (gone, its s.token (s.of_hash ∙ ap hash e)))

  -- The state behind newToken.
  abbrev pub with_token : Db → ℕ → Str → ℕ → Db
  with_token db uid t now = record db {
    tokens =
        record { token_hash = hash t; user_id = uid; created_at = now; expires_at = 0 } ∷ db.tokens;
  }

  pub new_token-eq-ok :
      (db : Db) (uid : ℕ) (fresh : Option Str) (now : ℕ) (t : Str) (after : Db)
      → new_token hash db uid fresh now ≡ ok (t, after)
      → (fresh ≡ some t)
        × (after ≡ with_token db uid t now)
        × (any (λ (k : Token). k.token_hash == hash t) db.tokens ≡ false)
  unfolding new_token
  new_token-eq-ok db uid none now t after h = cc
  new_token-eq-ok db uid (some t0) now t after h =
      elim (Bool-cases (any (λ (k : Token). k.token_hash == hash t0) db.tokens)) [
        | inl e ↦ cc (rw e at h)
        | inr e ↦ made e (rw e at h)
      ]
    where
      made :
          any (λ (k : Token). k.token_hash == hash t0) db.tokens ≡ false
          → ◌≡◌ {A = Result (Str × Db)} (ok (t0, with_token db uid t0 now)) (ok (t, after))
          → (some t0 ≡ some t)
            × (after ≡ with_token db uid t now)
            × (any (λ (k : Token). k.token_hash == hash t) db.tokens ≡ false)
      made e q =
          let a : t0 ≡ t = cc in
          let b : with_token db uid t0 now ≡ after = cc in
          (
            ap some a,
            sym b ∙ ap (λ x. with_token db uid x now) a,
            subst (λ x. any (λ (k : Token). k.token_hash == hash x) db.tokens ≡ false) a e,
          )

  session_user-with_token :
      (db : Db) (uid : ℕ) (t : Str) (now later : ℕ) (v : UserRow)
      → select_one (λ (x : UserRow). x.id == uid) db.users ≡ some v
      → session_user (with_token db uid t now) (hash t) later
        ≡ some (record { id = v.id; username = v.username })
  unfolding session_user select_one
  session_user-with_token db uid t now later v row =
      rw (session_user, select_one, str_eq_refl (hash t), row) refl

  pub authenticate-with_bearer :
      (db : Db) (t : Str) (at : ℕ)
      → t ≢ []
      → (authenticate hash db (with_bearer t) at).0 ≡ session_user db (hash t) at
  unfolding authenticate
  authenticate-with_bearer db t at some_t =
      rw (presented-with_bearer t some_t) (rw (filled t some_t) refl)
    where
      filled : (s : Str) → s ≢ [] → (length s == 0) ≡ false
      filled [] e = absurd (e refl)
      filled (a ∷ s) e = ground arith

  pub with_token-authenticate :
      (db : Db) (uid : ℕ) (t : Str) (now later : ℕ) (v : UserRow)
      → t ≢ []
      → select_one (λ (x : UserRow). x.id == uid) db.users ≡ some v
      → (authenticate hash (with_token db uid t now) (with_bearer t) later).0
        ≡ some (record { id = v.id; username = v.username })
  with_token-authenticate db uid t now later v some_t row =
      authenticate-with_bearer (with_token db uid t now) t later some_t
      ∙ session_user-with_token db uid t now later v row

  -- A token that newToken gives signs in its user, by the header and at every later time, where the
  -- token is not empty and the user is stored.
  pub new_token-authenticate :
      (db : Db) (uid : ℕ) (fresh : Option Str) (now later : ℕ) (t : Str) (after : Db) (v : UserRow)
      → t ≢ []
      → select_one (λ (x : UserRow). x.id == uid) db.users ≡ some v
      → new_token hash db uid fresh now ≡ ok (t, after)
      → (authenticate hash after (with_bearer t) later).0
        ≡ some (record { id = v.id; username = v.username })
  new_token-authenticate db uid fresh now later t after v some_t row h =
      rw (new_token-eq-ok db uid fresh now t after h).1
        (with_token-authenticate db uid t now later v some_t row)
