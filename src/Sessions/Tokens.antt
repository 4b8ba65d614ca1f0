-- ===== src/Sessions/Tokens.antt =====
-- newToken, authenticate and the logout route of implementations/go/main.go. The hash of a token
-- (SHA-256 in hexadecimal) is a parameter.
use gitclub.Base.{
  ℕ, ◌≡◌, ◌≢◌, ◌<◌, ◌⊎◌, refl, Str, bytes, Bool, true, ◌&&◌, ◌||◌, [], ◌∷◌, Option, none, some,
  arith, ltb, if◌then◌else◌, ◌==◌, nat_eq, str_keys, length, has_prefix, trim_prefix, contains, any,
  select_one, select_one-In, delete, In, Result, ok, fail,
}
use gitclub.Schema.{Db, UserRow, Identity, Token}

-- What authenticate reads of a request: the header Authorization, the path, the password of
-- BasicAuth, and the cookie gc_session.
pub record Credentials : Type 0 where
  pub authorization : Str
  pub path : Str
  pub basic_password : Str
  pub cookie : Option Str

abbrev pub bearer : Str
bearer = bytes "Bearer "

abbrev pub header_token : Credentials → Str
header_token c =
    if has_prefix c.authorization bearer
    then trim_prefix c.authorization bearer
    else if contains c.path (bytes ".git/")
    then c.basic_password
    else []

abbrev pub cookie_token : Option Str → Str
cookie_token none = []
cookie_token (some t) = t

-- The token that a request presents, empty for none.
unfoldable pub presented : Credentials → Str
presented c = if length (header_token c) == 0 then cookie_token c.cookie else header_token c

-- token_hash=? AND (expires_at=0 OR expires_at>?)
abbrev pub is_live : Str → ℕ → Token → Bool
is_live h now t = t.token_hash == h && (t.expires_at == 0 || ltb now t.expires_at)

-- The join of users and tokens; the hash is the primary key of tokens.
unfoldable pub session_user : Db → Str → ℕ → Option Identity
session_user db h now = elim (select_one (is_live h now) db.tokens) [
  | none ↦ none
  | some t ↦ elim (select_one (λ (v : UserRow). v.id == t.user_id) db.users) [
    | none ↦ none
    | some v ↦ some (record { id = v.id; username = v.username })
  ]
]

-- authenticate
unfoldable pub authenticate : (Str → Str) → Db → Credentials → ℕ → Option Identity × Str
authenticate hash db c now =
    let t = presented c in if length t == 0 then (none, []) else (session_user db (hash t) now, t)

-- newToken; none is a failure of rand.Read, and the hash is the table's primary key.
unfoldable pub new_token : (Str → Str) → Db → ℕ → Option Str → ℕ → Result (Str × Db)
new_token hash db uid none now = fail 500 "Token generation failed"
new_token hash db uid (some t) now =
    if any (λ (k : Token). k.token_hash == hash t) db.tokens
    then fail 409 "That name or entry already exists"
    else ok (
      t,
      record db {
        tokens =
            record { token_hash = hash t; user_id = uid; created_at = now; expires_at = 0 }
            ∷ db.tokens;
      },
    )

-- POST /api/auth/logout
unfoldable pub logout : (Str → Str) → Db → Credentials → ℕ → Db
logout hash db c now =
    let h = hash (authenticate hash db c now).1 in
    record db { tokens = delete (λ (k : Token). k.token_hash == h) db.tokens }

-- A stored token that the request presents and that has not expired, and its owner.
pub record Session (hash : Str → Str) (db : Db) (c : Credentials) (now : ℕ) (u : Identity)
    : Type 0 where
  pub token : Token
  pub owner : UserRow
  pub presents : presented c ≢ []
  pub stored : In token db.tokens
  pub of_hash : token.token_hash ≡ hash (presented c)
  pub unexpired : (token.expires_at ≡ 0) ⊎ (now < token.expires_at)
  pub known : In owner db.users
  pub of_owner : owner.id ≡ token.user_id
  pub same_id : u.id ≡ owner.id
  pub same_name : u.username ≡ owner.username

module _ (hash : Str → Str) (db : Db) (c : Credentials) (now : ℕ) where
  pub session_of :
      (h : Str) (u : Identity)
      → session_user db h now ≡ some u
      → (t : Token) × (v : UserRow) × In t db.tokens
        × (is_live h now t ≡ true)
        × In v db.users
        × (v.id ≡ t.user_id)
        × (u.id ≡ v.id)
        × (u.username ≡ v.username)
  unfolding session_user
  session_of h u = found (select_one (is_live h now) db.tokens) refl
    where
      owned :
          (t : Token) (o : Option UserRow)
          → select_one (λ (v : UserRow). v.id == t.user_id) db.users ≡ o
          → In t db.tokens
          → is_live h now t ≡ true
          → elim o as (λ _. Option Identity) [
            | none ↦ none
            | some v ↦ some (record { id = v.id; username = v.username })
          ]
            ≡ some u
          → (t : Token) × (v : UserRow) × In t db.tokens
            × (is_live h now t ≡ true)
            × In v db.users
            × (v.id ≡ t.user_id)
            × (u.id ≡ v.id)
            × (u.username ≡ v.username)
      owned t none e t_in live q = cc
      owned t (some v) e t_in live q =
          let (v_in, same) = select_one-In (λ (x : UserRow). x.id == t.user_id) db.users v e in
          (t, v, t_in, live, v_in, ground arith, ground arith, ground arith)

      found :
          (o : Option Token)
          → select_one (is_live h now) db.tokens ≡ o
          → elim o as (λ _. Option Identity) [
            | none ↦ none
            | some t ↦ elim (select_one (λ (v : UserRow). v.id == t.user_id) db.users) [
              | none ↦ none
              | some v ↦ some (record { id = v.id; username = v.username })
            ]
          ]
            ≡ some u
          → (t : Token) × (v : UserRow) × In t db.tokens
            × (is_live h now t ≡ true)
            × In v db.users
            × (v.id ≡ t.user_id)
            × (u.id ≡ v.id)
            × (u.username ≡ v.username)
      found none e q = cc
      found (some t) e q =
          let (t_in, live) = select_one-In (is_live h now) db.tokens t e in
          owned t (select_one (λ (v : UserRow). v.id == t.user_id) db.users) refl t_in live q
