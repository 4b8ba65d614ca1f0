-- ===== src/Sessions/Accounts.antt =====
-- The routes register and login of api in implementations/go/main.go. A statement fails only where
-- a key is taken; what the random source gives is an argument, none a failure of it.
use gitclub.Base.{
  ℕ, suc, Str, bytes, Bool, true, false, not, ◌||◌, ◌∷◌, Option, none, some, ltb, if◌then◌else◌,
  ◌==◌, nat_eq, str_keys, length, any, select_one, Result, ok, err, fail, fail_if, or_fail, ◌>>=◌,
  ◌>>◌,
}
use gitclub.Schema.{Db, UserRow, Identity, Namespace}
use gitclub.Access.{named}
use gitclub.Namespaces.{name_ok, admin}
use gitclub.Sessions.Passwords.{Kdf, password_hash, password_matches}
use gitclub.Sessions.Tokens.{new_token}

abbrev pub identity : UserRow → Identity
identity v = record { id = v.id; username = v.username }

-- The row of a new account.
abbrev pub account_row : Db → Str → Str → ℕ → UserRow
account_row db username h stamp = record {
  id = db.next_user;
  username = username;
  password_hash = h;
  created_at = stamp;
}

-- The three inserts of one transaction.
abbrev pub with_account : Db → Str → Str → ℕ → Db
with_account db username h stamp = record db {
  users = account_row db username h stamp ∷ db.users;
  namespaces = record { name = username; kind = bytes "user" } ∷ db.namespaces;
  namespace_members =
      record { namespace = username; user_id = db.next_user; role = admin } ∷ db.namespace_members;
  next_user = suc db.next_user;
}

-- Register up to the commit.
unfoldable pub enroll : Kdf → Db → Str → Str → Option Str → ℕ → Result (Identity × Db)
enroll kdf db username password salt stamp = do
  fail_if (not (name_ok username) || (ltb (length password) 12 || ltb 256 (length password))) 400
      "Use a lowercase username and a password of 12 to 256 bytes"
  h ← or_fail (password_hash kdf salt password) 500 "Password generation failed"
  fail_if (any (named username) db.users) 409 "Username already exists"
  fail_if (any (λ (n : Namespace). n.name == username) db.namespaces) 409 "Namespace already exists"
  ok (identity (account_row db username h stamp), with_account db username h stamp)

-- The answer with the token, and the state: a token that cannot be made leaves the account.
abbrev pub signed_in : Identity → Db → Result (Str × Db) → Result (Identity × Str) × Db
signed_in u db (err problem) = (err problem, db)
signed_in u db (ok (t, after)) = (ok (u, t), after)

-- POST /api/auth/register
unfoldable pub register :
    Kdf
    → (Str → Str)
    → Db
    → Str
    → Str
    → Option Str
    → Option Str
    → ℕ
    → ℕ
    → Result (Identity × Str) × Db
register kdf hash db username password salt token stamp now =
    elim (enroll kdf db username password salt stamp) [
      | err problem ↦ (err problem, db)
      | ok (u, after) ↦ signed_in u after (new_token hash after u.id token now)
    ]

abbrev pub no_hash : Str
no_hash =
    bytes
      "pbkdf2_sha256$600000$00000000000000000000000000000000$0000000000000000000000000000000000000000000000000000000000000000"

-- str(user, "password_hash"), and the hash that stands for an account that is not there.
unfoldable pub hash_of : Option UserRow → Str
hash_of none = no_hash
hash_of (some v) = if length v.password_hash == 0 then no_hash else v.password_hash

abbrev pub is_missing : Option UserRow → Bool
is_missing none = true
is_missing (some v) = false

-- The guard of login.
unfoldable pub refuses : Kdf → Str → Option UserRow → Bool
refuses kdf password user =
    ltb 256 (length password)
    || (not (password_matches kdf password (hash_of user)) || is_missing user)

-- POST /api/auth/login
unfoldable pub login :
    Kdf → (Str → Str) → Db → Str → Str → Option Str → ℕ → Result (Identity × Str) × Db
login kdf hash db username password token now =
    let user = select_one (named username) db.users in
    if refuses kdf password user
    then (fail 401 "Incorrect username or password", db)
    else elim user [
      | none ↦ (fail 401 "Incorrect username or password", db)
      | some v ↦ signed_in (identity v) db (new_token hash db v.id token now)
    ]
