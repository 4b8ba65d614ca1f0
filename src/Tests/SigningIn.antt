-- ===== src/Tests/SigningIn.antt =====
-- Accounts, sessions and the entry on an example. The key that is derived is the password's length, and
-- the hash of a token puts a byte in front of it.
use gitclub.Base.{
  ◌≡◌, ◌≢◌, ◌≤◌, ◌↔◌, refl, subst, Str, bytes, true, false, [], ◌∷◌, none, some, some_inj, arith,
  ◌==◌, nat_eq, str_keys, str_eq, length, all, any, select_one, has_prefix, trim_prefix, split,
  has_suffix, In, Result, ok,
}
use gitclub.Base.Hex.{AreBytes}
use gitclub.Schema.{Db, Identity, Token}
use gitclub.Namespaces.{valid_name, name_ok}
use gitclub.Sessions.Passwords.{
  Kdf, password_hash, stored_hash, password_matches, password_matches-password_hash,
}
use gitclub.Sessions.Tokens.{presented, session_user, authenticate, new_token, logout, Session}
use gitclub.Sessions.Presenting.{with_token, with_bearer, authenticate-Session, logout_lem}
use gitclub.Sessions.Accounts.{enroll, register, login}
use gitclub.Sessions.Enrolling.{Accounts, register-Accounts}
use gitclub.Sessions.Returning.{register-login}
use gitclub.Entry.{
  Request, api_endpoint, trim_slashes, is_read, guard_origin, guard_cookie, is_git_path, entry,
}
use gitclub.Entry.Intent.{Intended, entry-Intended}
use gitclub.Tests.Example.{db, author}

abbrev kdf : Kdf
kdf p salt = some (length p ∷ [])

abbrev hash : Str → Str
hash t = 1 ∷ t

abbrev salt : Str
salt = 7 ∷ 8 ∷ []

abbrev password : Str
password = bytes "a long password"

salt_bytes : AreBytes salt
salt_bytes = (omega arith, (omega arith, tt))

key_bytes : (key : Str) → kdf password salt ≡ some key → AreBytes key
key_bytes key e = subst AreBytes (some_inj e) (omega arith, tt)

derived : password_hash kdf (some salt) password ≡ some (stored_hash salt (15 ∷ []))
unfolding password_hash
derived = refl

password_matches-password_hash_example :
    (password_matches kdf (bytes "another one, so") (stored_hash salt (15 ∷ [])) ≡ true)
    ↔ (kdf (bytes "another one, so") salt ≡ kdf password salt)
password_matches-password_hash_example =
    password_matches-password_hash kdf password (bytes "another one, so") salt
      (stored_hash salt (15 ∷ [])) salt_bytes key_bytes derived

abbrev token : Str
token = bytes "t0"

-- The author is signed in.
abbrev signed : Db
signed = with_token hash db 1 token 5

known : (authenticate hash signed (with_bearer token) 9).0 ≡ some author
unfolding authenticate presented session_user select_one has_prefix trim_prefix str_eq
known = refl

authenticate-Session_example : Session hash signed (with_bearer token) 9 author
authenticate-Session_example = authenticate-Session hash signed (with_bearer token) 9 author known

abbrev stored_token : Token
stored_token = record { token_hash = hash token; user_id = 1; created_at = 5; expires_at = 0 }

logout_lem_example :
    ((authenticate hash (logout hash signed (with_bearer token) 9) (with_bearer token) 20).0 ≡ none)
    × (In stored_token (logout hash signed (with_bearer token) 9).tokens
        ↔ (In stored_token signed.tokens × (hash token ≢ hash (presented (with_bearer token)))))
logout_lem_example =
    logout_lem hash signed (with_bearer token) (with_bearer token) 9 20 stored_token refl

abbrev carol : Str
carol = bytes "carol"

abbrev registered : Result (Identity × Str) × Db
registered = register kdf hash db carol password (some salt) (some token) 5 6

succeeds : registered ≡ (ok (record { id = 4; username = carol }, token), registered.1)
unfolding register enroll valid_name name_ok all any password_hash new_token str_eq
succeeds = refl

unused : any (λ (k : Token). k.token_hash == hash (bytes "t1")) registered.1.tokens ≡ false
unfolding register enroll valid_name name_ok all any password_hash new_token str_eq
unused = refl

register-login_example :
    (login kdf hash registered.1 carol (bytes "another one, so") (some (bytes "t1")) 8 ≡ (
      ok (record { id = 4; username = carol }, bytes "t1"),
      with_token hash registered.1 4 (bytes "t1") 8,
    ))
    ↔ ((length (bytes "another one, so") ≤ 256)
        × (kdf (bytes "another one, so") salt ≡ kdf password salt))
register-login_example =
    register-login kdf hash db carol password salt (some token) 5 6
      (record { id = 4; username = carol }) token registered.1 (bytes "another one, so")
      (bytes "t1") 8 salt_bytes key_bytes succeeds unused

abbrev fresh_db : Db
fresh_db = record db { users = []; next_user = 1 }

fresh-Accounts : Accounts fresh_db
fresh-Accounts = (λ v w m n e. elim m [ ], λ v m. elim m [ ], λ n m. elim m [ ])

register-Accounts_example :
    Accounts (register kdf hash fresh_db carol password (some salt) none 5 6).1
register-Accounts_example =
    register-Accounts kdf hash fresh_db carol password (some salt) none 5 6 fresh-Accounts

abbrev own_url : Str
own_url = bytes "https://git.example/"

abbrev request : Request
request = record {
  method = bytes "POST";
  path = bytes "/api/groups";
  origin = bytes "https://git.example";
  authorization = [];
  content_type = bytes "application/json; charset=utf-8";
  marker = [];
  cookie = some token;
}

passes : entry own_url request ≡ ok api_endpoint
unfolding entry guard_origin guard_cookie trim_slashes is_read str_eq has_prefix has_suffix
    trim_prefix split is_git_path
passes = refl

entry-Intended_example : Intended own_url request
entry-Intended_example = entry-Intended own_url request api_endpoint passes
