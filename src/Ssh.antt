-- ===== src/Ssh.antt =====
-- The SSH transport's questions to the server: sshCommandPattern and the route authorize of sshRoutes in
-- implementations/go/git.go. The secret that admits the transport is compared before.
pub mod Command
pub mod Keys
pub mod Expiry
pub mod Grants
use gitclub.Base.{
  ℕ, String, ◌+◌, ◌++◌, ◌≡◌, Str, bytes, Bool, true, false, ◌&&◌, ◌||◌, List, [], ◌∷◌, Option, none,
  some, if◌then◌else◌, ◌==◌, nat_eq, str_keys, nat_beq, cut_at, strip_suffix, select_one, update,
  Result, ok, err, fail, or_fail, ◌>>=◌, ◌>>◌,
}
use gitclub.Schema.{Db, Repo, UserRow, Identity, Token, SshKey}
use gitclub.Access.{Server, repo}
use gitclub.Namespaces.{valid_name}
use gitclub.Sessions.Accounts.{identity}
use gitclub.Sessions.Tokens.{new_token}

abbrev pub upload_pack : Str
upload_pack = bytes "git-upload-pack"

abbrev pub receive_pack : Str
receive_pack = bytes "git-receive-pack"

-- The three groups of the pattern: the operation, the owner and the name.
pub record Parts : Type 0 where
  pub operation : Str
  pub owner : Str
  pub name : Str

unfoldable pub is_operation : Str → Bool
is_operation op = op == upload_pack || op == receive_pack

abbrev pub checked_parts : Str → Option (Str × Str) → Option Parts
checked_parts op none = none
checked_parts op (some (owner, name)) =
    if is_operation op && (valid_name owner && valid_name name)
    then some (record { operation = op; owner = owner; name = name })
    else none

-- Behind the blank: a quote, the owner, a slash and the name.
abbrev pub quoted_parts : Option (Str × Str) → Option Parts
quoted_parts none = none
quoted_parts (some (op, [])) = none
quoted_parts (some (op, c ∷ rest)) =
    if nat_beq c b'\'' then checked_parts op (cut_at b'/' rest) else none

abbrev pub spaced_parts : Option Str → Option Parts
spaced_parts none = none
spaced_parts (some s) = quoted_parts (cut_at b' ' s)

-- sshCommandPattern.FindStringSubmatch: neither an operation nor a name has a blank, a quote or a slash.
unfoldable pub parse_command : Str → Option Parts
parse_command s = spaced_parts (strip_suffix s (bytes ".git'"))

-- What the transport is told.
pub record Grant : Type 0 where
  pub repo_id : ℕ
  pub user_id : ℕ
  pub token : Str
  pub operation : Str

abbrev pub has_path : Parts → Repo → Bool
has_path p r = r.owner == p.owner && r.name == p.name

abbrev pub role_for : Parts → Str
role_for p = if p.operation == receive_pack then bytes "write" else bytes "read"

abbrev pub of_id : ℕ → UserRow → Bool
of_id id v = v.id == id

-- Up to the token: who asks, for what, and the repository that they may use so.
unfoldable pub admitted : Server → Db → ℕ → Str → Result (Identity × Parts × Repo)
admitted s db key_id command = do
  key ←
      or_fail (select_one (λ (k : SshKey). k.id == key_id) db.ssh_keys) 403
        "SSH key is not authorized"
  v ← or_fail (select_one (of_id key.user_id) db.users) 403 "SSH key is not authorized"
  p ←
      or_fail (parse_command command) 400
        "Only Git upload-pack and receive-pack commands are allowed"
  found ← or_fail (select_one (has_path p) db.repositories) 404 "Repository not found"
  r ← repo s db found.id (some (identity v)) (role_for p)
  ok (identity v, p, r)

-- UPDATE tokens SET expires_at=? WHERE token_hash=?
abbrev pub expiring : Str → ℕ → Db → Db
expiring h at db = record db {
  tokens =
      update (λ (k : Token). k.token_hash == h) (λ (k : Token). record k { expires_at = at })
        db.tokens;
}

abbrev pub granted :
    (Str → Str) → Identity → Parts → Repo → ℕ → Db → Result (Str × Db) → Result Grant × Db
granted hash u p r now db (err e) = (err e, db)
granted hash u p r now db (ok (t, after)) = (
  ok (record { repo_id = r.id; user_id = u.id; token = t; operation = p.operation }),
  expiring (hash t) (now + 180000) after,
)

-- POST /api/ssh/authorize
unfoldable pub authorize :
    (Str → Str) → Server → Db → ℕ → Str → Option Str → ℕ → ℕ → Result Grant × Db
authorize hash s db key_id command fresh issued now = elim (admitted s db key_id command) [
  | err e ↦ (err e, db)
  | ok (u, p, r) ↦ granted hash u p r now db (new_token hash db u.id fresh issued)
]
