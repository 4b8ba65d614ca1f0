-- ===== src/Ssh/Keys.antt =====
-- The routes ssh-keys and authorized-keys of sshRoutes in implementations/go/git.go: adding, listing and
-- deleting the keys of an account. What ssh-keygen says of a key is a parameter; the file that it is
-- given can be written.
use gitclub.Base.{
  ℕ, suc, ◌++◌, ◌≡◌, refl, Str, bytes, Bool, true, false, not, ◌&&◌, ◌||◌, List, [], ◌∷◌, Option,
  none, some, ltb, if◌then◌else◌, ◌==◌, nat_eq, str_keys, nat_beq, is_space, trim_space, has_prefix,
  contains_any, length, any, select, delete, Result, ok, fail_if, fail_if-eq-ok, or_fail,
  or_fail-eq-ok, >>=-eq-ok, ◌>>=◌, ◌>>◌,
}
use gitclub.Base.Sorting.{sort}
use gitclub.Schema.{Db, SshKey, Identity}

-- A byte that is no blank, in front of the first field; begun is whether that has begun.
abbrev push_field : ℕ → Bool → List Str → List Str
push_field c false fs = (c ∷ []) ∷ fs
push_field c true [] = (c ∷ []) ∷ []
push_field c true (f ∷ fs) = (c ∷ f) ∷ fs

abbrev starts_field : Str → Bool
starts_field [] = false
starts_field (c ∷ s) = not (is_space c)

-- strings.Fields(s)
unfoldable pub fields : Str → List Str
fields [] = []
fields (c ∷ s) =
    let rest = fields s in if is_space c then rest else push_field c (starts_field s) rest

-- p holds of the text or of what is left behind some of its first bytes.
abbrev any_rest : (Str → Bool) → Str → Bool
any_rest p [] = p []
any_rest p (c ∷ s) = p (c ∷ s) || any_rest p s

abbrev on_rest : (ℕ → Bool) → (Str → Bool) → Str → Bool
on_rest test p [] = false
on_rest test p (c ∷ s) = test c && p s

-- s LIKE pattern, where the pattern has no backslash.
unfoldable pub like : Str → Str → Bool
like [] s = length s == 0
like (c ∷ pattern) s =
    if nat_beq c b'%'
    then any_rest (like pattern) s
    else on_rest (λ d. nat_beq c b'_' || nat_beq c d) (like pattern) s

abbrev pub is_supported : Str → Bool
is_supported kind =
    kind == bytes "ssh-ed25519"
    || (kind == bytes "ssh-rsa" || has_prefix kind (bytes "ecdsa-sha2-nistp"))

-- fields[0] + " " + fields[1], none for another key.
unfoldable pub canonical_of : List Str → Option Str
canonical_of (kind ∷ blob ∷ rest) = if is_supported kind then some (kind ++ (b' ' ∷ blob)) else none
canonical_of _ = none

-- public_key=? OR public_key LIKE ?
abbrev pub is_same_key : Str → SshKey → Bool
is_same_key canonical k = k.public_key == canonical || like (canonical ++ bytes " %") k.public_key

-- Up to the insert: the title, the key and its canonical form. valid is what ssh-keygen says of that.
unfoldable pub checked_key : Db → (Str → Bool) → (title key : Str) → Result Str
checked_key db valid title key = do
  fail_if
      ((length title == 0 || ltb 120 (length title))
        || (ltb 16384 (length key) || contains_any key (13 ∷ 10 ∷ [])))
      400 "Provide a title and one OpenSSH public key"
  canonical ← or_fail (canonical_of (fields key)) 400 "Unsupported SSH public key"
  fail_if (not (valid canonical)) 400 "Invalid OpenSSH public key"
  fail_if (any (is_same_key canonical) db.ssh_keys) 409 "SSH key is already registered"
  ok canonical

-- POST /api/ssh-keys; public_key is a key of the table.
unfoldable pub add_key : Db → Option Identity → (Str → Bool) → (title key : Str) → ℕ → Result Db
add_key db who valid title key now = do
  u ← or_fail who 401 "Sign in to manage SSH keys"
  canonical ← checked_key db valid (trim_space title) (trim_space key)
  fail_if (any (λ (k : SshKey). k.public_key == trim_space key) db.ssh_keys) 409
      "That name or entry already exists"
  ok (record db {
    ssh_keys =
        record {
          id = db.next_key;
          user_id = u.id;
          title = trim_space title;
          public_key = trim_space key;
          created_at = now;
        }
        ∷ db.ssh_keys;
    next_key = suc db.next_key;
  })

abbrev pub lower_id : SshKey → SshKey → Bool
lower_id k l = ltb k.id l.id

-- GET /api/ssh-keys and, for the transport, GET /api/ssh/authorized-keys: ORDER BY id.
unfoldable pub own_keys : Db → Option Identity → Result (List SshKey)
own_keys db who = do
  u ← or_fail who 401 "Sign in to manage SSH keys"
  ok (sort lower_id (select (λ (k : SshKey). k.user_id == u.id) db.ssh_keys))

unfoldable pub authorized_keys : Db → List SshKey
authorized_keys db = sort lower_id db.ssh_keys

abbrev pub is_own_key : ℕ → ℕ → SshKey → Bool
is_own_key id uid k = k.id == id && k.user_id == uid

-- DELETE /api/ssh-keys/ID
unfoldable pub delete_key : Db → Option Identity → ℕ → Result Db
delete_key db who id = do
  u ← or_fail who 401 "Sign in to manage SSH keys"
  fail_if (not (any (is_own_key id u.id) db.ssh_keys)) 404 "SSH key not found"
  ok (record db { ssh_keys = delete (is_own_key id u.id) db.ssh_keys })

-- A key that is accepted is new in its canonical form among the keys that are stored in that form, is
-- stored as its owner's, and leaves the others as they are.
pub add_key_lem :
    (db : Db) (u : Identity) (valid : Str → Bool) (title key : Str) (now : ℕ) (after : Db)
    → add_key db (some u) valid title key now ≡ ok after
    → (canonical : Str) × (canonical_of (fields (trim_space key)) ≡ some canonical)
      × (valid canonical ≡ true)
      × (any (is_same_key canonical) db.ssh_keys ≡ false)
      × (after.ssh_keys
          ≡ record {
            id = db.next_key;
            user_id = u.id;
            title = trim_space title;
            public_key = trim_space key;
            created_at = now;
          }
            ∷ db.ssh_keys)
unfolding add_key checked_key
add_key_lem db u valid title key now after h =
    let (canonical, checked, h1) =
      >>=-eq-ok (checked_key db valid (trim_space title) (trim_space key)) _ h in
    let (_, _, c1) =
      >>=-eq-ok
        (fail_if
          ((length (trim_space title) == 0 || ltb 120 (length (trim_space title)))
            || (ltb 16384 (length (trim_space key))
                || contains_any (trim_space key) (13 ∷ 10 ∷ [])))
          400 _)
        _ checked in
    let (c, form, c2) = >>=-eq-ok (or_fail (canonical_of (fields (trim_space key))) 400 _) _ c1 in
    let (_, good, c3) = >>=-eq-ok (fail_if (not (valid c)) 400 _) _ c2 in
    let (_, new, _) = >>=-eq-ok (fail_if (any (is_same_key c) db.ssh_keys) 409 _) _ c3 in
    let (_, _, h2) =
      >>=-eq-ok (fail_if (any (λ (k : SshKey). k.public_key == trim_space key) db.ssh_keys) 409 _) _
        h1 in
    (
      c,
      or_fail-eq-ok (canonical_of (fields (trim_space key))) 400 _ form,
      unnot (valid c) (fail_if-eq-ok _ 400 _ good),
      fail_if-eq-ok _ 409 _ new,
      cc,
    )
  where
    unnot : (b : Bool) → not b ≡ false → b ≡ true
    unnot true e = refl
    unnot false e = cc
