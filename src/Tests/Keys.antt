-- ===== src/Tests/Keys.antt =====
-- Keys of the SSH transport on the example. ssh-keygen accepts every key in its canonical form.
use gitclub.Base.{
  ◌≡◌, refl, Str, bytes, Bool, true, [], ◌∷◌, some, ok, fail, any, contains_any, has_prefix, str_eq,
  trim_space, trim_left, trim_right,
}
use gitclub.Schema.{Db, SshKey, Identity}
use gitclub.Ssh.Keys.{add_key, checked_key, canonical_of, fields, like}
use gitclub.Tests.Example.{db, author}

abbrev valid : Str → Bool
valid key = true

abbrev bob : Identity
bob = record { id = 2; username = bytes "bob" }

-- One blank between the kind and the key, and two.
abbrev single : Str
single = bytes "ssh-ed25519 AAAA"

abbrev double : Str
double = bytes "ssh-ed25519  AAAA"

abbrev single_row : SshKey
single_row = record { id = 1; user_id = 1; title = bytes "a"; public_key = single; created_at = 5 }

abbrev double_row : SshKey
double_row = record { id = 1; user_id = 1; title = bytes "a"; public_key = double; created_at = 5 }

abbrev with_single : Db
with_single = record db { ssh_keys = single_row ∷ []; next_key = 2 }

abbrev with_double : Db
with_double = record db { ssh_keys = double_row ∷ []; next_key = 2 }

first_added : add_key db (some author) valid (bytes "a") double 5 ≡ ok with_double
unfolding add_key checked_key canonical_of fields like any contains_any has_prefix str_eq trim_space
    trim_left trim_right
first_added = refl

-- A key that is stored with one blank is known again, with a comment too.
known_again :
    add_key with_single (some bob) valid (bytes "b") (bytes "ssh-ed25519 AAAA bob@host") 6
    ≡ fail 409 "SSH key is already registered"
unfolding add_key checked_key canonical_of fields like any contains_any has_prefix str_eq trim_space
    trim_left trim_right
known_again = refl

abbrev bob_row : SshKey
bob_row = record { id = 2; user_id = 2; title = bytes "b"; public_key = single; created_at = 6 }

-- Where it is stored with two blanks, another account registers the same key.
registered_twice :
    add_key with_double (some bob) valid (bytes "b") single 6
    ≡ ok (record with_double { ssh_keys = bob_row ∷ double_row ∷ []; next_key = 3 })
unfolding add_key checked_key canonical_of fields like any contains_any has_prefix str_eq trim_space
    trim_left trim_right
registered_twice = refl
