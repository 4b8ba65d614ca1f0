-- ===== src/Namespaces.antt =====
-- namespaces of implementations/go/repositories.go: creating an organisation and setting a member's
-- role. A statement that fails for another reason than the ones the code tells apart is left out.
pub mod Admins
use gitclub.Base.{
  ℕ, String, ◌++◌, ◌≡◌, Str, bytes, Bool, true, false, not, ◌&&◌, ◌||◌, List, [], ◌∷◌, Option, none,
  some, ltb, leb, if◌then◌else◌, ◌==◌, nat_eq, str_keys, any, all, length, update, select_one,
  Result, ok, err, fail, fail_if, or_fail, ◌>>=◌, ◌>>◌,
}
use gitclub.Schema.{Db, Identity, Namespace, NamespaceMember, UserRow}
use gitclub.Access.{rank}

-- [a-z0-9]
abbrev pub is_alnum : ℕ → Bool
is_alnum c = (leb b'a' c && leb c b'z') || (leb b'0' c && leb c b'9')

-- [a-z0-9._-]
abbrev pub is_name_char : ℕ → Bool
is_name_char c = is_alnum c || (c == b'.' || (c == b'_' || c == b'-'))

-- validName: a first character, and at most 62 more.
unfoldable pub valid_name : Str → Bool
valid_name [] = false
valid_name (c ∷ rest) = is_alnum c && (all is_name_char rest && leb (length rest) 62)

-- nameOK
unfoldable pub name_ok : Str → Bool
name_ok v = valid_name v && (not (v == bytes ".") && not (v == bytes ".."))

-- requireUser
unfoldable pub require_user : Option Identity → Result Identity
require_user none = fail 401 "Sign in to continue"
require_user (some u) = ok u

abbrev pub admin : Str
admin = bytes "admin"

-- POST /namespaces: the two inserts of one transaction.
unfoldable pub create_namespace : Db → Option Identity → Str → Result Db
create_namespace db who name = do
  u ← require_user who
  fail_if (not (name_ok name)) 400 "Use a lowercase namespace name of 1 to 63 characters"
  fail_if (any (λ (n : Namespace). n.name == name) db.namespaces) 409 "Namespace already exists"
  ok (record db {
    namespaces = record { name = name; kind = bytes "organization" } ∷ db.namespaces;
    namespace_members =
        record { namespace = name; user_id = u.id; role = admin } ∷ db.namespace_members;
  })

abbrev pub is_member : Str → ℕ → NamespaceMember → Bool
is_member ns uid m = m.namespace == ns && m.user_id == uid

-- str(row, "role"), with the empty string where there is no row
abbrev pub role_in : Option NamespaceMember → Str
role_in none = []
role_in (some m) = m.role

abbrev pub kind_of : Option Namespace → Str
kind_of none = []
kind_of (some n) = n.kind

-- INSERT … ON CONFLICT(namespace,user_id) DO UPDATE SET role=excluded.role
unfoldable pub upsert_member : Str → ℕ → Str → List NamespaceMember → List NamespaceMember
upsert_member ns uid role ms =
    if any (is_member ns uid) ms
    then update (is_member ns uid) (λ (m : NamespaceMember). record m { role = role }) ms
    else record { namespace = ns; user_id = uid; role = role } ∷ ms

-- POST /namespaces/NS/members
unfoldable pub set_member : Db → Option Identity → Str → Str → Str → Result Db
set_member db who ns username role = do
  u ← require_user who
  fail_if (not (role_in (select_one (is_member ns u.id) db.namespace_members) == admin)) 403
      "Namespace admin permission required"
  fail_if (kind_of (select_one (λ (n : Namespace). n.name == ns) db.namespaces) == bytes "user") 403
      "Use repository memberships to share a personal namespace"
  target ←
      or_fail (select_one (λ (v : UserRow). v.username == username) db.users) 400
        "Provide an existing username and admin, write, or read role"
  fail_if (rank role == 0) 400 "Provide an existing username and admin, write, or read role"
  fail_if (target.id == u.id && not (role == admin)) 409
      "Cannot remove your own namespace admin role"
  ok (record db { namespace_members = upsert_member ns target.id role db.namespace_members })
