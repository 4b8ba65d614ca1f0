-- ===== src/GitHttp.antt =====
-- The guards of gitHTTP in implementations/go/git.go, in front of the transfer itself.
use gitclub.Base.{
  ◌≡◌, ◌≤◌, ◌⊎◌, inl, inr, refl, subst, Str, bytes, Bool, true, false, not, ◌&&◌, ◌||◌, List, ◌∷◌,
  Option, none, some, arith, if◌then◌else◌, ◌==◌, nat_eq, str_keys, str_eq, has_suffix, trim_suffix,
  join, select_one, Result, ok, fail_if, fail_if-eq-ok, or_fail, >>=-eq-ok, ◌>>=◌, ◌>>◌,
}
use gitclub.Schema.{Db, Repo, Identity}
use gitclub.Access.{Server, rank, role, repo}
use gitclub.Access.Guard.{repo-eq-ok}
use gitclub.Ssh.{upload_pack, receive_pack}

-- The requests of git's HTTP protocol: tail is what follows the repository in the path.
unfoldable pub is_protocol : (method tail service : Str) → Bool
is_protocol method tail service =
    (method == bytes "GET"
      && (tail == bytes "info/refs" && (service == upload_pack || service == receive_pack)))
    || (method == bytes "POST" && (tail == upload_pack || tail == receive_pack))

unfoldable pub is_push : (tail service : Str) → Bool
is_push tail service = tail == receive_pack || service == receive_pack

abbrev pub push_role : Bool → Str
push_role push = if push then bytes "write" else bytes "read"

abbrev pub is_public : Option Repo → Bool
is_public none = false
is_public (some r) = r.visibility == bytes "public"

abbrev pub is_anonymous : Option Identity → Bool
is_anonymous none = true
is_anonymous (some u) = false

-- Whether the transfer is a push, and its repository.
unfoldable pub transfer_to :
    Server → Db → Option Identity → (method service owner name tail : Str) → Result (Bool × Repo)
transfer_to s db u method service owner name tail = do
  fail_if (not (is_protocol method tail service)) 404 "Git endpoint not found"
  found ←
      or_fail
        (select_one (λ (r : Repo). r.owner == owner && r.name == trim_suffix name (bytes ".git"))
          db.repositories)
        404 "Repository not found"
  fail_if
      (is_anonymous u
        && (is_push tail service
            || not (is_public (select_one (λ (r : Repo). r.id == found.id) db.repositories))))
      401 "Git credentials required; use your token as the password"
  r ← repo s db found.id u (push_role (is_push tail service))
  ok (is_push tail service, r)

-- gitHTTP up to the slots, on the segments of the path; none where the path is no repository's.
unfoldable pub transfer :
    Server
    → Db
    → Option Identity
    → (method service : Str) → List Str
    → Option (Result (Bool × Repo))
transfer s db u method service (owner ∷ name ∷ first ∷ rest) =
    if has_suffix name (bytes ".git")
    then some (transfer_to s db u method service owner name (join (first ∷ rest) b'/'))
    else none
transfer s db u method service _ = none

rank_read : rank (bytes "read") ≡ 1
unfolding rank str_eq
rank_read = refl

rank_write : rank (bytes "write") ≡ 2
unfolding rank str_eq
rank_write = refl

-- A transfer that is let through is a push of a signed-in user with the role of a writer, or a fetch of a
-- caller with some role.
pub transfer_to_lem :
    (s : Server) (db : Db) (u : Option Identity) (method service owner name tail : Str)
    (push : Bool) (r : Repo)
    → transfer_to s db u method service owner name tail ≡ ok (push, r)
    → ((push ≡ true) × (is_anonymous u ≡ false) × (2 ≤ rank (role s db r u)))
      ⊎ ((push ≡ false) × (1 ≤ rank (role s db r u)))
unfolding transfer_to
transfer_to_lem s db u method service owner name tail push r h =
    let (_, _, h1) = >>=-eq-ok (fail_if (not (is_protocol method tail service)) 404 _) _ h in
    let (found, _, h2) =
      >>=-eq-ok
        (or_fail
          (select_one (λ (x : Repo). x.owner == owner && x.name == trim_suffix name (bytes ".git"))
            db.repositories)
          404 _)
        _ h1 in
    let (_, named, h3) =
      >>=-eq-ok
        (fail_if
          (is_anonymous u
            && (is_push tail service
                || not (is_public (select_one (λ (x : Repo). x.id == found.id) db.repositories))))
          401 _)
        _ h2 in
    let (row, asked, h4) =
      >>=-eq-ok (repo s db found.id u (push_role (is_push tail service))) _ h3 in
    let kind : is_push tail service ≡ push = cc in
    let same : row ≡ r = cc in
    let (_, _, may) = (repo-eq-ok s db found.id u (push_role (is_push tail service)) row).0 asked in
    let enough : rank (push_role push) ≤ rank (role s db r u) =
      subst (λ b. rank (push_role b) ≤ rank (role s db r u)) kind
        (subst (λ x. rank (push_role (is_push tail service)) ≤ rank (role s db x u)) same may) in
    cases push (is_anonymous u) _
      (subst
        (λ b.
          (is_anonymous u
            && (b || not (is_public (select_one (λ (x : Repo). x.id == found.id) db.repositories))))
          ≡ false)
        kind (fail_if-eq-ok _ 401 _ named))
      enough
  where
    cases :
        (b a p : Bool)
        → (a && (b || p)) ≡ false
        → rank (push_role b) ≤ rank (role s db r u)
        → ((b ≡ true) × (a ≡ false) × (2 ≤ rank (role s db r u)))
          ⊎ ((b ≡ false) × (1 ≤ rank (role s db r u)))
    cases true true p e m = cc
    cases true false p e m = inl (refl, refl, omega (arith, rank_write, m))
    cases false a p e m = inr (refl, omega (arith, rank_read, m))
