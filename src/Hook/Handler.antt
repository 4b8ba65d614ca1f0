-- ===== src/Hook/Handler.antt =====
-- gitHook as a whole: the guard on the caller, the phases, and what a push that it lets through does.
use gitclub.Base.{
  ℕ, ◌≡◌, ◌≤◌, ◌<◌, refl, Str, bytes, Bool, List, Option, none, some, arith, not, ◌&&◌,
  if◌then◌else◌, ◌==◌, str_keys, str_eq, length, All, Result, Check, ok, err, fail, >>=-eq-ok,
}
use gitclub.Schema.{Db, Repo, Identity}
use gitclub.Access.{Server, rank, role, repo}
use gitclub.Access.Guard.{row_of, repo-eq-ok}
use gitclub.Hook.{
  Update, Quarantine, check_quarantine, updates_of, check_updates_iff, pre_receive, post_receive,
  AllowedValue,
}

-- The result for a caller who may write; the database changes in the phase post-receive only.
unfoldable pub run_phase :
    Db
    → (Str → Str → Bool)
    → Str
    → Option Quarantine
    → Option Str
    → ℕ
    → Option (List (Option Update))
    → Repo
    → Check × Db
run_phase db is_ancestor phase quarantine observed now body r =
    if not (phase == bytes "pre-receive") && not (phase == bytes "post-receive")
    then (fail 404 "Git hook not found", db)
    else if phase == bytes "post-receive"
    then post_receive db r observed now body
    else (pre_receive is_ancestor r quarantine body, db)

-- gitHook
unfoldable pub git_hook :
    Server
    → Db
    → (Str → Str → Bool)
    → ℕ
    → Option Identity
    → Str
    → Option Quarantine
    → Option Str
    → ℕ
    → Option (List (Option Update))
    → Check × Db
git_hook s db is_ancestor rid u phase quarantine observed now body =
    elim (repo s db rid u (bytes "write")) [
      | err e ↦ (err e, db)
      | ok r ↦ run_phase db is_ancestor phase quarantine observed now body r
    ]

rank_write : rank (bytes "write") ≡ 2
unfolding rank str_eq
rank_write = refl

-- What is known of a push that the phase pre-receive lets through.
pub record Accepted (s : Server) (db : Db) (is_ancestor : Str → Str → Bool) (rid : ℕ)
    (u : Option Identity) (body : Option (List (Option Update))) : Type 0 where
  pub row : Repo
  pub updates : List (Option Update)
  pub stored : row_of db rid ≡ some row
  pub may_write : 2 ≤ rank (role s db row u)
  pub sent : body ≡ some updates
  pub some_update : 0 < length updates
  pub bounded : length updates ≤ 10000
  pub allowed : All (AllowedValue is_ancestor row) updates

updates_of-eq-ok :
    (body : Option (List (Option Update))) (us : List (Option Update))
    → updates_of body ≡ ok us
    → (body ≡ some us) × (0 < length us) × (length us ≤ 10000)
unfolding updates_of
updates_of-eq-ok none us h = cc
updates_of-eq-ok (some vs) us h = ground arith

module _ (s : Server) (db : Db) (is_ancestor : Str → Str → Bool) (rid : ℕ) (u : Option Identity)
    (quarantine : Option Quarantine) (observed : Option Str) (now : ℕ)
    (body : Option (List (Option Update))) where
  accepted :
      (r : Repo)
      → repo s db rid u (bytes "write") ≡ ok r
      → pre_receive is_ancestor r quarantine body ≡ ok tt
      → Accepted s db is_ancestor rid u body
  unfolding pre_receive
  accepted r h k =
      let (row, _, level) = (repo-eq-ok s db rid u (bytes "write") r).0 h in
      let (us, is_us, rest) = >>=-eq-ok (updates_of body) _ k in
      let (_, _, checked) = >>=-eq-ok (check_quarantine quarantine) _ rest in
      let (sent, pos, bound) = updates_of-eq-ok body us is_us in
      record {
        row = r;
        updates = us;
        stored = row;
        may_write = omega (arith, level, rank_write);
        sent = sent;
        some_update = pos;
        bounded = bound;
        allowed = (check_updates_iff is_ancestor r us).0 checked;
      }

  abbrev before : Result Repo → Check × Db
  before (err e) = (err e, db)
  before (ok r) = run_phase db is_ancestor (bytes "pre-receive") quarantine observed now body r

  -- A push that the hook's phase pre-receive lets through comes from a caller with write access to a
  -- stored repository, changes no row, and every one of its 1 to 10000 updates is allowed there.
  pub git_hook-Accepted :
      (git_hook s db is_ancestor rid u (bytes "pre-receive") quarantine observed now body).0 ≡ ok tt
      → Accepted s db is_ancestor rid u body
        × ((git_hook s db is_ancestor rid u (bytes "pre-receive") quarantine observed now body).1
            ≡ db)
  unfolding git_hook run_phase str_eq
  git_hook-Accepted = found (repo s db rid u (bytes "write")) refl
    where
      found :
          (o : Result Repo)
          → repo s db rid u (bytes "write") ≡ o
          → (before o).0 ≡ ok tt
          → Accepted s db is_ancestor rid u body × ((before o).1 ≡ db)
      found (err e) h k = cc
      found (ok r) h k = (accepted r h k, refl)
