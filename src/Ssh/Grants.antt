-- ===== src/Ssh/Grants.antt =====
-- What a grant to the SSH transport is worth, and for how long.
use gitclub.Base.{
  ℕ, ◌+◌, ◌≡◌, ◌≢◌, ◌≤◌, ◌<◌, ◌↔◌, ◌⊎◌, inl, inr, bytes, str_eq_iff, refl, sym, ap, subst, ◌∙◌, Str,
  true, false, [], Option, some, arith, ◌==◌, nat_eq, str_keys, str_eq, In, any, select_one,
  select_one-In, Result, ok, err, or_fail, or_fail-eq-ok, >>=-eq-ok, Bool-cases,
}
use gitclub.Schema.{Db, Repo, UserRow, Identity, Token, SshKey}
use gitclub.Access.{Server, rank, role, repo}
use gitclub.Access.Guard.{repo-eq-ok}
use gitclub.Sessions.Accounts.{identity}
use gitclub.Sessions.Tokens.{new_token, session_user, authenticate}
use gitclub.Sessions.Presenting.{with_token, with_bearer, new_token-eq-ok, authenticate-with_bearer}
use gitclub.Ssh.{
  upload_pack, receive_pack, is_operation, Parts, parse_command, Grant, has_path, role_for, of_id,
  admitted, expiring, granted, authorize,
}
use gitclub.Ssh.Expiry.{session_user-expiring}
use gitclub.Ssh.Command.{print_command, AreAllowed, parse_command_iff}

-- A stored repository has the owner and the name of a command, and r is the row of its identifier.
pub record IsNamed (db : Db) (p : Parts) (r : Repo) : Type 0 where
  pub found : Repo
  pub found_stored : In found db.repositories
  pub same_owner : found.owner ≡ p.owner
  pub same_name : found.name ≡ p.name
  pub same_id : r.id ≡ found.id

-- Who asked, and what for: the owner of the key, by a command that git prints, for the repository that
-- it names and that they may use that way.
pub record IsAdmitted (s : Server) (db : Db) (key_id : ℕ) (command : Str) (u : Identity) (p : Parts)
    (r : Repo) : Type 0 where
  pub key : SshKey
  pub owner : UserRow
  pub key_stored : In key db.ssh_keys
  pub of_key : key.id ≡ key_id
  pub found_owner : select_one (of_id key.user_id) db.users ≡ some owner
  pub same : u ≡ identity owner
  pub prints : command ≡ print_command p
  pub allowed : AreAllowed p
  pub stored : In r db.repositories
  pub named : IsNamed db p r
  -- a fetch wants some role, and a push the one of a writer
  pub may :
      ((p.operation ≡ upload_pack) × (1 ≤ rank (role s db r (some u))))
      ⊎ (2 ≤ rank (role s db r (some u)))

rank_read : rank (bytes "read") ≡ 1
unfolding rank str_eq
rank_read = refl

rank_write : rank (bytes "write") ≡ 2
unfolding rank str_eq
rank_write = refl

-- The role that an operation asks for.
role_for_cases :
    (p : Parts) (n : ℕ)
    → is_operation p.operation ≡ true
    → rank (role_for p) ≤ n
    → ((p.operation ≡ upload_pack) × (1 ≤ n)) ⊎ (2 ≤ n)
unfolding is_operation
role_for_cases p n known h = elim (Bool-cases (str_eq p.operation receive_pack)) [
  | inl t ↦ inr (omega (arith, rank_write, (rw t at h)))
  | inr t ↦ inl (
    (str_eq_iff p.operation upload_pack).0 (ground (arith, known, t)),
    omega (arith, rank_read, (rw t at h)),
  )
]

same_three :
    (u v : Identity) (p q : Parts) (r x : Repo)
    → ◌≡◌ {A = Result (Identity × Parts × Repo)} (ok (u, p, r)) (ok (v, q, x))
    → (u ≡ v) × (p ≡ q) × (r ≡ x)
same_three u v p q r x h = (cc, cc, cc)

admitted-IsAdmitted :
    (s : Server) (db : Db) (key_id : ℕ) (command : Str) (u : Identity) (p : Parts) (r : Repo)
    → admitted s db key_id command ≡ ok (u, p, r)
    → IsAdmitted s db key_id command u p r
unfolding admitted
admitted-IsAdmitted s db key_id command u p r h =
    let (key, k1, h1) =
      >>=-eq-ok (or_fail (select_one (λ (k : SshKey). k.id == key_id) db.ssh_keys) 403 _) _ h in
    let (v, k2, h2) = >>=-eq-ok (or_fail (select_one (of_id key.user_id) db.users) 403 _) _ h1 in
    let (q, k3, h3) = >>=-eq-ok (or_fail (parse_command command) 400 _) _ h2 in
    let (found, k4, h4) =
      >>=-eq-ok (or_fail (select_one (has_path q) db.repositories) 404 _) _ h3 in
    let (r', k5, h5) = >>=-eq-ok (repo s db found.id (some (identity v)) (role_for q)) _ h4 in
    let (eu, ep, er) = same_three (identity v) u q p r' r h5 in
    let (key_in, key_is) =
      select_one-In (λ (k : SshKey). k.id == key_id) db.ssh_keys key (or_fail-eq-ok _ 403 _ k1) in
    let (command_is, fine) =
      (parse_command_iff command q).0 (or_fail-eq-ok (parse_command command) 400 _ k3) in
    let (found_in, found_is) =
      select_one-In (has_path q) db.repositories found (or_fail-eq-ok _ 404 _ k4) in
    let (row, _, may) = (repo-eq-ok s db found.id (some (identity v)) (role_for q) r').0 k5 in
    record {
      key = key;
      owner = v;
      key_stored = key_in;
      of_key = ground (arith, key_is);
      found_owner = or_fail-eq-ok _ 403 _ k2;
      same = sym eu;
      prints = command_is ∙ ap print_command ep;
      allowed = subst AreAllowed ep fine;
      stored =
          subst (λ x. In x db.repositories) er
            (select_one-In (λ (x : Repo). x.id == found.id) db.repositories r' row).0;
      named = record {
        found = found;
        found_stored = found_in;
        same_owner = (str_eq_iff found.owner p.owner).0 (ground (arith, found_is, ep));
        same_name = (str_eq_iff found.name p.name).0 (ground (arith, found_is, ep));
        same_id =
            subst (λ (x : Repo). x.id ≡ found.id) er
              (ground
                (arith, (select_one-In (λ (x : Repo). x.id == found.id) db.repositories r' row).1));
      };
      may = role_for_cases p (rank (role s db r (some u))) (subst AreAllowed ep fine).0 (
          subst (λ x. rank (role_for p) ≤ rank (role s db x (some u))) er
            (subst (λ y. rank (role_for p) ≤ rank (role s db r' (some y))) eu
              (subst (λ z. rank (role_for z) ≤ rank (role s db r' (some (identity v)))) ep may)));
    }

granted-eq-ok :
    (hash : Str → Str) (u : Identity) (p : Parts) (r : Repo) (now : ℕ) (db : Db)
    (fresh : Option Str) (issued : ℕ) (g : Grant) (after : Db)
    → granted hash u p r now db (new_token hash db u.id fresh issued) ≡ (ok g, after)
    → (g.repo_id ≡ r.id)
      × (g.user_id ≡ u.id)
      × (g.operation ≡ p.operation)
      × (after ≡ expiring (hash g.token) (now + 180000) (with_token hash db u.id g.token issued))
      × (any (λ (k : Token). k.token_hash == hash g.token) db.tokens ≡ false)
granted-eq-ok hash u p r now db fresh issued g after h =
    made (new_token hash db u.id fresh issued) refl h
  where
    made :
        (x : Result (Str × Db))
        → new_token hash db u.id fresh issued ≡ x
        → granted hash u p r now db x ≡ (ok g, after)
        → (g.repo_id ≡ r.id)
          × (g.user_id ≡ u.id)
          × (g.operation ≡ p.operation)
          × (after
              ≡ expiring (hash g.token) (now + 180000) (with_token hash db u.id g.token issued))
          × (any (λ (k : Token). k.token_hash == hash g.token) db.tokens ≡ false)
    made (err e) q h' = absurd (cc (ap (λ (y : Result Grant × Db). y.0) h'))
    made (ok (t, mid)) q h' =
        let head : ◌≡◌ {A = Result Grant}
            (ok (record { repo_id = r.id; user_id = u.id; token = t; operation = p.operation }))
            (ok g) =
          ap (λ (y : Result Grant × Db). y.0) h' in
        let same : ◌≡◌ {A = Grant}
            (record { repo_id = r.id; user_id = u.id; token = t; operation = p.operation }) g =
          cc in
        let tail : expiring (hash t) (now + 180000) mid ≡ after =
          ap (λ (y : Result Grant × Db). y.1) h' in
        let (_, e, free) = new_token-eq-ok hash db u.id fresh issued t mid q in
        let et : t ≡ g.token = ap (λ (x : Grant). x.token) same in
        (
          ap (λ (x : Grant). x.repo_id) (sym same),
          ap (λ (x : Grant). x.user_id) (sym same),
          ap (λ (x : Grant). x.operation) (sym same),
          sym tail
              ∙ ap (expiring (hash t) (now + 180000)) e
              ∙ ap (λ x. expiring (hash x) (now + 180000) (with_token hash db u.id x issued)) et,
          subst (λ x. any (λ (k : Token). k.token_hash == hash x) db.tokens ≡ false) et free,
        )

-- A grant that is given with a token that is not empty is for the stored repository with the owner and
-- the name of the command, which the owner of the key may use that way, for a command that git prints,
-- and its token signs the owner of the key in up to three minutes from then and no longer.
pub authorize-IsAdmitted :
    (hash : Str → Str) (s : Server) (db : Db) (key_id : ℕ) (command : Str) (fresh : Option Str)
    (issued now : ℕ) (g : Grant) (after : Db) (at : ℕ)
    → authorize hash s db key_id command fresh issued now ≡ (ok g, after)
    → g.token ≢ []
    → (u : Identity) × (p : Parts) × (r : Repo) × IsAdmitted s db key_id command u p r
      × (g.repo_id ≡ r.id)
      × (g.operation ≡ p.operation)
      × (((authenticate hash after (with_bearer g.token) at).0 ≡ some u) ↔ (at < now + 180000))
unfolding authorize
authorize-IsAdmitted hash s db key_id command fresh issued now g after at h some_t =
    entered (admitted s db key_id command) refl h
  where
    entered :
        (x : Result (Identity × Parts × Repo))
        → admitted s db key_id command ≡ x
        → elim x as (λ _. Result Grant × Db) [
          | err e ↦ (err e, db)
          | ok (u, p, r) ↦ granted hash u p r now db (new_token hash db u.id fresh issued)
        ]
          ≡ (ok g, after)
        → (u : Identity) × (p : Parts) × (r : Repo) × IsAdmitted s db key_id command u p r
          × (g.repo_id ≡ r.id)
          × (g.operation ≡ p.operation)
          × (((authenticate hash after (with_bearer g.token) at).0 ≡ some u) ↔ (at < now + 180000))
    entered (err e) q h' = absurd (cc (ap (λ (y : Result Grant × Db). y.0) h'))
    entered (ok (u, p, r)) q h' =
        let a = admitted-IsAdmitted s db key_id command u p r q in
        let (same_repo, _, same_operation, e, free) =
          granted-eq-ok hash u p r now db fresh issued g after h' in
        let row : select_one (of_id u.id) db.users ≡ some a.owner =
          rw a.same (ap (λ i. select_one (of_id i) db.users) (owner_id a) ∙ a.found_owner) in
        let its =
          session_user-expiring hash db u.id g.token issued (now + 180000) at a.owner free row
            (omega arith) in
        let behind : Db =
          expiring (hash g.token) (now + 180000) (with_token hash db u.id g.token issued) in
        (
          u,
          p,
          r,
          a,
          same_repo,
          same_operation,
          subst
              (λ d.
                ((authenticate hash d (with_bearer g.token) at).0 ≡ some u) ↔ (at < now + 180000))
              (sym e)
              (subst (λ o. (o ≡ some u) ↔ (at < now + 180000))
                (sym (authenticate-with_bearer hash behind g.token at some_t))
                (subst (λ w. (session_user behind (hash g.token) at ≡ some w) ↔ (at < now + 180000))
                  (sym a.same) its)),
        )
      where
        owner_id : (a : IsAdmitted s db key_id command u p r) → a.owner.id ≡ a.key.user_id
        owner_id a =
            ground (arith, (select_one-In (of_id a.key.user_id) db.users a.owner a.found_owner).1)
