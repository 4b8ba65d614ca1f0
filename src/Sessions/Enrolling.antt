-- ===== src/Sessions/Enrolling.antt =====
-- What register and login keep, and what they mean for each other.
use gitclub.Base.{
  ℕ, suc, ◌≡◌, ◌<◌, ◌⊎◌, inl, inr, refl, sym, ap, subst, ◌∙◌, Str, false, not, ◌||◌, List, ◌∷◌,
  Option, some, arith, ltb, ◌==◌, nat_eq, str_keys, str_eq_iff, length, any, In, In-any, Result, ok,
  err, fail_if, fail_if-eq-ok, or_fail, or_fail-eq-ok, >>=-eq-ok,
}
use gitclub.Schema.{Db, UserRow, Identity, Namespace, NamespaceMember}
use gitclub.Access.{named}
use gitclub.Namespaces.{name_ok, admin}
use gitclub.Namespaces.Admins.{AllHaveAdmin}
use gitclub.Sessions.Passwords.{Kdf, password_hash}
use gitclub.Sessions.Tokens.{new_token}
use gitclub.Sessions.Presenting.{new_token-eq-ok}
use gitclub.Sessions.Accounts.{identity, account_row, with_account, enroll, signed_in, register}

-- Each account has its own name and identifier, and identifiers are given out in order.
abbrev pub AreUnique : List UserRow → Type 0
AreUnique us =
    (v w : UserRow) → In v us → In w us → (v.username ≡ w.username) ⊎ (v.id ≡ w.id) → v ≡ w

abbrev pub AreBelow : ℕ → List UserRow → Type 0
AreBelow n us = (v : UserRow) → In v us → v.id < n

abbrev pub Accounts : Db → Type 0
Accounts db = AreUnique db.users × AreBelow db.next_user db.users × AllHaveAdmin db

module _ (kdf : Kdf) (hash : Str → Str) (db : Db) (username password : Str) where
  pub enroll-eq-ok :
      (salt : Option Str) (stamp : ℕ) (u : Identity) (after : Db)
      → enroll kdf db username password salt stamp ≡ ok (u, after)
      → (h : Str) × (password_hash kdf salt password ≡ some h)
        × (any (named username) db.users ≡ false)
        × (u ≡ identity (account_row db username h stamp))
        × (after ≡ with_account db username h stamp)
  unfolding enroll
  enroll-eq-ok salt stamp u after q =
      let (_, _, q1) =
        >>=-eq-ok
          (fail_if
            (not (name_ok username) || (ltb (length password) 12 || ltb 256 (length password))) 400
            _)
          _ q in
      let (h, made, q2) = >>=-eq-ok (or_fail (password_hash kdf salt password) 500 _) _ q1 in
      let (_, free, q3) = >>=-eq-ok (fail_if (any (named username) db.users) 409 _) _ q2 in
      let (_, _, q4) =
        >>=-eq-ok (fail_if (any (λ (n : Namespace). n.name == username) db.namespaces) 409 _) _
          q3 in
      (
        h,
        or_fail-eq-ok (password_hash kdf salt password) 500 _ made,
        fail_if-eq-ok _ 409 _ free,
        cc,
        cc,
      )

  with_account-Accounts :
      (h : Str) (stamp : ℕ)
      → Accounts db
      → any (named username) db.users ≡ false
      → Accounts (with_account db username h stamp)
  with_account-Accounts h stamp (unique, below, admins) free = (apart, under, manned)
    where
      row : UserRow
      row = account_row db username h stamp

      other : (w : UserRow) → In w db.users → (username ≡ w.username) ⊎ (db.next_user ≡ w.id) → ⊥
      other w w_in (inl e) =
          cc (
            free,
            In-any (named username) db.users w_in ((str_eq_iff w.username username).1 (sym e)),
          )
      other w w_in (inr e) = omega (arith, e, below w w_in)

      swap :
          (v w : UserRow)
          → (v.username ≡ w.username) ⊎ (v.id ≡ w.id)
          → (w.username ≡ v.username) ⊎ (w.id ≡ v.id)
      swap v w (inl e) = inl (sym e)
      swap v w (inr e) = inr (sym e)

      onto :
          (v w : UserRow)
          → row ≡ v
          → (v.username ≡ w.username) ⊎ (v.id ≡ w.id)
          → (username ≡ w.username) ⊎ (db.next_user ≡ w.id)
      onto v w a =
          subst
            (λ (x : UserRow).
              (x.username ≡ w.username) ⊎ (x.id ≡ w.id)
              → (username ≡ w.username) ⊎ (db.next_user ≡ w.id))
            a (λ e. e)

      apart : AreUnique (row ∷ db.users)
      apart v w (inl a) (inl b) e = sym a ∙ b
      apart v w (inl a) (inr n) e = absurd (other w n (onto v w a e))
      apart v w (inr m) (inl b) e = absurd (other v m (onto w v b (swap v w e)))
      apart v w (inr m) (inr n) e = unique v w m n e

      under : AreBelow (suc db.next_user) (row ∷ db.users)
      under v (inl a) = omega (arith, ap (λ (x : UserRow). x.id) a)
      under v (inr m) = omega (arith, below v m)

      own : NamespaceMember
      own = record { namespace = username; user_id = db.next_user; role = admin }

      manned : AllHaveAdmin (with_account db username h stamp)
      manned n (inl e) = record {
        member = own;
        stored = inl refl;
        of_name = ap (λ (x : Namespace). x.name) e;
        is_admin = refl;
      }
      manned n (inr m) =
          let x = admins n m in
          record {
            member = x.member;
            stored = inr x.stored;
            of_name = x.of_name;
            is_admin = x.is_admin;
          }

  signed_in-Accounts :
      (u : Identity) (before : Db) (uid : ℕ) (token : Option Str) (now : ℕ)
      → Accounts before
      → Accounts (signed_in u before (new_token hash before uid token now)).1
  signed_in-Accounts u before uid token now have = result (new_token hash before uid token now) refl
    where
      result :
          (r : Result (Str × Db))
          → new_token hash before uid token now ≡ r
          → Accounts (signed_in u before r).1
      result (err problem) e = have
      result (ok (t, after)) e = rw (new_token-eq-ok hash before uid token now t after e).1 have

  -- Whatever becomes of a registration, distinct accounts keep distinct names and identifiers, below
  -- the next one to be given, and every namespace keeps an admin.
  pub register-Accounts :
      (salt token : Option Str) (stamp now : ℕ)
      → Accounts db
      → Accounts (register kdf hash db username password salt token stamp now).1
  unfolding register
  register-Accounts salt token stamp now have =
      result (enroll kdf db username password salt stamp) refl
    where
      result :
          (r : Result (Identity × Db))
          → enroll kdf db username password salt stamp ≡ r
          → Accounts
              (elim r as (λ _. Result (Identity × Str) × Db) [
                | err problem ↦ (err problem, db)
                | ok (u, after) ↦ signed_in u after (new_token hash after u.id token now)
              ]).1
      result (err problem) e = have
      result (ok (u, after)) e =
          let (h, _, free, _, same) = enroll-eq-ok salt stamp u after e in
          signed_in-Accounts u after u.id token now
            (rw same (with_account-Accounts h stamp have free))
