-- ===== src/Access/Roles.antt =====
-- The role of a user is the highest that visibility, the backup setting and the memberships give.
use gitclub.Base.{
  ℕ, ◌≤◌, ◌≡◌, ◌↔◌, ◌⊎◌, inl, inr, refl, Str, bytes, true, List, [], ◌∷◌, Option, none, some, arith,
  ◌==◌, str_keys, nat_eq, select, In, In-append_left, In-append_right, In-append_cases, column-In,
  In-column, str_eq_iff, Bool-cases, sym, ap, str_eq, str_eq_sound,
}
use gitclub.Schema.{Db, Repo, Identity, NamespaceMember, RepoMember}
use gitclub.Access.Levels.{
  Server, rank, is_backup_user, of_namespace, of_repository, namespace_roles, repo_roles, role_rows,
  best_role, own_role, role,
}

-- A reason for which a user has at least the rank k on a repository.
pub data Grants (s : Server) (db : Db) (r : Repo) (u : Option Identity) (k : ℕ) : Type 0 where
  by_visibility : r.visibility ≡ bytes "public" → k ≤ 1 → Grants s db r u k
  by_backup : is_backup_user s u ≡ true → k ≤ 1 → Grants s db r u k
  by_namespace :
      (v : Identity) (m : NamespaceMember)
      → u ≡ some v
      → In m db.namespace_members
      → m.namespace ≡ r.owner
      → m.user_id ≡ v.id
      → k ≤ rank m.role
      → Grants s db r u k
  by_repository :
      (v : Identity) (m : RepoMember)
      → u ≡ some v
      → In m db.repo_members
      → m.repo_id ≡ r.id
      → m.user_id ≡ v.id
      → k ≤ rank m.role
      → Grants s db r u k

pub rank_read : rank (bytes "read") ≡ 1
unfolding rank str_eq
rank_read = refl

rank-le-best : (best : Str) (rs : List Str) → rank best ≤ rank (best_role best rs)
unfolding best_role
rank-le-best best [] = omega arith
rank-le-best best (r ∷ rs) = ground (arith, rank-le-best best rs, rank-le-best r rs)

rank-le-best_of_In : (best r : Str) (rs : List Str) → In r rs → rank r ≤ rank (best_role best rs)
unfolding best_role
rank-le-best_of_In best r [] m = elim m [ ]
rank-le-best_of_In best r (q ∷ rs) (inl e) =
    ground (arith, ap rank e, rank-le-best best rs, rank-le-best q rs)
rank-le-best_of_In best r (q ∷ rs) (inr m) =
    ground (arith, rank-le-best_of_In best r rs m, rank-le-best_of_In q r rs m)

best_role-In : (best : Str) (rs : List Str) → (best_role best rs ≡ best) ⊎ In (best_role best rs) rs
unfolding best_role
best_role-In best [] = inl refl
best_role-In best (r ∷ rs) = ground (arith, best_role-In best rs, best_role-In r rs)

own_role-Grants :
    (s : Server) (db : Db) (r : Repo) (u : Option Identity) (k : ℕ)
    → 1 ≤ k
    → k ≤ rank (own_role s r u)
    → Grants s db r u k
unfolding own_role rank str_eq
own_role-Grants s db r u k pos h = elim (Bool-cases (r.visibility == bytes "public")) [
  | inl e ↦ by_visibility (str_eq_sound _ _ e) (ground arith)
  | inr e ↦ by_backup (ground arith) (ground arith)
]

row-Grants :
    (s : Server) (db : Db) (r : Repo) (v : Identity) (q : Str) (k : ℕ)
    → k ≤ rank q
    → In q (role_rows db r v.id)
    → Grants s db r (some v) k
unfolding role_rows select namespace_roles repo_roles
row-Grants s db r v q k h m =
    elim (In-append_cases q (namespace_roles db r v.id) (repo_roles db r v.id) m) [
      | inl n ↦
          let (a, a_in, t, e) =
            column-In (of_namespace r v.id) (λ m. m.role) q db.namespace_members n in
          by_namespace v a refl a_in (ground (arith, str_eq_sound a.namespace r.owner))
            (ground arith) (rw e h)
      | inr n ↦
          let (a, a_in, t, e) =
            column-In (of_repository r v.id) (λ m. m.role) q db.repo_members n in
          by_repository v a refl a_in (ground arith) (ground arith) (rw e h)
    ]

own-le-role :
    (s : Server) (db : Db) (r : Repo) (u : Option Identity)
    → rank (own_role s r u) ≤ rank (role s db r u)
unfolding role
own-le-role s db r none = omega arith
own-le-role s db r (some v) = rank-le-best _ _

member-le-role :
    (s : Server) (db : Db) (r : Repo) (v : Identity) (q : Str)
    → In q (role_rows db r v.id)
    → rank q ≤ rank (role s db r (some v))
unfolding role
member-le-role s db r v q m = rank-le-best_of_In _ q _ m

-- Each reason is enough.
role-of-Grants :
    (s : Server) (db : Db) (r : Repo) (u : Option Identity) (k : ℕ)
    → Grants s db r u k
    → k ≤ rank (role s db r u)
unfolding own_role role_rows namespace_roles repo_roles
role-of-Grants s db r u k (by_visibility e h) =
    ground (arith, own-le-role s db r u, rank_read, (str_eq_iff r.visibility (bytes "public")).1 e)
role-of-Grants s db r u k (by_backup e h) = ground (arith, own-le-role s db r u, rank_read)
role-of-Grants s db r u k (by_namespace v m e m_in ns uid h) = rw e (
    omega (
      arith,
      member-le-role s db r v m.role (
          In-append_left m.role _ _ (
            In-column (of_namespace r v.id) (λ m. m.role) m db.namespace_members m_in
              (ground (arith, (str_eq_iff m.namespace r.owner).1 ns)))),
    ))
role-of-Grants s db r u k (by_repository v m e m_in ns uid h) = rw e (
    omega (
      arith,
      member-le-role s db r v m.role (
          In-append_right m.role _ _
            (In-column (of_repository r v.id) (λ m. m.role) m db.repo_members m_in (ground arith))),
    ))

-- A user has rank k, at least 1, or more exactly if the visibility, the backup setting, or a membership
-- of the owner's namespace or of the repository gives it.
pub role-Grants :
    (s : Server) (db : Db) (r : Repo) (u : Option Identity) (k : ℕ)
    → 1 ≤ k
    → (k ≤ rank (role s db r u)) ↔ Grants s db r u k
unfolding role
role-Grants s db r u k pos = (only u, role-of-Grants s db r u k)
  where
    only : (u : Option Identity) → k ≤ rank (role s db r u) → Grants s db r u k
    only none h = own_role-Grants s db r none k pos h
    only (some v) h = elim (best_role-In (own_role s r (some v)) (role_rows db r v.id)) [
      | inl e ↦ own_role-Grants s db r (some v) k pos (rw (sym e) h)
      | inr m ↦ row-Grants s db r v _ k h m
    ]
