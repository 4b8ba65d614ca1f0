-- ===== src/Namespaces/Admins.antt =====
-- No operation leaves a namespace without an admin.
use gitclub.Base.{
  ℕ, ◌≡◌, inl, inr, refl, sym, ap, subst, ◌∙◌, Str, bytes, Bool, true, false, not, ◌&&◌, List, ◌∷◌,
  Option, none, some, arith, ◌==◌, nat_eq, str_keys, str_eq, str_eq_iff, any, update, In, update-In,
  select_one, select_one-In, ok, fail_if, fail_if-eq-ok, or_fail, >>=-eq-ok, Bool-cases,
}
use gitclub.Schema.{Db, Identity, Namespace, NamespaceMember, UserRow}
use gitclub.Access.{rank}
use gitclub.Namespaces.{
  name_ok, require_user, admin, create_namespace, is_member, role_in, kind_of, upsert_member,
  set_member,
}

-- A membership that makes someone an admin of the namespace.
pub record HasAdmin (ms : List NamespaceMember) (name : Str) : Type 0 where
  pub member : NamespaceMember
  pub stored : In member ms
  pub of_name : member.namespace ≡ name
  pub is_admin : member.role ≡ admin

abbrev pub AllHaveAdmin : Db → Type 0
AllHaveAdmin db = (n : Namespace) → In n db.namespaces → HasAdmin db.namespace_members n.name

-- Where every namespace has an admin, every one has one behind a creation that succeeds.
pub create_namespace-AllHaveAdmin :
    (db : Db) (who : Option Identity) (name : Str) (after : Db)
    → AllHaveAdmin db
    → create_namespace db who name ≡ ok after
    → AllHaveAdmin after
unfolding create_namespace
create_namespace-AllHaveAdmin db who name after have h n n_in =
    let (u, _, h1) = >>=-eq-ok (require_user who) _ h in
    let (_, _, h2) = >>=-eq-ok (fail_if (not (name_ok name)) 400 _) _ h1 in
    let (_, _, h3) =
      >>=-eq-ok (fail_if (any (λ (x : Namespace). x.name == name) db.namespaces) 409 _) _ h2 in
    let made : NamespaceMember = record { namespace = name; user_id = u.id; role = admin } in
    let spaces : record { name = name; kind = bytes "organization" } ∷ db.namespaces
        ≡ after.namespaces =
      cc in
    let members : made ∷ db.namespace_members ≡ after.namespace_members = cc in
    subst (λ ms. HasAdmin ms n.name) members
      (elim (subst (In n) (sym spaces) n_in) [
        | inl e ↦ record {
          member = made;
          stored = inl refl;
          of_name = ap (λ (x : Namespace). x.name) e;
          is_admin = refl;
        }
        | inr old ↦
            let x = have n old in
            record {
              member = x.member;
              stored = inr x.stored;
              of_name = x.of_name;
              is_admin = x.is_admin;
            }
      ])

-- The row of m behind the upsert.
upsert_kept :
    (ns : Str) (uid : ℕ) (role : Str) (ms : List NamespaceMember) (m : NamespaceMember)
    → In m ms
    → (is_member ns uid m ≡ true → role ≡ admin)
    → m.role ≡ admin
    → HasAdmin (upsert_member ns uid role ms) m.namespace
unfolding upsert_member
upsert_kept ns uid role ms m m_in c a = elim (Bool-cases (any (is_member ns uid) ms)) [
  | inr f ↦ rw f (record { member = m; stored = inr m_in; of_name = refl; is_admin = a })
  | inl f ↦ rw f (elim (Bool-cases (is_member ns uid m)) [
    | inl t ↦ record {
      member = given m;
      stored =
          subst (λ x. In x (update (is_member ns uid) given ms)) (rw t)
            (update-In (is_member ns uid) given m ms m_in);
      of_name = refl;
      is_admin = c t;
    }
    | inr t ↦ record {
      member = m;
      stored =
          subst (λ x. In x (update (is_member ns uid) given ms)) (rw t)
            (update-In (is_member ns uid) given m ms m_in);
      of_name = refl;
      is_admin = a;
    }
  ])
]
  where
    given : NamespaceMember → NamespaceMember
    given x = record x { role = role }

-- The row that makes the caller an admin.
admin_row :
    (p : NamespaceMember → Bool) (ms : List NamespaceMember) (o : Option NamespaceMember)
    → select_one p ms ≡ o
    → not (role_in o == admin) ≡ false
    → (m : NamespaceMember) × In m ms × (p m ≡ true) × (m.role ≡ admin)
unfolding str_eq
admin_row p ms none e h = absurd (true_false h)
  where
    true_false : true ≡ false → ⊥
    true_false q = cc
admin_row p ms (some m) e h =
    let (m_in, t) = select_one-In p ms m e in
    (m, m_in, t, (str_eq_iff m.role admin).0 (ground arith))

-- The caller's own row keeps their namespace, and any admin's row another one.
upsert-HasAdmin :
    (ns role : Str) (target caller : ℕ) (ms : List NamespaceMember) (c : NamespaceMember)
    (name : Str)
    → In c ms
    → is_member ns caller c ≡ true
    → c.role ≡ admin
    → (target == caller && not (role == admin)) ≡ false
    → HasAdmin ms name
    → HasAdmin (upsert_member ns target role ms) name
upsert-HasAdmin ns role target caller ms c name c_in c_is c_admin kept x =
    elim (Bool-cases (name == ns)) [
      | inl t ↦
          let same : c.namespace ≡ name = sym_of (ground arith) t in
          subst (HasAdmin (upsert_member ns target role ms)) same (
            upsert_kept ns target role ms c c_in (λ q. (str_eq_iff role admin).0 (ground arith))
              c_admin)
      | inr t ↦ subst (HasAdmin (upsert_member ns target role ms)) x.of_name (
          upsert_kept ns target role ms x.member x.stored (λ q. absurd (apart (ground arith) t))
            x.is_admin)
    ]
  where
    sym_of : str_eq c.namespace ns ≡ true → str_eq name ns ≡ true → c.namespace ≡ name
    sym_of a b = (str_eq_iff c.namespace ns).0 a ∙ sym ((str_eq_iff name ns).0 b)

    apart : str_eq x.member.namespace ns ≡ true → str_eq name ns ≡ false → ⊥
    apart a b = cc (ap (λ y. str_eq y ns) x.of_name, a, b)

-- Where every namespace has an admin, every one has one behind a change of a member's role that
-- succeeds.
pub set_member-AllHaveAdmin :
    (db : Db) (who : Option Identity) (ns username role : Str) (after : Db)
    → AllHaveAdmin db
    → set_member db who ns username role ≡ ok after
    → AllHaveAdmin after
unfolding set_member
set_member-AllHaveAdmin db who ns username role after have h n n_in =
    let (u, _, h1) = >>=-eq-ok (require_user who) _ h in
    let (_, caller, h2) =
      >>=-eq-ok
        (fail_if (not (role_in (select_one (is_member ns u.id) db.namespace_members) == admin)) 403
          _)
        _ h1 in
    let (_, _, h3) =
      >>=-eq-ok
        (fail_if
          (kind_of (select_one (λ (x : Namespace). x.name == ns) db.namespaces) == bytes "user") 403
          _)
        _ h2 in
    let (target, _, h4) =
      >>=-eq-ok (or_fail (select_one (λ (v : UserRow). v.username == username) db.users) 400 _) _
        h3 in
    let (_, _, h5) = >>=-eq-ok (fail_if (rank role == 0) 400 _) _ h4 in
    let (_, self, h6) = >>=-eq-ok (fail_if (target.id == u.id && not (role == admin)) 409 _) _ h5 in
    let spaces : db.namespaces ≡ after.namespaces = cc in
    let members : upsert_member ns target.id role db.namespace_members ≡ after.namespace_members =
      cc in
    let kept_self = fail_if-eq-ok _ 409 _ self in
    let (c, c_in, c_is, c_admin) =
      admin_row (is_member ns u.id) db.namespace_members
        (select_one (is_member ns u.id) db.namespace_members) refl (fail_if-eq-ok _ 403 _ caller) in
    subst (λ ms. HasAdmin ms n.name) members
      (upsert-HasAdmin ns role target.id u.id db.namespace_members c n.name c_in c_is c_admin
        kept_self (have n (subst (In n) (sym spaces) n_in)))
