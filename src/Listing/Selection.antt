-- ===== src/Listing/Selection.antt =====
-- Which repositories GET /repositories selects, and what a refresh leaves of what the selection reads.
use gitclub.Base.{
  ℕ, ◌≡◌, ◌<◌, ◌⊎◌, ◌↔◌, inl, inr, refl, Str, Bool, true, not, ◌&&◌, ◌||◌, [], ◌∷◌, Option, none,
  some, arith, ◌==◌, nat_eq, str_eq_iff, str_keys, length, contains, In, In-any, any-In,
}
use gitclub.Schema.{Db, Repo, GroupRepo, Identity}
use gitclub.Access.{Server, rank, role, role_rows, namespace_roles, repo_roles}
use gitclub.Freshness.{refresh, store_tip}
use gitclub.Listing.{Query, in_group, searched, selected}

-- A repository that the caller may read and that the query asks for: by its owner, a text in it, and a
-- group, where the query names one.
pub record Suits (s : Server) (db : Db) (u : Option Identity) (query : Query) (r : Repo)
    : Type 0 where
  pub readable : 0 < rank (role s db r u)
  pub of_owner : (query.owner ≡ []) ⊎ (r.owner ≡ query.owner)
  pub with_text : (query.q ≡ []) ⊎ (contains (searched r) query.q ≡ true)
  pub grouped :
      (g : ℕ)
      → query.group ≡ some g
      → (l : GroupRepo) × In l db.group_repos × (l.group_id ≡ g) × (l.repo_id ≡ r.id)

in_group_iff :
    (db : Db) (o : Option ℕ) (r : Repo)
    → (in_group db o r ≡ true) ↔ (
        (g : ℕ)
        → o ≡ some g
        → (l : GroupRepo) × In l db.group_repos × (l.group_id ≡ g) × (l.repo_id ≡ r.id))
unfolding in_group
in_group_iff db none r = (λ h g e. cc, λ h. refl)
in_group_iff db (some k) r = (
  λ h g e.
      let (l, m, q) =
        any-In (λ (x : GroupRepo). x.group_id == k && x.repo_id == r.id) db.group_repos h in
      let same : k ≡ g = cc in (l, m, ground (arith, q, same), ground (arith, q)),
  λ h.
      let (l, m, a, b) = h k refl in
      In-any (λ (x : GroupRepo). x.group_id == k && x.repo_id == r.id) db.group_repos m
        (ground (arith, a, b)),
)

none_or :
    (s : Str) (P : Type 0) (b : Bool) → (b ≡ true → P) → (length s == 0 || b) ≡ true → (s ≡ []) ⊎ P
none_or [] P b f h = inl refl
none_or (c ∷ s) P b f h = inr (f (ground (arith, h)))

or_none :
    (s : Str) (P : Type 0) (b : Bool) → (P → b ≡ true) → (s ≡ []) ⊎ P → (length s == 0 || b) ≡ true
or_none [] P b f h = refl
or_none (c ∷ s) P b f (inl e) = cc
or_none (c ∷ s) P b f (inr p) = ground (arith, f p)

pub selected_iff :
    (s : Server) (db : Db) (u : Option Identity) (query : Query) (r : Repo)
    → (selected s db u query r ≡ true) ↔ Suits s db u query r
unfolding selected
selected_iff s db u query r = (
  λ h. record {
    readable = ground (arith, h);
    of_owner =
        none_or query.owner (r.owner ≡ query.owner) (r.owner == query.owner)
          (str_eq_iff r.owner query.owner).0 (ground (arith, h));
    with_text =
        none_or query.q (contains (searched r) query.q ≡ true) (contains (searched r) query.q)
          (λ e. e) (ground (arith, h));
    grouped = (in_group_iff db query.group r).0 (ground (arith, h));
  },
  λ k.
      all_four _ _ _ _ (ground (arith, k.readable))
        (or_none query.owner (r.owner ≡ query.owner) (r.owner == query.owner)
          (str_eq_iff r.owner query.owner).1 k.of_owner)
        (or_none query.q (contains (searched r) query.q ≡ true) (contains (searched r) query.q)
          (λ e. e) k.with_text)
        ((in_group_iff db query.group r).1 k.grouped),
)
  where
    all_four :
        (a b c d : Bool)
        → not a ≡ true
        → b ≡ true
        → c ≡ true
        → d ≡ true
        → (not a && (b && (c && d))) ≡ true
    all_four x y z w = ground (arith, x, y, z, w)

pub refresh-id : (db : Db) (r : Repo) (o : Option Str) (now : ℕ) → (refresh db r o now).1.id ≡ r.id
unfolding refresh
refresh-id db r o now = ground arith

namespace_members-refresh :
    (db : Db) (r : Repo) (o : Option Str) (now : ℕ)
    → (refresh db r o now).0.namespace_members ≡ db.namespace_members
unfolding refresh store_tip
namespace_members-refresh db r o now = ground arith

repo_members-refresh :
    (db : Db) (r : Repo) (o : Option Str) (now : ℕ)
    → (refresh db r o now).0.repo_members ≡ db.repo_members
unfolding refresh store_tip
repo_members-refresh db r o now = ground arith

pub role-refresh :
    (s : Server) (db : Db) (r : Repo) (o : Option Str) (now : ℕ) (x : Repo) (u : Option Identity)
    → role s (refresh db r o now).0 x u ≡ role s db x u
unfolding role role_rows namespace_roles repo_roles
role-refresh s db r o now x none = refl
role-refresh s db r o now x (some v) =
    rw (namespace_members-refresh db r o now, repo_members-refresh db r o now)

pub pins-refresh :
    (db : Db) (r : Repo) (o : Option Str) (now : ℕ) → (refresh db r o now).0.pins ≡ db.pins
unfolding refresh store_tip
pins-refresh db r o now = ground arith

pub group_repos-refresh :
    (db : Db) (r : Repo) (o : Option Str) (now : ℕ)
    → (refresh db r o now).0.group_repos ≡ db.group_repos
unfolding refresh store_tip
group_repos-refresh db r o now = ground arith
