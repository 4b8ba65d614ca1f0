-- ===== src/Hook.antt =====
-- gitHook of implementations/go/git.go: what a push may do to the refs of a repository. The decoded
-- body, the file system's answers about the quarantine, and git merge-base are arguments.
pub mod Handler
use gitclub.Base.{
  ℕ, ◌++◌, ◌≡◌, ◌↔◌, inl, inr, refl, sym, subst, some_inj, ◌≤◌, ◌<◌, >>=-eq-ok, Str, bytes, Bool,
  true, false, not, ◌||◌, List, [], ◌∷◌, Option, none, some, arith, ltb, if◌then◌else◌, ◌==◌,
  nat_eq, str_keys, str_eq_iff, All, length, has_prefix, Result, Check, ok, err, fail, fail_if,
  ◌>>=◌, ◌>>◌, Bool-cases,
}
use gitclub.Schema.{Db, Repo}
use gitclub.Git.{oid_pattern}
use gitclub.StoredRefs.{is_null}
use gitclub.Freshness.{refresh}

pub record Update : Type 0 where
  pub old : Str
  pub new : Str
  pub ref : Str

-- What the file system says of the named quarantine directory; none is an error.
pub record Quarantine : Type 0 where
  pub base_name : Str
  pub real_parent : Option Str
  pub real_objects : Option Str
  pub is_symlink : Option Bool

abbrev pub same_place : Option Str → Option Str → Option Bool → Bool
same_place (some parent) (some objects) (some false) = parent == objects
same_place _ _ _ = false

-- none: no quarantine path was sent.
unfoldable pub check_quarantine : Option Quarantine → Check
check_quarantine none = ok tt
check_quarantine (some q) = do
  fail_if (not (has_prefix q.base_name (bytes "tmp_objdir-incoming-"))) 400
      "Invalid quarantine directory"
  fail_if (not (same_place q.real_parent q.real_objects q.is_symlink)) 400
      "Invalid quarantine directory"

abbrev pub default_ref : Repo → Str
default_ref repo = bytes "refs/heads/" ++ repo.default_branch

-- The checks on an update of the default branch that exists already.
unfoldable pub check_default : (Str → Str → Bool) → Repo → Update → Check
check_default is_ancestor repo up = do
  fail_if (is_null up.new) 403 "Default branch cannot be deleted"
  fail_if repo.require_review 403 "Default branch requires a reviewed pull request"
  fail_if (not (is_ancestor up.old up.new)) 403 "Default branch only accepts fast-forward updates"

-- One round of the loop; none is a value that is no object.
unfoldable pub check_update : (Str → Str → Bool) → Repo → Option Update → Check
check_update is_ancestor repo none = fail 400 "Invalid ref update"
check_update is_ancestor repo (some up) = do
  fail_if
      (not (oid_pattern up.old)
        || (not (oid_pattern up.new) || not (has_prefix up.ref (bytes "refs/"))))
      400 "Invalid ref update"
  fail_if (has_prefix up.ref (bytes "refs/gitclub/")) 403
      "GitClub internal references cannot be pushed"
  if not (up.ref == default_ref repo) || is_null up.old
      then ok tt
      else check_default is_ancestor repo up

unfoldable pub check_updates : (Str → Str → Bool) → Repo → List (Option Update) → Check
check_updates is_ancestor repo [] = ok tt
check_updates is_ancestor repo (u ∷ us) = do
  check_update is_ancestor repo u
  check_updates is_ancestor repo us

-- updates is none if the body has no list under that key.
unfoldable pub updates_of : Option (List (Option Update)) → Result (List (Option Update))
updates_of none = fail 400 "Updates are required"
updates_of (some us) =
    if length us == 0 || ltb 10000 (length us) then fail 400 "Updates are required" else ok us

-- The pre-receive phase, behind the guard on the caller's role.
unfoldable pub pre_receive :
    (Str → Str → Bool) → Repo → Option Quarantine → Option (List (Option Update)) → Check
pre_receive is_ancestor repo quarantine body = do
  us ← updates_of body
  check_quarantine quarantine
  check_updates is_ancestor repo us

-- The post-receive phase.
unfoldable pub post_receive :
    Db → Repo → Option Str → ℕ → Option (List (Option Update)) → Check × Db
post_receive db repo observed now body = elim (updates_of body) [
  | ok us ↦ (ok tt, (refresh db repo observed now).0)
  | err e ↦ (err e, db)
]

-- What the hook promises of one update.
pub record Allowed (is_ancestor : Str → Str → Bool) (repo : Repo) (up : Update) : Type 0 where
  pub old_oid : oid_pattern up.old ≡ true
  pub new_oid : oid_pattern up.new ≡ true
  pub is_ref : has_prefix up.ref (bytes "refs/") ≡ true
  pub not_internal : has_prefix up.ref (bytes "refs/gitclub/") ≡ false
  -- an existing default branch is never deleted or rewound, and moves only without required review
  pub fast_forward :
      up.ref ≡ default_ref repo
      → is_null up.old ≡ false
      → (is_null up.new ≡ false)
        × (repo.require_review ≡ false)
        × (is_ancestor up.old up.new ≡ true)

abbrev pub AllowedValue : (Str → Str → Bool) → Repo → Option Update → Type 0
AllowedValue is_ancestor repo u = (up : Update) × (u ≡ some up) × Allowed is_ancestor repo up

module _ (is_ancestor : Str → Str → Bool) (repo : Repo) where
  update_ok :
      (up : Update) → check_update is_ancestor repo (some up) ≡ ok tt → Allowed is_ancestor repo up
  unfolding check_update check_default
  update_ok up h = record {
    old_oid = ground arith;
    new_oid = ground arith;
    is_ref = ground arith;
    not_internal = ground arith;
    fast_forward = λ e n. ground (arith, (str_eq_iff up.ref (default_ref repo)).1 e);
  }

  ok_update :
      (up : Update) → Allowed is_ancestor repo up → check_update is_ancestor repo (some up) ≡ ok tt
  unfolding check_update check_default
  ok_update up a = elim (Bool-cases (up.ref == default_ref repo)) [
    | inr t ↦ rw (a.old_oid, a.new_oid, a.is_ref, a.not_internal, t)
    | inl t ↦ elim (Bool-cases (is_null up.old)) [
      | inl n ↦ rw (a.old_oid, a.new_oid, a.is_ref, a.not_internal, t, n)
      | inr n ↦
          let (kept, free, ff) = a.fast_forward ((str_eq_iff up.ref (default_ref repo)).0 t) n in
          rw (a.old_oid, a.new_oid, a.is_ref, a.not_internal, t, n, kept, free, ff)
    ]
  ]

  check_update_iff :
      (u : Option Update)
      → (check_update is_ancestor repo u ≡ ok tt) ↔ AllowedValue is_ancestor repo u
  check_update_iff none = (λ h. unfold check_update in cc, λ (up, e, a). cc)
  check_update_iff (some up) = (
    λ h. (up, refl, update_ok up h),
    λ (v, e, a). ok_update up (subst (Allowed is_ancestor repo) (some_inj (sym e)) a),
  )

  check_updates_iff :
      (us : List (Option Update))
      → (check_updates is_ancestor repo us ≡ ok tt) ↔ All (AllowedValue is_ancestor repo) us
  unfolding check_updates
  check_updates_iff [] = (λ h. tt, λ h. refl)
  check_updates_iff (u ∷ us) = (
    λ h.
        let (x, e, rest) = >>=-eq-ok (check_update is_ancestor repo u) _ h in
        ((check_update_iff u).0 e, (check_updates_iff us).0 rest),
    λ (a, as_). rw ((check_update_iff u).1 a) ((check_updates_iff us).1 as_),
  )

  accept :
      (us : List (Option Update))
      → 0 < length us
      → length us ≤ 10000
      → check_updates is_ancestor repo us ≡ ok tt
      → pre_receive is_ancestor repo none (some us) ≡ ok tt
  unfolding pre_receive updates_of check_quarantine
  accept us pos l h = ground arith

  passed :
      (body : Option (List (Option Update)))
      → pre_receive is_ancestor repo none body ≡ ok tt
      → (us : List (Option Update)) × (body ≡ some us)
        × (0 < length us)
        × (length us ≤ 10000)
        × All (AllowedValue is_ancestor repo) us
  unfolding pre_receive updates_of check_quarantine
  passed none h = cc
  passed (some us) h =
      (us, refl, ground arith, ground arith, (check_updates_iff us).0 (ground arith))

  -- Without a quarantine the hook lets a push through exactly if it has between 1 and 10000 updates
  -- and every one is allowed: well formed, outside refs/gitclub/, and no deletion, no rewind and, under
  -- required review, no move at all of an existing default branch.
  pub pre_receive_iff :
      (body : Option (List (Option Update)))
      → (pre_receive is_ancestor repo none body ≡ ok tt) ↔ (
          (us : List (Option Update)) × (body ≡ some us)
          × (0 < length us)
          × (length us ≤ 10000)
          × All (AllowedValue is_ancestor repo) us)
  pre_receive_iff body = (
    passed body,
    λ (us, e, pos, l, a).
        subst (λ b. pre_receive is_ancestor repo none b ≡ ok tt) (sym e)
          (accept us pos l ((check_updates_iff us).1 a)),
  )
