-- ===== src/Database/Migrations/Runs.antt =====
-- The steps of a run: one file, and what a whole run keeps.
use gitclub.Base.{
  ◌≡◌, ◌≢◌, ◌⊎◌, inl, inr, refl, sym, ap, ◌||◌, subst, Str, Bool, true, false, List, [], ◌∷◌,
  Option, none, some, arith, ◌==◌, str_keys, str_eq, str_eq_iff, str_eq_refl, any, Check, ok, err,
  ApiError, Bool-cases,
}
use gitclub.Database.Migrations.{
  File, Schema, version, Commit, committed, reply_lost, undone, Mishaps, calm, ended, apply,
  migrate_files,
}

abbrev pub has : Str → List Str → Bool
has v vs = any (λ x. x == v) vs

pub has_cons : (v w : Str) (vs : List Str) → has v vs ≡ true → has v (w ∷ vs) ≡ true
unfolding any
has_cons v w vs h = ground (arith, h)

pub has_own : (v : Str) (vs : List Str) → has v (v ∷ vs) ≡ true
unfolding any
has_own v vs = rw (str_eq_refl v) refl

pub has_other : (v w : Str) (vs : List Str) → w ≢ v → has v (w ∷ vs) ≡ true → has v vs ≡ true
unfolding any
has_other v w vs apart h = elim (Bool-cases (str_eq w v)) [
  | inl e ↦ absurd (apart ((str_eq_iff w v).0 e))
  | inr e ↦ ground (arith, e, h)
]

-- A file that was run, in a transaction with the row that records it.
pub record Ran {S : Type 0} (exec : Str → S → Option S) (v : Str) (file : Option Str)
    (st after : Schema S) : Type 0 where
  pub body : Str
  pub tables : S
  pub has_body : file ≡ some body
  pub made : exec body st.tables ≡ some tables
  pub is_new : has v st.versions ≡ false
  pub same : after ≡ record { tables = tables; versions = v ∷ st.versions }

module _ {S : Type 0} (exec : Str → S → Option S) where
  -- A file leaves the schema, and then it failed, or it was run.
  abbrev pub Outcome : Str → Option Str → Schema S → Check × Schema S → Type 0
  Outcome v file st r = ((r.1 ≡ st) × (r.0 ≢ ok tt)) ⊎ Ran exec v file st r.1

  pub apply-cases :
      (k : Mishaps) (v : Str) (file : Option Str) (st : Schema S)
      → Outcome v file st (apply exec k v file st)
  unfolding apply
  apply-cases k v file st = of_read (Bool-cases k.read_fails) file
    where
      of_commit :
          (c : Commit) (b : Option Str) (body : Str) (after : S)
          → b ≡ some body
          → exec body st.tables ≡ some after
          → has v st.versions ≡ false
          → Outcome v b st (ended c st (record { tables = after; versions = v ∷ st.versions }))
      of_commit committed b body after e m n =
          inr (record {
            body = body;
            tables = after;
            has_body = e;
            made = m;
            is_new = n;
            same = refl;
          })
      of_commit reply_lost b body after e m n =
          inr (record {
            body = body;
            tables = after;
            has_body = e;
            made = m;
            is_new = n;
            same = refl;
          })
      of_commit undone b body after e m n = inl (refl, λ q. cc)

      of_exec :
          (body : Str)
          → (o : Option S) → (exec body st.tables ≡ o)
          → (k.exec_fails ≡ true) ⊎ (k.exec_fails ≡ false)
          → (k.begin_fails ≡ true) ⊎ (k.begin_fails ≡ false)
          → (k.record_fails || has v st.versions ≡ true)
            ⊎ (k.record_fails || has v st.versions ≡ false)
          → k.read_fails ≡ false
          → Outcome v (some body) st (apply exec k v (some body) st)
      of_exec body o q x (inl b) n r = rw (apply, r, b) (inl (refl, λ z. cc))
      of_exec body o q (inl x) (inr b) n r = rw (apply, r, b, x) (inl (refl, λ z. cc))
      of_exec body none q (inr x) (inr b) n r = rw (apply, r, b, x, q) (inl (refl, λ z. cc))
      of_exec body (some after) q (inr x) (inr b) (inl n) r =
          rw (apply, r, b, x, q, n) (inl (refl, λ z. cc))
      of_exec body (some after) q (inr x) (inr b) (inr n) r =
          rw (apply, r, b, x, q, n)
            (of_commit k.commit (some body) body after refl q (ground (arith, n)))

      of_read :
          (k.read_fails ≡ true) ⊎ (k.read_fails ≡ false)
          → (b : Option Str) → Outcome v b st (apply exec k v b st)
      of_read (inl r) b = rw (apply, r) (inl (refl, λ z. cc))
      of_read (inr r) none = rw (apply, r) (inl (refl, λ z. cc))
      of_read (inr r) (some body) =
          of_exec body (exec body st.tables) refl (Bool-cases k.exec_fails)
            (Bool-cases k.begin_fails) (Bool-cases (k.record_fails || has v st.versions)) r

  pub apply-eq-ok :
      (k : Mishaps) (v : Str) (file : Option Str) (st : Schema S)
      → (apply exec k v file st).0 ≡ ok tt
      → Ran exec v file st (apply exec k v file st).1
  apply-eq-ok k v file st h = elim (apply-cases k v file st) [
    | inl (_, bad) ↦ absurd (bad h)
    | inr r ↦ r
  ]

  -- A file that was run is run where nothing goes wrong, with the same end.
  pub apply-calm :
      (v : Str) (file : Option Str) (st after : Schema S)
      → Ran exec v file st after
      → apply exec calm v file st ≡ (ok tt, after)
  unfolding apply
  apply-calm v file st after r =
      rw (r.has_body, apply, r.made, r.is_new) (ap (λ (x : Schema S). (ok tt, x)) (sym r.same))

  module _ (k : Str → Mishaps) (applied : List Str) (f : File) (files : List File)
      (st : Schema S) where
    pub skip_file :
        has (version f) applied ≡ true
        → migrate_files exec k applied (f ∷ files) st ≡ migrate_files exec k applied files st
    unfolding migrate_files
    skip_file h = rw h refl

    pub stop_file :
        (e : ApiError)
        → has (version f) applied ≡ false
        → (apply exec (k (version f)) (version f) f.body st).0 ≡ err e
        → migrate_files exec k applied (f ∷ files) st
          ≡ (err e, (apply exec (k (version f)) (version f) f.body st).1)
    unfolding migrate_files
    stop_file e h q = rw h (rw q (pair (apply exec (k (version f)) (version f) f.body st) q))
      where
        pair : (r : Check × Schema S) → r.0 ≡ err e → r ≡ (err e, r.1)
        pair (c, s) a = ap (λ (x : Check). (x, s)) a

    pub next_file :
        has (version f) applied ≡ false
        → (apply exec (k (version f)) (version f) f.body st).0 ≡ ok tt
        → migrate_files exec k applied (f ∷ files) st
          ≡ migrate_files exec k applied files (apply exec (k (version f)) (version f) f.body st).1
    unfolding migrate_files
    next_file h q = rw h (rw q refl)

  -- A property of the schema that every file that is run keeps, a run keeps.
  pub keeps :
      (P : Schema S → Type 0)
      → ((f : File) (st after : Schema S) → P st → Ran exec (version f) f.body st after → P after)
      → (k : Str → Mishaps) (applied : List Str) (files : List File) (st : Schema S) → P st
      → P (migrate_files exec k applied files st).1
  unfolding migrate_files
  keeps P one k applied [] st p = p
  keeps P one k applied (f ∷ files) st p = elim (Bool-cases (has (version f) applied)) [
    | inl t ↦ rw (skip_file k applied f files st t) (keeps P one k applied files st p)
    | inr t ↦
        outcome (λ s. keeps P one k applied files s) t
          (apply exec (k (version f)) (version f) f.body st).0 refl
  ]
    where
      behind : P (apply exec (k (version f)) (version f) f.body st).1
      behind = elim (apply-cases (k (version f)) (version f) f.body st) [
        | inl (same, _) ↦ subst P (sym same) p
        | inr r ↦ one f st (apply exec (k (version f)) (version f) f.body st).1 p r
      ]

      outcome :
          ((s : Schema S) → P s → P (migrate_files exec k applied files s).1)
          → has (version f) applied ≡ false
          → (c : Check) → (apply exec (k (version f)) (version f) f.body st).0 ≡ c
          → P (migrate_files exec k applied (f ∷ files) st).1
      outcome ih t (err e) q = rw (stop_file k applied f files st e t q) behind
      outcome ih t (ok _) q =
          rw (next_file k applied f files st t q)
            (ih (apply exec (k (version f)) (version f) f.body st).1 behind)

  pub grows :
      (v : Str) (k : Str → Mishaps) (applied : List Str) (files : List File) (st : Schema S)
      → has v st.versions ≡ true
      → has v (migrate_files exec k applied files st).1.versions ≡ true
  grows v =
      keeps (λ st. has v st.versions ≡ true)
        (λ f st after p r.
          subst (λ (s : Schema S). has v s.versions ≡ true) (sym r.same)
            (has_cons v (version f) st.versions p))
