-- ===== src/StoredRefs/Chain.antt =====
-- defaultOID follows the chain of symbolic refs that the files hold, and finds its one end.
use gitclub.Base.{
  ℕ, zero, suc, ◌≡◌, ◌<◌, ◌↔◌, refl, ap, subst, ◌∙◌, Str, bytes, Bool, true, false, List, [], ◌∷◌,
  ◌++◌, Option, some, arith, ◌==◌, nat_eq, str_keys, some_inj, any, Bool-cases, All, inl, inr,
  str_eq_sound,
}
use gitclub.Schema.{Repo}
use gitclub.StoredRefs.{
  Files, safe_stored_ref, Read, not_exist, failed, contents, bounded_ref_file, packed_oid, Value,
  symbolic, object, invalid, loose_value, read_value, round, blocked, follow, default_oid,
}

-- The chain from a ref to an object, with the number of symbolic refs on the way.
pub data Names (files : Files) : ℕ → Str → Str → Type 0 where
  by_object :
      {ref oid : Str} (raw : Str)
      → safe_stored_ref ref ≡ true
      → bounded_ref_file (files.entry ref) 1024 ≡ contents raw
      → loose_value raw ≡ object oid
      → Names files zero ref oid
  by_packed :
      {ref oid : Str}
      → safe_stored_ref ref ≡ true
      → bounded_ref_file (files.entry ref) 1024 ≡ not_exist
      → packed_oid files ref ≡ some oid
      → Names files zero ref oid
  by_symbolic :
      {k : ℕ} {ref oid : Str} (raw target : Str)
      → safe_stored_ref ref ≡ true
      → bounded_ref_file (files.entry ref) 1024 ≡ contents raw
      → loose_value raw ≡ symbolic target
      → Names files k target oid
      → Names files (suc k) ref oid

abbrev pub NamesWithin : Files → ℕ → Str → Str → Type 0
NamesWithin files n ref oid = (k : ℕ) × (k < n) × Names files k ref oid

module _ (files : Files) where
  value-Names :
      (n : ℕ) (ref oid raw : Str) (rest : Str → Option Str)
      → ((t : Str) → rest t ≡ some oid → NamesWithin files n t oid)
      → safe_stored_ref ref ≡ true
      → bounded_ref_file (files.entry ref) 1024 ≡ contents raw
      → (v : Value) → loose_value raw ≡ v
      → read_value rest v ≡ some oid
      → NamesWithin files (suc n) ref oid
  unfolding read_value
  value-Names n ref oid raw rest ih safe read (symbolic target) e h =
      let (k, l, c) = ih target h in (suc k, omega arith, by_symbolic raw target safe read e c)
  value-Names n ref oid raw rest ih safe read (object o) e h =
      (zero, omega arith, by_object raw safe read (e ∙ ap object (some_inj h)))
  value-Names n ref oid raw rest ih safe read invalid e h = cc

  round-Names :
      (n : ℕ) (ref oid : Str) (seen : List Str) (rest : Str → Option Str)
      → ((t : Str) → rest t ≡ some oid → NamesWithin files n t oid)
      → (b : Bool) → blocked files ref seen ≡ b
      → (r : Read) → bounded_ref_file (files.entry ref) 1024 ≡ r
      → round files ref rest b r ≡ some oid
      → NamesWithin files (suc n) ref oid
  unfolding round
  round-Names n ref oid seen rest ih true e r f h = cc
  round-Names n ref oid seen rest ih false e not_exist f h =
      (zero, omega arith, by_packed (ground arith) f h)
  round-Names n ref oid seen rest ih false e failed f h = cc
  round-Names n ref oid seen rest ih false e (contents raw) f h =
      value-Names n ref oid raw rest ih (ground arith) f (loose_value raw) refl h

  follow-Names :
      (n : ℕ) (ref : Str) (seen : List Str) (oid : Str)
      → follow files n ref seen ≡ some oid
      → NamesWithin files n ref oid
  unfolding follow
  follow-Names zero ref seen oid h = cc
  follow-Names (suc n) ref seen oid h =
      round-Names n ref oid seen _ (λ t. follow-Names n t (ref ∷ seen) oid) (blocked files ref seen)
        refl _ refl h

  same_target :
      (raw raw' t t' : Str)
      → raw ≡ raw'
      → loose_value raw ≡ symbolic t
      → loose_value raw' ≡ symbolic t'
      → t' ≡ t
  same_target raw raw' t t' e v v' = cc (ap loose_value e)

  -- The chain is determined by its start.
  Names-unique :
      (j k : ℕ) (ref a b : Str) → Names files j ref a → Names files k ref b → (j ≡ k) × (a ≡ b)
  Names-unique j k ref a b (by_object raw s r v) (by_object raw' s' r' v') = (refl, cc)
  Names-unique j k ref a b (by_object raw s r v) (by_packed s' r' p') = cc
  Names-unique j k ref a b (by_object raw s r v) (by_symbolic raw' t' s' r' v' c') = cc
  Names-unique j k ref a b (by_packed s r p) (by_object raw' s' r' v') = cc
  Names-unique j k ref a b (by_packed s r p) (by_packed s' r' p') = (refl, cc)
  Names-unique j k ref a b (by_packed s r p) (by_symbolic raw' t' s' r' v' c') = cc
  Names-unique j k ref a b (by_symbolic raw t s r v c) (by_object raw' s' r' v') = cc
  Names-unique j k ref a b (by_symbolic raw t s r v c) (by_packed s' r' p') = cc
  Names-unique j k ref a b (by_symbolic raw t s r v c) (by_symbolic {k = i} raw' t' s' r' v' c') =
      let e : t' ≡ t = same_target raw raw' t t' (cc) v v' in
      let (same, q) = Names-unique _ i t a b c (subst (λ x. Names files i x b) e c') in
      (ap suc same, q)

-- Nothing under the repository's refs is a link, and lstat works.
abbrev pub IsPlain : Files → Type 0
IsPlain files = (ref : Str) → (files.is_symlink ref ≡ false) × (files.lstat_fails ref ≡ false)

module _ (files : Files) (plain : IsPlain files) where
  abbrev Deeper : ℕ → Str → Str → Type 0
  Deeper k oid s = (j : ℕ) × (k < j) × Names files j s oid

  -- A ref of a chain that ends is not met twice.
  unseen :
      (k : ℕ) (ref oid : Str) (seen : List Str)
      → Names files k ref oid
      → All (Deeper k oid) seen
      → any (λ r. r == ref) seen ≡ false
  unfolding any
  unseen k ref oid [] c d = refl
  unseen k ref oid (s ∷ seen) c ((j, l, c'), ds) = elim (Bool-cases (s == ref)) [
    | inl t ↦
        let e : s ≡ ref = str_eq_sound s ref t in
        absurd (
          omega (
            arith,
            (Names-unique files j k ref oid oid (subst (λ x. Names files j x oid) e c') c).0,
          ))
    | inr t ↦ rw t (unseen k ref oid seen c ds)
  ]

  Deeper-less :
      (k : ℕ) (oid : Str) (seen : List Str)
      → All (Deeper (suc k) oid) seen
      → All (Deeper k oid) seen
  Deeper-less k oid [] d = tt
  Deeper-less k oid (s ∷ seen) ((j, l, c), ds) = ((j, omega arith, c), Deeper-less k oid seen ds)

  Names-safe : (k : ℕ) (ref oid : Str) → Names files k ref oid → safe_stored_ref ref ≡ true
  Names-safe k ref oid (by_object raw s r v) = s
  Names-safe k ref oid (by_packed s r p) = s
  Names-safe k ref oid (by_symbolic raw t s r v c) = s

  free :
      (k : ℕ) (ref oid : Str) (seen : List Str)
      → Names files k ref oid
      → All (Deeper k oid) seen
      → blocked files ref seen ≡ false
  free k ref oid seen c d =
      rw (Names-safe k ref oid c, unseen k ref oid seen c d, (plain ref).0, (plain ref).1)

  Names-follow :
      (n k : ℕ) (ref oid : Str) (seen : List Str)
      → k < n
      → Names files k ref oid
      → All (Deeper k oid) seen
      → follow files n ref seen ≡ some oid
  unfolding follow round read_value
  Names-follow zero k ref oid seen l c d = absurd (omega arith)
  Names-follow (suc n) k ref oid seen l (by_object raw s r v) d =
      rw (free k ref oid seen (by_object raw s r v) d, r, round, v)
  Names-follow (suc n) k ref oid seen l (by_packed s r p) d =
      rw (free k ref oid seen (by_packed s r p) d, r, round, p)
  Names-follow (suc n) k ref oid seen l (by_symbolic {k = i} raw t s r v c) d =
      rw (free k ref oid seen (by_symbolic raw t s r v c) d, r, round, v)
        (Names-follow n i t oid (ref ∷ seen) (omega arith) c
          ((suc i, omega arith, by_symbolic raw t s r v c), Deeper-less i oid seen d))

  -- Where no ref is a link, defaultOID finds an object name exactly if a chain of at most seven
  -- symbolic refs leads from the default branch to it.
  pub default_oid-Names :
      (repo : Repo) (oid : Str)
      → (default_oid files repo ≡ some oid)
        ↔ NamesWithin files 8 (bytes "refs/heads/" ++ repo.default_branch) oid
  unfolding default_oid
  default_oid-Names repo oid =
      (follow-Names files 8 _ [] oid, λ (k, l, c). Names-follow 8 k _ oid [] l c tt)
