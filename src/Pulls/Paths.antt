-- ===== src/Pulls/Paths.antt =====
-- The paths that POST /pulls/ID/comments of implementations/go/collaboration.go takes.
use gitclub.Base.{
  ℕ, ◌++◌, ◌≡◌, ◌≢◌, arith, Str, bytes, Bool, true, false, ◌||◌, [], ◌∷◌, nat_eq, str_keys,
  contains, contains_any, has_prefix, In, In-any, any, refl, nat_beq,
}

unfoldable pub bad_path : Str → Bool
bad_path path =
    (contains_any path (0 ∷ 13 ∷ 10 ∷ b'\\' ∷ []) || has_prefix path (bytes "/"))
    || (contains (bytes "/" ++ (path ++ bytes "/")) (bytes "/../")
        || contains (bytes "/" ++ (path ++ bytes "/")) (bytes "/./"))

-- A segment of a path stands between two slashes, where one more is set at each end.
pub record IsSegment (segment path : Str) : Type 0 where
  pub before : Str
  pub after : Str
  pub parts :
      bytes "/" ++ (path ++ bytes "/") ≡ before ++ (bytes "/" ++ (segment ++ (bytes "/" ++ after)))

-- A path from the root of a repository that does not leave it: relative, with no segment that names its
-- own directory or the one above, and none of the bytes NUL, CR, LF and backslash.
pub record StaysInside (path : Str) : Type 0 where
  pub relative : (rest : Str) → path ≢ b'/' ∷ rest
  pub no_parent : IsSegment (bytes "..") path → ⊥
  pub no_self : IsSegment (bytes ".") path → ⊥
  pub plain : (c : ℕ) → In c path → (c ≢ 0) × (c ≢ 13) × (c ≢ 10) × (c ≢ b'\\')

has_prefix-append : (p s : Str) → has_prefix (p ++ s) p ≡ true
unfolding has_prefix
has_prefix-append [] s = refl
has_prefix-append (c ∷ p) s = ground (arith, has_prefix-append p s)

contains-append : (before p after : Str) → contains (before ++ (p ++ after)) p ≡ true
unfolding contains has_prefix
contains-append [] p after = from_prefix (p ++ after) (has_prefix-append p after)
  where
    from_prefix : (s : Str) → has_prefix s p ≡ true → contains s p ≡ true
    from_prefix [] h = h
    from_prefix (c ∷ s) h = rw h refl
contains-append (c ∷ before) p after = ground (arith, contains-append before p after)

absent : (s before p after : Str) → contains s p ≡ false → s ≡ before ++ (p ++ after) → ⊥
absent s before p after none_there e = cc (none_there, e, contains-append before p after)

-- A path that the route does not refuse stays inside.
pub bad_path-StaysInside : (path : Str) → bad_path path ≡ false → StaysInside path
unfolding bad_path contains_any any has_prefix
bad_path-StaysInside path h =
    let (no_bad, no_slash, no_up, no_dot) =
      apart (contains_any path (0 ∷ 13 ∷ 10 ∷ b'\\' ∷ [])) (has_prefix path (bytes "/"))
        (contains (bytes "/" ++ (path ++ bytes "/")) (bytes "/../"))
        (contains (bytes "/" ++ (path ++ bytes "/")) (bytes "/./")) h in
    let none_of : (c : ℕ) → In c path → any (nat_beq c) (0 ∷ 13 ∷ 10 ∷ b'\\' ∷ []) ≡ true → ⊥ =
      λ c m bad. cc (no_bad, In-any (λ x. any (nat_beq x) (0 ∷ 13 ∷ 10 ∷ b'\\' ∷ [])) path m bad) in
    record {
      relative = λ rest e. cc no_slash;
      no_parent = λ g.
          absent (bytes "/" ++ (path ++ bytes "/")) g.before (bytes "/../") g.after no_up g.parts;
      no_self = λ g.
          absent (bytes "/" ++ (path ++ bytes "/")) g.before (bytes "/./") g.after no_dot g.parts;
      plain = λ c m. (
        λ e. none_of c m (rw e refl),
        λ e. none_of c m (rw e refl),
        λ e. none_of c m (rw e refl),
        λ e. none_of c m (rw e refl),
      );
    }
  where
    apart :
        (a b c d : Bool)
        → ((a || b) || (c || d)) ≡ false
        → (a ≡ false) × (b ≡ false) × (c ≡ false) × (d ≡ false)
    apart a b c d e = (ground (arith, e), ground (arith, e), ground (arith, e), ground (arith, e))
