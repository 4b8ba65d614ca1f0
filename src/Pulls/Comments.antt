-- ===== src/Pulls/Comments.antt =====
-- The route POST /pulls/ID/comments of implementations/go/collaboration.go, up to the row that it
-- inserts: where a comment may point to.
use gitclub.Base.{
  ℕ, ◌+◌, ◌≡◌, ◌≢◌, ◌≤◌, ◌<◌, ◌⊎◌, inl, inr, subst, arith, Str, Bool, true, false, not, ◌&&◌, ◌||◌,
  [], ◌∷◌, Option, none, some, ltb, if◌then◌else◌, ◌==◌, nat_eq, str_keys, str_eq_iff, length,
  Result, ok, fail, fail_if, any, String, trim_space, fail_if-eq-ok, or_fail, or_fail-eq-ok, ◌>>=◌,
  ◌>>◌, >>=-eq-ok, Bool-cases,
}
use gitclub.Git.{Tips}
use gitclub.Pulls.Paths.{bad_path, StaysInside, bad_path-StaysInside}
use gitclub.Pulls.Discussion.{Field, string, other, str, checked_text, discussion_text}

-- The value under the key line: no number, no 64-bit integer, a negative one, or another.
pub data Line : Type 0 where
  no_number no_integer negative : Line
  number : ℕ → Line

pub record Remark : Type 0 where
  pub body : Option Field
  pub path : Option Field
  pub commit_oid : Option Field
  pub line : Option Line

-- The columns of the inserted row that the body decides.
pub record Comment : Type 0 where
  pub body : Str
  pub path : Str
  pub commit_oid : Str
  pub line : ℕ

-- none is a negative line
unfoldable pub given_line : Option Line → Result (Option ℕ)
given_line none = ok (some 0)
given_line (some no_number) = fail 400 "Comment line must be an integer"
given_line (some no_integer) = fail 400 "Comment line must be an integer"
given_line (some negative) = ok none
given_line (some (number n)) = ok (some n)

-- strings.Count(blob, "\n")
unfoldable pub newlines : Str → ℕ
newlines [] = 0
newlines (c ∷ s) = if c == 10 then newlines s + 1 else newlines s

-- The checks on a comment that names a place; blob is git cat-file on a commit and a path.
unfoldable pub placed : Tips → (Str → Str → Option Str) → Comment → Result Comment
placed tips blob c = do
  fail_if (length c.path == 0 || (c.line == 0 || length c.commit_oid == 0)) 400
      "Inline comments require a file path, positive line, and current head commit_oid"
  fail_if (tips.failed || not (c.commit_oid == tips.head)) 409
      "Head changed; reload the diff before commenting"
  text ← or_fail (blob tips.head c.path) 400 "Comment path must name a file at the current head"
  fail_if (ltb (newlines text + 1) c.line) 400 "Comment line is outside the file"
  ok c

-- The checks behind the texts and the number.
unfoldable pub located :
    Tips → (Str → Str → Option Str) → Str → Str → Str → Option ℕ → Result Comment
located tips blob body path oid none = fail 400 "Comment location is invalid"
located tips blob body path oid (some line) =
    if bad_path path
    then fail 400 "Comment location is invalid"
    else let c : Comment = record { body = body; path = path; commit_oid = oid; line = line } in
      if length path == 0 && (length oid == 0 && line == 0) then ok c else placed tips blob c

unfoldable pub commented : Tips → (Str → Str → Option Str) → Remark → Result Comment
commented tips blob r = do
  body ← discussion_text r.body true 65536 "body must be a nonempty string of at most 65536 bytes"
  path ← discussion_text r.path false 4096 "path must be a string of at most 4096 bytes"
  oid ← discussion_text r.commit_oid false 64 "commit_oid must be a string of at most 64 bytes"
  line ← given_line r.line
  located tips blob body path oid line

-- A line of a file at the current head.
pub record Placed (tips : Tips) (blob : Str → Str → Option Str) (c : Comment) : Type 0 where
  pub inside : StaysInside c.path
  pub has_path : c.path ≢ []
  pub tips_found : tips.failed ≡ false
  pub at_head : c.commit_oid ≡ tips.head
  pub first_line : 0 < c.line
  pub file : (text : Str) × (blob tips.head c.path ≡ some text) × (c.line ≤ newlines text + 1)

abbrev pub Unplaced : Comment → Type 0
Unplaced c = (length c.path ≡ 0) × (length c.commit_oid ≡ 0) × (c.line ≡ 0)

placed-Placed :
    (tips : Tips) (blob : Str → Str → Option Str) (c x : Comment)
    → bad_path c.path ≡ false
    → placed tips blob c ≡ ok x
    → (c ≡ x) × Placed tips blob c
unfolding placed
placed-Placed tips blob c x safe h =
    let (_, a, h1) =
      >>=-eq-ok (fail_if (length c.path == 0 || (c.line == 0 || length c.commit_oid == 0)) 400 _) _
        h in
    let (_, b, h2) =
      >>=-eq-ok (fail_if (tips.failed || not (c.commit_oid == tips.head)) 409 _) _ h1 in
    let (text, d, h3) = >>=-eq-ok (or_fail (blob tips.head c.path) 400 _) _ h2 in
    let (_, e, h4) = >>=-eq-ok (fail_if (ltb (newlines text + 1) c.line) 400 _) _ h3 in
    let full = fail_if-eq-ok _ 400 _ a in
    let fresh = fail_if-eq-ok _ 409 _ b in
    let inside = fail_if-eq-ok _ 400 _ e in
    (
      cc,
      record {
        inside = bad_path-StaysInside c.path safe;
        has_path = λ q. nonempty c.path (ground (arith, full)) q;
        tips_found = ground (arith, fresh);
        at_head = (str_eq_iff c.commit_oid tips.head).0 (ground (arith, fresh));
        first_line = ground (arith, full);
        file = (text, or_fail-eq-ok _ _ _ d, ground (arith, inside));
      },
    )
  where
    nonempty : (s : Str) → (length s == 0) ≡ false → s ≡ [] → ⊥
    nonempty [] n q = ground arith
    nonempty (y ∷ s) n q = cc

located-Placed :
    (tips : Tips) (blob : Str → Str → Option Str) (body path oid : Str) (line : Option ℕ)
    (x : Comment)
    → located tips blob body path oid line ≡ ok x
    → Unplaced x ⊎ Placed tips blob x
unfolding located
located-Placed tips blob body path oid none x h = absurd (failed h)
  where
    failed : fail {A = Comment} 400 "Comment location is invalid" ≡ ok x → ⊥
    failed q = cc
located-Placed tips blob body path oid (some line) x h = elim (Bool-cases (bad_path path)) [
  | inl t ↦ absurd (no_comment (rw t at h))
  | inr t ↦ elim (Bool-cases (length path == 0 && (length oid == 0 && line == 0))) [
    | inl q ↦ let e : c ≡ x = ok_same (rw (t, q) at h) in inl (subst Unplaced e (ground (arith, q)))
    | inr q ↦
        let (e, p) = placed-Placed tips blob c x t (rw (t, q) at h) in
        inr (subst (Placed tips blob) e p)
  ]
]
  where
    c : Comment
    c = record { body = body; path = path; commit_oid = oid; line = line }

    no_comment : fail {A = Comment} 400 "Comment location is invalid" ≡ ok x → ⊥
    no_comment q = cc

    ok_same : ok c ≡ ok x → c ≡ x
    ok_same q = cc

-- What the row takes from the request: its three texts, none for a missing key, and its number.
pub record IsOf (r : Remark) (x : Comment) : Type 0 where
  pub body : x.body ≡ str r.body
  pub path : x.path ≡ str r.path
  pub commit_oid : x.commit_oid ≡ str r.commit_oid
  pub line : given_line r.line ≡ ok (some x.line)

discussion_text-str :
    (v : Option Field) (required : Bool) (limit : ℕ) (message : String) (t : Str)
    → discussion_text v required limit message ≡ ok t
    → t ≡ str v
unfolding discussion_text checked_text
discussion_text-str none false limit message t h = cc
discussion_text-str none true limit message t h = cc
discussion_text-str (some other) required limit message t h = cc
discussion_text-str (some (string s)) required limit message t h =
    chosen
      ((ltb limit (length s) || (required && length (trim_space s) == 0)) || any (λ c. c == 0) s) h
  where
    chosen : (b : Bool) → (if b then fail 400 message else ok s) ≡ ok t → t ≡ s
    chosen true q = cc
    chosen false q = cc

placed-same :
    (tips : Tips) (blob : Str → Str → Option Str) (c x : Comment)
    → bad_path c.path ≡ false
    → placed tips blob c ≡ ok x
    → c ≡ x
placed-same tips blob c x safe h = (placed-Placed tips blob c x safe h).0

located-IsOf :
    (tips : Tips) (blob : Str → Str → Option Str) (r : Remark) (body path oid : Str)
    (line : Option ℕ) (x : Comment)
    → body ≡ str r.body
    → path ≡ str r.path
    → oid ≡ str r.commit_oid
    → given_line r.line ≡ ok line
    → located tips blob body path oid line ≡ ok x
    → IsOf r x
unfolding located
located-IsOf tips blob r body path oid none x b p o l h = cc
located-IsOf tips blob r body path oid (some line) x b p o l h = elim (Bool-cases (bad_path path)) [
  | inl t ↦ cc (rw t at h)
  | inr t ↦ subst (IsOf r) (same t) (record { body = b; path = p; commit_oid = o; line = l })
]
  where
    c : Comment
    c = record { body = body; path = path; commit_oid = oid; line = line }

    same : bad_path path ≡ false → c ≡ x
    same t = elim (Bool-cases (length path == 0 && (length oid == 0 && line == 0))) [
      | inl q ↦ let e : ok c ≡ ok x = (rw (t, q) at h) in cc
      | inr q ↦ placed-same tips blob c x t (rw (t, q) at h)
    ]

-- A comment that is accepted has the body, path, commit and line of its request, and either names no
-- place at all, or a line of a file at the head that the request names and that is still current, by a
-- relative path without a segment . or .. and without a NUL, CR, LF or backslash.
pub commented-Placed :
    (tips : Tips) (blob : Str → Str → Option Str) (r : Remark) (x : Comment)
    → commented tips blob r ≡ ok x
    → IsOf r x × (Unplaced x ⊎ Placed tips blob x)
unfolding commented
commented-Placed tips blob r x h =
    let (body, a, h1) = >>=-eq-ok (discussion_text r.body true 65536 _) _ h in
    let (path, b, h2) = >>=-eq-ok (discussion_text r.path false 4096 _) _ h1 in
    let (oid, c, h3) = >>=-eq-ok (discussion_text r.commit_oid false 64 _) _ h2 in
    let (line, d, h4) = >>=-eq-ok (given_line r.line) _ h3 in
    (
      located-IsOf tips blob r body path oid line x (discussion_text-str r.body true 65536 _ body a)
          (discussion_text-str r.path false 4096 _ path b)
          (discussion_text-str r.commit_oid false 64 _ oid c) d h4,
      located-Placed tips blob body path oid line x h4,
    )
