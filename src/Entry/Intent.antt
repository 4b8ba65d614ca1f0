-- ===== src/Entry/Intent.antt =====
-- A request that writes was meant: no page of another origin makes one, with the cookie or without.
use gitclub.Base.{
  ◌≡◌, ◌≢◌, ◌⊎◌, inl, inr, refl, Str, bytes, true, false, not, ◌&&◌, [], ◌∷◌, Option, none, some,
  arith, length, ◌==◌, nat_eq, str_keys, str_eq_iff, has_prefix, ◌>>◌, ok, fail_if-eq-ok, >>=-eq-ok,
  Bool-cases,
}
use gitclub.Entry.{
  Request, Target, trim_slashes, is_read, is_foreign, has_cookie, is_unmarked, guard_origin,
  guard_cookie, entry,
}

-- The request names no origin, or the server's.
abbrev pub IsOwn : Str → Request → Type 0
IsOwn public_url r = (r.origin ≡ []) ⊎ (trim_slashes r.origin ≡ trim_slashes public_url)

-- Why a request is let through.
pub data Intended (public_url : Str) (r : Request) : Type 0 where
  -- a test of health
  alive : r.path ≡ bytes "/health" → Intended public_url r
  reads : is_read r.method ≡ true → Intended public_url r
  -- nothing is sent that a browser would add by itself
  explicit : IsOwn public_url r → (r.authorization ≢ []) ⊎ (r.cookie ≡ none) → Intended public_url r
  -- what a form of another page cannot send
  own_page :
      IsOwn public_url r
      → has_prefix r.content_type (bytes "application/json") ≡ true
      → (r.origin ≢ []) ⊎ (r.marker ≡ bytes "1")
      → Intended public_url r

empty_of : (s : Str) → (length s == 0) ≡ true → s ≡ []
empty_of [] h = refl
empty_of (c ∷ s) h = ground arith

filled_of : (s : Str) → (length s == 0) ≡ false → s ≢ []
filled_of s h e = cc (h, e)

is_foreign-IsOwn :
    (public_url : Str) (r : Request) → is_foreign public_url r.origin ≡ false → IsOwn public_url r
is_foreign-IsOwn public_url r h = elim (Bool-cases (length r.origin == 0)) [
  | inl t ↦ inl (empty_of r.origin t)
  | inr t ↦
      inr ((str_eq_iff (trim_slashes r.origin) (trim_slashes public_url)).0 (ground (arith, t, h)))
]

-- A request that is let through to a handler is a test of health, only reads, or names no other origin
-- than the server's and is sent with an Authorization header, without the cookie, or as JSON with
-- the origin or the marker that the server's own pages send.
pub entry-Intended :
    (public_url : Str) (r : Request) (t : Target)
    → entry public_url r ≡ ok t
    → Intended public_url r
unfolding entry guard_origin guard_cookie
entry-Intended public_url r t h = elim (Bool-cases (r.path == bytes "/health")) [
  | inl e ↦ alive ((str_eq_iff r.path (bytes "/health")).0 e)
  | inr e ↦
      let (_, both, _) =
        >>=-eq-ok (guard_origin public_url r >> guard_cookie public_url r) _ (rw e at h) in
      let (_, first, second) = >>=-eq-ok (guard_origin public_url r) _ both in
      let unmeant =
        fail_if-eq-ok (not (is_read r.method) && is_foreign public_url r.origin) 403 _ first in
      let unsafe =
        fail_if-eq-ok
          ((not (is_read r.method) && (length r.authorization == 0 && has_cookie r.cookie))
            && is_unmarked public_url r)
          403 _ second in
      elim (Bool-cases (is_read r.method)) [
        | inl get ↦ reads get
        | inr set ↦ meant (is_foreign-IsOwn public_url r (rw set at unmeant)) (rw set at unsafe)
      ]
]
  where
    absent : (c : Option Str) → has_cookie c ≡ false → c ≡ none
    absent none e = refl
    absent (some s) e = cc

    meant :
        IsOwn public_url r
        → ((length r.authorization == 0 && has_cookie r.cookie) && is_unmarked public_url r) ≡ false
        → Intended public_url r
    meant own safe = elim (Bool-cases (length r.authorization == 0)) [
      | inr a ↦ explicit own (inl (filled_of r.authorization a))
      | inl a ↦ elim (Bool-cases (has_cookie r.cookie)) [
        | inr c ↦ explicit own (inr (absent r.cookie c))
        | inl c ↦ elim (Bool-cases (length r.origin == 0)) [
          | inr o ↦ own_page own (ground (arith, a, c, o, safe)) (inl (filled_of r.origin o))
          | inl o ↦
              own_page own (ground (arith, a, c, o, safe))
                (inr ((str_eq_iff r.marker (bytes "1")).0 (ground (arith, a, c, o, safe))))
        ]
      ]
    ]
