-- ===== src/Entry.antt =====
-- The guards of ServeHTTP in implementations/go/main.go, and which handler takes the request. A header
-- that is absent is empty, and what the handlers answer is theirs.
pub mod Intent
use gitclub.Base.{
  ℕ, ◌≡◌, Str, bytes, Bool, true, false, not, ◌&&◌, ◌||◌, List, [], ◌∷◌, Option, none, some, ltb,
  if◌then◌else◌, ◌==◌, nat_eq, str_keys, nat_beq, length, has_prefix, has_suffix, trim_prefix,
  split, Result, Check, ok, err, fail, fail_if, ◌>>=◌, ◌>>◌,
}

pub record Request : Type 0 where
  pub method : Str
  pub path : Str
  pub origin : Str
  pub authorization : Str
  pub content_type : Str
  -- X-GitClub-Request
  pub marker : Str
  -- gc_session
  pub cookie : Option Str

-- Who answers.
pub data Target : Type 0 where
  health git_transfer mcp_endpoint api_endpoint web_file : Target

-- strings.TrimRight(s, "/")
unfoldable pub trim_slashes : Str → Str
trim_slashes [] = []
trim_slashes (c ∷ s) = cut c (trim_slashes s)
  where
    cut : ℕ → Str → Str
    cut c [] = if nat_beq c b'/' then [] else c ∷ []
    cut c (d ∷ t) = c ∷ d ∷ t

unfoldable pub is_read : Str → Bool
is_read m = m == bytes "GET" || m == bytes "HEAD"

-- Another origin than the server's own.
abbrev pub is_foreign : Str → Str → Bool
is_foreign public_url origin =
    not (length origin == 0) && not (trim_slashes origin == trim_slashes public_url)

abbrev pub has_cookie : Option Str → Bool
has_cookie none = false
has_cookie (some t) = true

-- What a request in the name of a cookie must not be.
abbrev pub is_unmarked : Str → Request → Bool
is_unmarked public_url r =
    is_foreign public_url r.origin
    || ((length r.origin == 0 && not (r.marker == bytes "1"))
        || not (has_prefix r.content_type (bytes "application/json")))

-- The two guards in front of the handlers.
unfoldable pub guard_origin : Str → Request → Check
guard_origin public_url r =
    fail_if (not (is_read r.method) && is_foreign public_url r.origin) 403
      "Use a same-origin request"

unfoldable pub guard_cookie : Str → Request → Check
guard_cookie public_url r =
    fail_if
      ((not (is_read r.method) && (length r.authorization == 0 && has_cookie r.cookie))
        && is_unmarked public_url r)
      403 "Use a same-origin JSON request"

-- The first guard of gitHTTP: three segments, the second with the ending .git.
unfoldable pub is_git_path : List Str → Bool
is_git_path (owner ∷ name ∷ tail ∷ rest) = has_suffix name (bytes ".git")
is_git_path _ = false

-- ServeHTTP
unfoldable pub entry : Str → Request → Result Target
entry public_url r =
    if r.path == bytes "/health"
    then ok health
    else (guard_origin public_url r
        >> guard_cookie public_url r
        >> (if is_git_path (split (trim_prefix r.path (bytes "/")) b'/')
            then ok git_transfer
            else if r.path == bytes "/mcp"
            then ok mcp_endpoint
            else if has_prefix r.path (bytes "/api/")
            then ok api_endpoint
            else fail_if (not (is_read r.method)) 405 "Use GET" >> ok web_file))
