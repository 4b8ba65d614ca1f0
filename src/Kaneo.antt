-- ===== src/Kaneo.antt =====
-- The links to the boards of Kaneo: implementations/go/kaneo.go. What the package net/url reads from a
-- text and prints is a parameter; strings.ToLower is read on ASCII letters.
pub mod Links
pub mod Paging
pub mod Readers
use gitclub.Base.{
  ℕ, String, ◌++◌, ◌≡◌, Str, bytes, Bool, true, false, not, ◌&&◌, ◌||◌, List, [], ◌∷◌, Option, none,
  some, ltb, leb, if◌then◌else◌, ◌==◌, nat_eq, str_keys, nat_beq, length, take, all, contains,
  has_suffix, trim_suffix, split, join, Result, ok, err, fail, fail_if, or_fail, ◌>>=◌, ◌>>◌,
}
use gitclub.Namespaces.{is_alnum}
use gitclub.Listing.{lower}

-- The fields of url.URL that are read.
pub record Url : Type 0 where
  pub scheme : Str
  pub host : Str
  pub hostname : Str
  pub has_user : Bool
  pub path : Str
  pub raw_path : Str
  pub raw_query : Str
  pub force_query : Bool

-- url.Parse, URL.String, and url.ParseQuery as a list of keys with their values.
pub record UrlPackage : Type 0 where
  pub parse : Str → Option Url
  pub string : Url → Str
  pub parse_query : Str → Option (List (Str × List Str))

-- [A-Za-z0-9_-]
abbrev pub is_id_char : ℕ → Bool
is_id_char c = is_alnum c || ((leb b'A' c && leb c b'Z') || (c == b'_' || c == b'-'))

-- kaneoID
unfoldable pub kaneo_id : Str → Bool
kaneo_id v = all is_id_char v && (leb 1 (length v) && leb (length v) 100)

-- The host in small letters, without the port of https.
abbrev pub plain_host : Url → Url
plain_host u = record u { host = trim_suffix (lower u.host) (bytes ":443") }

-- The parts of a path below a project.
unfoldable pub is_project : List Str → Bool
is_project (a ∷ b ∷ c ∷ workspace ∷ d ∷ project ∷ rest) =
    (length a == 0 && (b == bytes "dashboard" && c == bytes "workspace"))
    && (kaneo_id workspace && (d == bytes "project" && kaneo_id project))
is_project _ = false

unfoldable pub is_refused : Str → Url → Bool
is_refused raw u =
    not (u.scheme == bytes "https")
    || ((length u.hostname == 0 || u.has_user)
        || (contains raw (bytes "#")
            || (not (length u.raw_path == 0) || has_suffix u.host (bytes ":"))))

-- parseKaneoURL behind the text's test; none is the empty text.
unfoldable pub parse_text : UrlPackage → Str → Result (Option (Url × List Str))
parse_text net [] = ok none
parse_text net (c ∷ raw) = do
  u ← or_fail (net.parse (c ∷ raw)) 400 "Use an HTTPS Kaneo URL without credentials or a fragment"
  fail_if (is_refused (c ∷ raw) u) 400 "Use an HTTPS Kaneo URL without credentials or a fragment"
  fail_if (not (is_project (split u.path b'/'))) 400 "Use a Kaneo workspace project URL"
  ok (some (plain_host u, split u.path b'/'))

-- parseKaneoURL; none is a value that is no text.
unfoldable pub parse_kaneo_url : UrlPackage → Option Str → Result (Option (Url × List Str))
parse_kaneo_url net none = fail 400 "Kaneo URL must be text of at most 2048 bytes"
parse_kaneo_url net (some raw) =
    fail_if (ltb 2048 (length raw)) 400 "Kaneo URL must be text of at most 2048 bytes"
    >> parse_text net raw

-- What follows the six parts of the project.
abbrev pub below : List Str → List Str
below (a ∷ b ∷ c ∷ workspace ∷ d ∷ project ∷ rest) = rest
below _ = []

abbrev pub has_query : Url → Bool
has_query u = not (length u.raw_query == 0) || u.force_query

abbrev pub is_view : List Str → Bool
is_view [] = true
is_view (v ∷ []) = v == bytes "board" || (v == bytes "list" || v == bytes "overview")
is_view _ = false

-- u.String() of at most 2048 bytes
unfoldable pub short_text : UrlPackage → Url → Result Str
short_text net u =
    fail_if (ltb 2048 (length (net.string u))) 400
      "Kaneo URL must be at most 2048 bytes after normalization"
    >> ok (net.string u)

-- strings.Join(p[:6], "/") + s
abbrev pub project_path : List Str → Str → Str
project_path p s = join (take 6 p) b'/' ++ s

unfoldable pub project_url : UrlPackage → Option (Url × List Str) → Result Str
project_url net none = ok []
project_url net (some (u, p)) =
    fail_if (has_query u || not (is_view (below p))) 400
      "Use a Kaneo project board, list, or overview URL without a query"
    >> short_text net (record u { path = project_path p (bytes "/board") })

-- kaneoProjectURL
unfoldable pub kaneo_project_url : UrlPackage → Option Str → Result Str
kaneo_project_url net value = parse_kaneo_url net value >>= project_url net

-- The only value of the only key, where that is taskId.
abbrev pub only_task : Option (List (Str × List Str)) → Str
only_task (some ((key, t ∷ []) ∷ [])) = if key == bytes "taskId" then t else []
only_task _ = []

-- The task that the address names, empty for none.
unfoldable pub task_id : UrlPackage → Url → List Str → Str
task_id net u (kind ∷ t ∷ []) = if kind == bytes "task" && not (has_query u) then t else []
task_id net u (kind ∷ []) =
    if kind == bytes "board" || kind == bytes "list"
    then only_task (net.parse_query u.raw_query)
    else []
task_id net u _ = []

unfoldable pub task_url : UrlPackage → Str → Option (Url × List Str) → Result Str
task_url net project none = ok []
task_url net project (some (u, p)) = do
  fail_if (not (kaneo_id (task_id net u (below p)))) 400
      "Use a Kaneo task URL or a project board/list URL with taskId"
  fail_if (length project == 0) 400 "Kaneo task must belong to the repository's configured project"
  configured ← kaneo_project_url net (some project)
  fail_if
      (not (
        net.string
          (record u { path = project_path p (bytes "/board"); raw_query = []; force_query = false })
        == configured))
      400 "Kaneo task must belong to the repository's configured project"
  short_text net (record u {
    path = project_path p (bytes "/task/" ++ task_id net u (below p));
    raw_query = [];
    force_query = false;
  })

-- kaneoTaskURL
unfoldable pub kaneo_task_url : UrlPackage → Option Str → Str → Result Str
kaneo_task_url net value project = parse_kaneo_url net value >>= task_url net project
