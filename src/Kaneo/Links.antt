-- ===== src/Kaneo/Links.antt =====
-- What the addresses that are accepted look like.
use gitclub.Base.{
  ℕ, ◌++◌, ◌≡◌, ◌≢◌, ◌≤◌, refl, sym, ap, subst, ◌∙◌, Str, bytes, Bool, true, false, not, ◌||◌, List,
  [], ◌∷◌, Option, none, some, arith, ltb, ◌==◌, nat_eq, str_keys, str_eq, str_eq_iff, length, join,
  split, ok, fail_if, fail_if-eq-ok, or_fail, >>=-eq-ok,
}
use gitclub.Kaneo.{
  Url, UrlPackage, kaneo_id, plain_host, is_project, is_refused, parse_text, parse_kaneo_url, below,
  has_query, is_view, short_text, project_path, project_url, kaneo_project_url, task_id, task_url,
  kaneo_task_url,
}

-- The path of a project of a workspace.
abbrev pub project_of : Str → Str → List Str
project_of workspace project =
    [] ∷ bytes "dashboard" ∷ bytes "workspace" ∷ workspace ∷ bytes "project" ∷ project ∷ []

-- A text of a short address below a project, with identifiers, over HTTPS and without credentials or a
-- query.
pub record IsLink (net : UrlPackage) (rest s : Str) : Type 0 where
  pub url : Url
  pub workspace : Str
  pub project : Str
  pub valid_workspace : kaneo_id workspace ≡ true
  pub valid_project : kaneo_id project ≡ true
  pub prints : s ≡ net.string url
  pub below_project : url.path ≡ join (project_of workspace project) b'/' ++ rest
  pub secure : url.scheme ≡ bytes "https"
  pub anonymous : url.has_user ≡ false
  pub plain : has_query url ≡ false
  pub short : length s ≤ 2048

is_project_lem :
    (p : List Str)
    → is_project p ≡ true
    → (w : Str) × (q : Str) × (rest : List Str) × (p
        ≡ [] ∷ bytes "dashboard" ∷ bytes "workspace" ∷ w ∷ bytes "project" ∷ q ∷ rest)
      × (kaneo_id w ≡ true)
      × (kaneo_id q ≡ true)
unfolding is_project
is_project_lem [] h = cc
is_project_lem (a ∷ []) h = cc
is_project_lem (a ∷ b ∷ []) h = cc
is_project_lem (a ∷ b ∷ c ∷ []) h = cc
is_project_lem (a ∷ b ∷ c ∷ w ∷ []) h = cc
is_project_lem (a ∷ b ∷ c ∷ w ∷ d ∷ []) h = cc
is_project_lem (a ∷ b ∷ c ∷ w ∷ d ∷ q ∷ rest) h =
    let (ea, eb, ec, kw, ed, kq) = parts in
    (
      w,
      q,
      rest,
      cc (
        empty a ea,
        (str_eq_iff b (bytes "dashboard")).0 eb,
        (str_eq_iff c (bytes "workspace")).0 ec,
        (str_eq_iff d (bytes "project")).0 ed,
      ),
      kw,
      kq,
    )
  where
    parts :
        ((length a == 0) ≡ true)
        × (str_eq b (bytes "dashboard") ≡ true)
        × (str_eq c (bytes "workspace") ≡ true)
        × (kaneo_id w ≡ true)
        × (str_eq d (bytes "project") ≡ true)
        × (kaneo_id q ≡ true)
    parts = ground (arith, h)

    empty : (s : Str) → (length s == 0) ≡ true → s ≡ []
    empty [] e = refl
    empty (x ∷ s) e = ground arith

module _ (net : UrlPackage) where
  parse_text-eq-ok :
      (raw : Str) (u : Url) (p : List Str)
      → parse_text net raw ≡ ok (some (u, p))
      → (is_project p ≡ true) × (u.scheme ≡ bytes "https") × (u.has_user ≡ false)
  unfolding parse_text is_refused
  parse_text-eq-ok [] u p h = cc
  parse_text-eq-ok (c ∷ raw) u p h =
      let (v, _, h1) = >>=-eq-ok (or_fail (net.parse (c ∷ raw)) 400 _) _ h in
      let (_, fine, h2) = >>=-eq-ok (fail_if (is_refused (c ∷ raw) v) 400 _) _ h1 in
      let (_, under, h3) = >>=-eq-ok (fail_if (not (is_project (split v.path b'/'))) 400 _) _ h2 in
      let a : plain_host v ≡ u = cc in
      let b : split v.path b'/' ≡ p = cc in
      let (x, y) = both v (fail_if-eq-ok (is_refused (c ∷ raw) v) 400 _ fine) in
      (
        subst (λ q. is_project q ≡ true) b
            (ground (arith, fail_if-eq-ok (not (is_project (split v.path b'/'))) 400 _ under)),
        ap (λ (z : Url). z.scheme) (sym a) ∙ (str_eq_iff v.scheme (bytes "https")).0 x,
        ap (λ (z : Url). z.has_user) (sym a) ∙ y,
      )
    where
      both :
          (v : Url)
          → is_refused (c ∷ raw) v ≡ false
          → (str_eq v.scheme (bytes "https") ≡ true) × (v.has_user ≡ false)
      both v e = ground (arith, e)

  parse_kaneo_url-eq-ok :
      (value : Option Str) (u : Url) (p : List Str)
      → parse_kaneo_url net value ≡ ok (some (u, p))
      → (is_project p ≡ true) × (u.scheme ≡ bytes "https") × (u.has_user ≡ false)
  unfolding parse_kaneo_url
  parse_kaneo_url-eq-ok none u p h = cc
  parse_kaneo_url-eq-ok (some raw) u p h =
      let (_, _, h1) = >>=-eq-ok (fail_if (ltb 2048 (length raw)) 400 _) _ h in
      parse_text-eq-ok raw u p h1

  short_text-eq-ok :
      (u : Url) (s : Str) → short_text net u ≡ ok s → (s ≡ net.string u) × (length s ≤ 2048)
  unfolding short_text
  short_text-eq-ok u s h =
      let (_, few, h1) = >>=-eq-ok (fail_if (ltb 2048 (length (net.string u))) 400 _) _ h in
      let e : net.string u ≡ s = cc in
      (
        sym e,
        omega (
          arith,
          ap (length {A = ℕ}) e,
          fits (fail_if-eq-ok (ltb 2048 (length (net.string u))) 400 _ few),
        ),
      )
    where
      fits : ltb 2048 (length (net.string u)) ≡ false → length (net.string u) ≤ 2048
      fits e = ground (arith, e)

  link_of :
      (u : Url) (p : List Str) (rest s : Str)
      → (is_project p ≡ true) × (u.scheme ≡ bytes "https") × (u.has_user ≡ false)
      → has_query u ≡ false
      → short_text net (record u { path = project_path p rest }) ≡ ok s
      → IsLink net rest s
  link_of u p rest s (under, https, alone) plain h =
      let (w, q, tail, e, kw, kq) = is_project_lem p under in
      let (prints, short) = short_text-eq-ok (record u { path = project_path p rest }) s h in
      record {
        url = record u { path = project_path p rest };
        workspace = w;
        project = q;
        valid_workspace = kw;
        valid_project = kq;
        prints = prints;
        below_project = ap (λ x. project_path x rest) e;
        secure = https;
        anonymous = alone;
        plain = plain;
        short = short;
      }

  -- The address of a project that is accepted and not empty is printed from an address over HTTPS,
  -- without credentials or a query, of the board of a project, in at most 2048 bytes.
  pub kaneo_project_url-IsLink :
      (value : Option Str) (s : Str)
      → kaneo_project_url net value ≡ ok s
      → s ≢ []
      → IsLink net (bytes "/board") s
  unfolding kaneo_project_url project_url
  kaneo_project_url-IsLink value s h some_s =
      let (r, parsed, h1) = >>=-eq-ok (parse_kaneo_url net value) (project_url net) h in
      of_result r parsed h1
    where
      first : (a b : Bool) → (a || b) ≡ false → a ≡ false
      first true b e = cc
      first false b e = refl

      of_result :
          (r : Option (Url × List Str))
          → parse_kaneo_url net value ≡ ok r
          → project_url net r ≡ ok s
          → IsLink net (bytes "/board") s
      of_result none parsed h1 = absurd (some_s (cc (h1)))
      of_result (some (u, p)) parsed h1 =
          let (_, fine, h2) =
            >>=-eq-ok (fail_if (has_query u || not (is_view (below p))) 400 _) _ h1 in
          link_of u p (bytes "/board") s (parse_kaneo_url-eq-ok value u p parsed)
            (first (has_query u) (not (is_view (below p))) (fail_if-eq-ok _ 400 _ fine)) h2

  -- The address of a task that is accepted and not empty is printed from an address over HTTPS, without
  -- credentials or a query, of a valid task below a project, in at most 2048 bytes; and the board of
  -- that same project prints the address that the repository's configured project is read as.
  pub kaneo_task_url-IsLink :
      (value : Option Str) (configured s : Str)
      → kaneo_task_url net value configured ≡ ok s
      → s ≢ []
      → (task : Str) × (link : IsLink net (bytes "/task/" ++ task) s) × (kaneo_id task ≡ true)
        × (kaneo_project_url net (some configured)
            ≡ ok (
                net.string (record link.url {
                  path = join (project_of link.workspace link.project) b'/' ++ bytes "/board";
                })))
  unfolding kaneo_task_url task_url link_of is_project_lem
  kaneo_task_url-IsLink value configured s h some_s =
      let (r, parsed, h1) = >>=-eq-ok (parse_kaneo_url net value) (task_url net configured) h in
      of_result r parsed h1
    where
      unnot : (b : Bool) → not b ≡ false → b ≡ true
      unnot true e = refl
      unnot false e = cc

      equal : (a b : Str) → not (str_eq a b) ≡ false → a ≡ b
      equal a b e = (str_eq_iff a b).0 (unnot (str_eq a b) e)

      of_result :
          (r : Option (Url × List Str))
          → parse_kaneo_url net value ≡ ok r
          → task_url net configured r ≡ ok s
          → (task : Str) × (link : IsLink net (bytes "/task/" ++ task) s) × (kaneo_id task ≡ true)
            × (kaneo_project_url net (some configured)
                ≡ ok (
                    net.string (record link.url {
                      path = join (project_of link.workspace link.project) b'/' ++ bytes "/board";
                    })))
      of_result none parsed h1 = absurd (some_s (cc (h1)))
      of_result (some (u, p)) parsed h1 =
          let bare : Url = record u { raw_query = []; force_query = false } in
          let (_, named, h2) =
            >>=-eq-ok (fail_if (not (kaneo_id (task_id net u (below p)))) 400 _) _ h1 in
          let (_, _, h3) = >>=-eq-ok (fail_if (length configured == 0) 400 _) _ h2 in
          let (board, read, h4) = >>=-eq-ok (kaneo_project_url net (some configured)) _ h3 in
          let (_, same, h5) =
            >>=-eq-ok
              (fail_if
                (not (net.string (record bare { path = project_path p (bytes "/board") }) == board))
                400 _)
              _ h4 in
          let under = parse_kaneo_url-eq-ok value u p parsed in
          let link = link_of bare p (bytes "/task/" ++ task_id net u (below p)) s under refl h5 in
          let e = (is_project_lem p under.0).3 in
          let its =
            equal (net.string (record bare { path = project_path p (bytes "/board") })) board
              (fail_if-eq-ok _ 400 _ same) in
          (
            task_id net u (below p),
            link,
            unnot (kaneo_id (task_id net u (below p))) (fail_if-eq-ok _ 400 _ named),
            read
                ∙ ap ok (sym its)
                ∙ ap (λ x. ok (net.string (record bare { path = project_path x (bytes "/board") })))
                    e,
          )
