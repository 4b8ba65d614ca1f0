-- ===== src/Merge/World.antt =====
-- What a merge touches for one repository, and reconcileMerges.
use gitclub.Base.{
  ℕ, String, Str, Bool, not, ◌&&◌, List, [], ◌∷◌, Option, none, some, if◌then◌else◌, ◌==◌, nat_eq,
  str_keys, update, delete, length, Result, ok, err, fail,
}
use gitclub.Schema.{Db, Repo, Pull, merged_state}
use gitclub.Git.{Git, valid_branch}
use gitclub.Freshness.{refresh}

-- refs/heads/BRANCH and refs/gitclub/merges/PULL, with the object each names.
pub record Refs : Type 0 where
  pub heads : Str → Option Str
  pub ledger : ℕ → Option Str

-- mergeMarker
pub record Marker : Type 0 where
  pub pull_id : ℕ
  pub base_branch : Str
  pub base_oid : Str
  pub commit_oid : Str
  pub updated_at : ℕ

-- A file gitclub-merge-PULL.json; none is a content that is no marker in JSON.
pub record MarkerFile : Type 0 where
  pub file_pull : ℕ
  pub content : Option Marker

pub record World : Type 0 where
  pub db : Db
  pub refs : Refs
  pub markers : List MarkerFile

-- What may fail while a marker file is handled, by the number in its name; and the tip that
-- defaultOID reads, with the clock.
pub record Env : Type 0 where
  pub glob_fails : Bool
  pub read_fails : ℕ → Bool
  pub ledger_fails : ℕ → Bool
  pub update_fails : ℕ → Bool
  pub refresh_fails : ℕ → Bool
  pub remove_fails : ℕ → Bool
  pub observed : Refs → Option Str
  pub now : ℕ

abbrev pub Step : Type 0
Step = Result Unit × World

abbrev pub stop : ℕ → String → World → Step
stop status message w = (fail status message, w)

-- json.Unmarshal(data, &marker) != nil || marker.PullID <= 0 || … || marker.CommitOID == ""
unfoldable pub usable : Git → Marker → Bool
usable git m =
    not (m.pull_id == 0) && (valid_branch git m.base_branch && not (length m.commit_oid == 0))

unfoldable pub remove_marker : ℕ → World → World
remove_marker n w = record w { markers = delete (λ f. f.file_pull == n) w.markers }

abbrev pub of_marker : Repo → Marker → Pull → Bool
of_marker repo m p = p.id == m.pull_id && p.repo_id == repo.id

-- UPDATE pull_requests SET state='merged',merged_oid=?,updated_at=? WHERE id=? AND repo_id=?
unfoldable pub record_merge : Repo → Marker → World → World
record_merge repo m w = record w {
  db = record w.db {
    pull_requests =
        update (of_marker repo m)
          (λ (p : Pull). record p {
            state = merged_state;
            merged_oid = m.commit_oid;
            updated_at = m.updated_at;
          })
          w.db.pull_requests;
  };
}

-- s.refresh(repo)
unfoldable pub refresh_world : Env → Repo → World → World
refresh_world env repo w = record w { db = (refresh w.db repo (env.observed w.refs) env.now).0 }

-- A marker whose transaction is in the ledger.
unfoldable pub reconcile_applied : Env → Repo → ℕ → Marker → World → Step
reconcile_applied env repo n m w =
    if env.update_fails n
    then stop 500 "Database operation failed" w
    else let recorded = record_merge repo m w in
      if env.refresh_fails n
      then stop 500 "Database operation failed" recorded
      else let fresh = refresh_world env repo recorded in
        if env.remove_fails n
        then stop 503 "Merge recorded; recovery marker could not be cleared" fresh
        else (ok tt, remove_marker n fresh)

-- What is done about the ledger's entry for the marker.
unfoldable pub reconcile_ledger : Env → Repo → ℕ → Marker → World → Option Str → Step
reconcile_ledger env repo n m w none =
    if env.remove_fails n
    then stop 503 "Cannot clear unapplied merge recovery state" w
    else (ok tt, remove_marker n w)
reconcile_ledger env repo n m w (some oid) =
    if oid == m.commit_oid
    then reconcile_applied env repo n m w
    else stop 503 "Merge transaction ledger mismatch; inspect merge recovery state" w

unfoldable pub reconcile_marker : Env → Repo → ℕ → Marker → World → Step
reconcile_marker env repo n m w =
    if env.ledger_fails n
    then stop 503 "Cannot read merge transaction ledger" w
    else reconcile_ledger env repo n m w (w.refs.ledger m.pull_id)

unfoldable pub reconcile_content : Env → Git → Repo → ℕ → Option Marker → World → Step
reconcile_content env git repo n none w =
    stop 503 "Merge recovery state requires operator inspection" w
reconcile_content env git repo n (some m) w =
    if usable git m
    then reconcile_marker env repo n m w
    else stop 503 "Merge recovery state requires operator inspection" w

-- One round of the loop.
unfoldable pub reconcile_file : Env → Git → Repo → MarkerFile → World → Step
reconcile_file env git repo f w =
    if env.read_fails f.file_pull
    then stop 503 "Merge recovery state cannot be read" w
    else reconcile_content env git repo f.file_pull f.content w

abbrev pub and_then : Step → (World → Step) → Step
and_then (ok _, w) next = next w
and_then (err e, w) next = (err e, w)

unfoldable pub reconcile_files : Env → Git → Repo → List MarkerFile → World → Step
reconcile_files env git repo [] w = (ok tt, w)
reconcile_files env git repo (f ∷ fs) w =
    and_then (reconcile_file env git repo f w) (reconcile_files env git repo fs)

-- reconcileMerges
unfoldable pub reconcile_merges : Env → Git → Repo → World → Step
reconcile_merges env git repo w =
    if env.glob_fails
    then stop 500 "Cannot inspect merge recovery state" w
    else reconcile_files env git repo w.markers w
