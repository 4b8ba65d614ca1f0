-- ===== src/Lib.antt =====
-- The GitClub server of implementations/go: who may do what, how a push and a merge are let through,
-- and how a merge that was cut off is recovered.
--
-- The parts and their files:
-- - Schema: the rows of shared/migrations/001_initial.sql (with the columns of 002_kaneo.sql), Db.
-- - Access (Levels, Roles, Guard, Backup): rank of main.go; isBackupUser, role, repo and
--   configureBackupUser of repositories.go.
-- - Git: oidPattern, validBranch and resolve of git.go, pullTips of collaboration.go.
-- - Pulls (Blockers, Scan, Mergeable): pullBlockers of collaboration.go, and the description MayMerge.
-- - Merge: World holds reconcileMerges, Route the merge route with durableMarker, Endpoint the whole
--   request (the entry of collaborationRoutes in front of it). Invariant says what ties the table, the
--   ledger under refs/gitclub/merges/ and the marker files together; Recording, Removal, Reconcile,
--   Loop, Torn, Safety, Answers, Success and Request carry it through the steps, and History through
--   sequences of requests, pushes and kills.
-- - StoredRefs (Chain): safeStoredRef, boundedRefFile and defaultOID of git.go.
-- - Freshness (Stored): refresh of git.go, which merges, reconciliation and the hook call.
-- - Hook (Handler): gitHook of git.go.
-- - RateLimit (Tables, Running, Bounds): rate and authAttempt of main.go, as turns of attempts that overlap.
-- - CappedOutput: cappedOutput of git.go.
-- - Pulls.Discussion, Pulls.Paths, Pulls.Comments: discussionText, the PATCH of a pull request, and the
--   routes reviews and comments of collaboration.go; Pulls.Opening: POST /pulls. Pulls.Reviewing, Merge.Editing and
--   Merge.Opening say what they keep.
-- - Namespaces (Admins): nameOK, requireUser, and the two writing branches of namespaces in
--   repositories.go.
-- - Sessions (Passwords, Tokens, Accounts): passwordHash, passwordMatches, newToken, authenticate and the
--   routes register, login and logout of main.go; Presenting, Enrolling and Returning say what they mean
--   for each other.
-- - Entry (Intent): the guards of ServeHTTP in main.go, and which handler a request reaches.
-- - Database (Placeholders, Migrations): rebind and migrate of db.go; Runs, Resume and Again say what each
--   start may rely on, whatever went wrong in the ones before it.
-- - Repositories (Settings, Catalogue): POST, PATCH, pin and members of repositories.go.
-- - Kaneo (Links, Readers, Paging): kaneo.go, its addresses and kaneoMerges.
-- - Ssh (Command, Keys, Expiry, Grants): sshCommandPattern and sshRoutes of git.go.
-- - Slots: the slots of gitReadWaiting and gitHTTP in git.go, with the capacities of main.go.
-- - GitHttp: the guards of gitHTTP in git.go, in front of the transfer.
-- - Groups (Editing): group, groupView, and creating, changing and deleting a group; Listing
--   (Order, Selection, Shown): GET /repositories; both of repositories.go.
-- - Base: lists with membership, byte strings, results, and a sort; Tests: the theorems on an example.
--
-- How the code is read: a string is the list of its bytes, strings.TrimSpace is read on ASCII white
-- space and strings.ToLower on ASCII letters; identifiers and times are natural numbers; a panic with an
-- apiError is the value err. The database is a record of lists of rows, and a statement a function on it.
-- Where the code runs git, asks the file system, ssh-keygen or PostgreSQL's own parser, or reads the clock
-- or the random source, the answer is an argument (Git, Files, Env, MergeEnv, exec), so that a theorem
-- holds for every answer; the key derivation (Kdf), the hash of a token and net/url (UrlPackage) are such
-- arguments too. What may go wrong with the disk, with a run of update-ref and with a run of the
-- migrations is written out: a marker's file may stay behind an error (Disk), update-ref may commit
-- without a report (Fate), and each query of a migration may fail, a COMMIT with its work done (Faults).
-- The repository lock makes the requests of a History sequential; a push may stand between any two of
-- them. Attempts to sign in and runs of git overlap in any order.
--
-- Bounds: defaultOID follows at most 8 refs, which is the code's own bound; itoa runs as many
-- rounds as the number, which the file proves to be enough; nothing else of the code runs on fuel.
--
-- Not modelled: sockets, JSON, the attributes of cookies, the git transports, the running of processes,
-- the SQL driver and lockRepo, MCP, gitRoutes, initializeRepo, the dispatch of api, the views of one
-- repository and of pull requests, and the listing of groups, namespaces and comments.
pub mod Base
pub mod Schema
pub mod Access
pub mod Git
pub mod Namespaces
pub mod Groups
pub mod Listing
pub mod Pulls
pub mod StoredRefs
pub mod Freshness
pub mod Hook
pub mod RateLimit
pub mod CappedOutput
pub mod Sessions
pub mod Entry
pub mod Database
pub mod Repositories
pub mod Kaneo
pub mod Slots
pub mod Ssh
pub mod GitHttp
pub mod Merge
pub mod Tests
