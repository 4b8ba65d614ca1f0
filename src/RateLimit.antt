-- ===== src/RateLimit.antt =====
-- The limit on failed sign-ins: rate and authAttempt of implementations/go/main.go. The map is an
-- association list; times are nanoseconds, and none is the zero time. The handler runs between the two
-- places that hold the lock, so attempts overlap: a schedule is a sequence of turns.
pub mod Tables
pub mod Running
pub mod Bounds
use gitclub.Base.{
  ℕ, suc, ◌+◌, ◌-◌, ◌*◌, ◌^◌, Str, Bool, true, false, not, ◌&&◌, ◌||◌, List, [], ◌∷◌, In, ◌≤◌,
  Option, none, some, ltb, leb, if◌then◌else◌, ◌==◌, str_keys, length, delete, Result, Check, ok,
  err, ApiError, fail,
}

pub record RateEntry : Type 0 where
  pub count : ℕ
  pub since : Option ℕ

abbrev pub Rates : Type 0
Rates = List (Str × RateEntry)

abbrev pub minute : ℕ
minute = 60 * 10 ^ 9

-- t.Sub(v.since) > time.Minute
unfoldable pub expired : ℕ → RateEntry → Bool
expired t v = elim v.since [ none ↦ true | some s ↦ ltb minute (t - s) ]

-- s.rates[host], with the zero entry for a host that is not there
unfoldable pub rate_of : Str → Rates → RateEntry
rate_of host [] = record { count = 0; since = none }
rate_of host ((h, v) ∷ rest) = let other = rate_of host rest in if h == host then v else other

-- s.rates[host] = v
unfoldable pub set_rate : Str → RateEntry → Rates → Rates
set_rate host v [] = (host, v) ∷ []
set_rate host v ((h, x) ∷ rest) =
    let other = set_rate host v rest in if h == host then (h, v) ∷ rest else (h, x) ∷ other

abbrev pub current : ℕ → RateEntry → RateEntry
current t v = if expired t v then record { count = 0; since = some t } else v

-- The entry is stored, and a host with twenty failures is refused.
unfoldable pub admit : Str → RateEntry → Rates → Check × Rates
admit host v rates = (
  if leb 20 v.count
      then fail 429 "Too many authentication attempts; retry in one minute"
      else ok tt,
  set_rate host v rates,
)

abbrev pub pruned : ℕ → Rates → Rates
pruned t rates = delete (λ (e : Str × RateEntry). expired t e.1) rates

-- rate
unfoldable pub rate : ℕ → Str → Rates → Check × Rates
rate t host rates =
    let v = current t (rate_of host rates) in
    if leb 4096 (length rates)
    then (if leb 4096 (length (pruned t rates))
        then (fail 429 "Authentication busy; retry in one minute", pruned t rates)
        else admit host v (pruned t rates))
    else admit host v rates

-- The deferred function of authAttempt, on the result of the handler: a failure with a status from 400
-- to 499 counts.
unfoldable pub count_failure : Str → Check → Rates → Rates
count_failure host (ok _) rates = rates
count_failure host (err e) rates =
    if leb 400 e.status && ltb e.status 500
    then (let v = rate_of host rates in set_rate host (record v { count = v.count + 1 }) rates)
    else rates

-- The attempts whose handler runs, by their hosts: each passed rate and has not met the deferred function.
pub record Attempts : Type 0 where
  pub rates : Rates
  pub running : List Str

unfoldable pub without : Str → List Str → List Str
without host [] = []
without host (h ∷ hs) = let others = h ∷ without host hs in if h == host then hs else others

unfoldable pub begun : Str → List Str → Check × Rates → Check × Attempts
begun host running (err e, after) = (err e, record { rates = after; running = running })
begun host running (ok _, after) = (ok tt, record { rates = after; running = host ∷ running })

-- authAttempt holds the lock for rate; a refusal leaves the route.
unfoldable pub begin : ℕ → Str → Attempts → Check × Attempts
begin t host a = begun host a.running (rate t host a.rates)

-- The deferred function takes the lock again, once the handler has answered.
unfoldable pub finish : Str → Check → Attempts → Attempts
finish host handler a = record {
  rates = count_failure host handler a.rates;
  running = without host a.running;
}

-- What requests do to the table, in any order.
pub data Turn (a : Attempts) : Attempts → Type 0 where
  begins : (t : ℕ) (host : Str) → Turn a (begin t host a).1
  finishes : (host : Str) (handler : Check) → In host a.running → Turn a (finish host handler a)

-- The tables of a server on which at most n handlers run at once.
pub data Reached (n : ℕ) : Attempts → Type 0 where
  start : Reached n (record { rates = []; running = [] })
  turn : {a b : Attempts} → Reached n a → Turn a b → length b.running ≤ n → Reached n b
