-- ===== src/RateLimit/Bounds.antt =====
-- The table of failures stays bounded, and so does every count in it.
use gitclub.Base.{
  ℕ, ◌+◌, ◌-◌, none, ◌≤◌, ◌<◌, ◌≡◌, inl, inr, refl, subst, Str, true, false, ◌&&◌, List, [], ◌∷◌,
  Option, some, arith, ltb, leb, str_keys, str_eq_iff, length, All, In, Check, ok, err, fail,
  Bool-cases, str_eq,
}
use gitclub.RateLimit.Running.{
  running_of, running_of-le, running_of-cons, running_of-other, running_of-without, without-own,
  length-without,
}
use gitclub.RateLimit.Tables.{
  Unique, length-set_rate, rate_of-set_rate, length-pruned, set_rate-All, set_rate-Unique,
  pruned-All, pruned-Unique, weaken,
}
use gitclub.RateLimit.{
  RateEntry, Rates, expired, rate_of, current, admit, pruned, rate, count_failure, Attempts,
  without, begun, begin, finish, begins, finishes, Reached, start, turn, minute,
}

-- The failures of a host with those that its running attempts may add are at most n and nineteen.
abbrev HasRoom : ℕ → List Str → (Str × RateEntry) → Type 0
HasRoom n running e = e.1.count + running_of e.0 running ≤ 19 + n

record IsBounded (n : ℕ) (a : Attempts) : Type 0 where
  hosts : length a.rates + length a.running ≤ 4096 + n
  running : length a.running ≤ n
  unique : Unique a.rates
  counts : All (HasRoom n a.running) a.rates

rate_of-HasRoom :
    (n : ℕ) (running : List Str) (host : Str) (rates : Rates)
    → length running ≤ n
    → All (HasRoom n running) rates
    → (rate_of host rates).count + running_of host running ≤ 19 + n
unfolding rate_of
rate_of-HasRoom n running host [] l all = omega (arith, l, running_of-le host running)
rate_of-HasRoom n running host ((h, x) ∷ rest) l all = elim (Bool-cases (str_eq h host)) [
  | inl t ↦
      rw t (subst (λ k. x.count + running_of k running ≤ 19 + n) ((str_eq_iff h host).0 t) all.0)
  | inr t ↦ rw t (rate_of-HasRoom n running host rest l all.1)
]

-- A host that is stored and not refused has one more attempt that runs.
IsBounded-admit :
    (n : ℕ) (host : Str) (v : RateEntry) (rates : Rates) (running : List Str)
    → length rates < 4096
    → length running ≤ n
    → Unique rates
    → All (HasRoom n running) rates
    → v.count + running_of host running ≤ 19 + n
    → length (begun host running (admit host v rates)).1.running ≤ n
    → IsBounded n (begun host running (admit host v rates)).1
unfolding begun admit
IsBounded-admit n host v rates running few l one all room fits =
    elim (Bool-cases (leb 20 v.count)) [
      | inl full ↦ rw full (record {
        hosts = omega (arith, length-set_rate host v rates, few, l);
        running = l;
        unique = set_rate-Unique host v rates one;
        counts =
            set_rate-All (HasRoom n running) (HasRoom n running) host v rates (λ e o p. p) room one
              all;
      })
      | inr free ↦
          let l2 : length (host ∷ running) ≤ n = (rw free at fits) in
          let l1 : length running + 1 ≤ n = omega (arith, l2) in
          let below : v.count ≤ 19 = ground (arith, free) in
          rw free (record {
            hosts = omega (arith, length-set_rate host v rates, few, l1);
            running = l2;
            unique = set_rate-Unique host v rates one;
            counts =
                set_rate-All (HasRoom n running) (HasRoom n (host ∷ running)) host v rates
                  (λ e o p. omega (arith, running_of-other e.0 host running o, p))
                  (omega (
                    arith,
                    running_of-cons host host running,
                    running_of-le host running,
                    below,
                    l1,
                  ))
                  one all;
          })
    ]

current-le : (t : ℕ) (v : RateEntry) → (current t v).count ≤ v.count
current-le t v = ground arith

begin-IsBounded :
    (n t : ℕ) (host : Str) (a : Attempts)
    → IsBounded n a
    → length (begin t host a).1.running ≤ n
    → IsBounded n (begin t host a).1
unfolding begin rate begun
begin-IsBounded n t host a b fits =
    let v = current t (rate_of host a.rates) in
    let room : v.count + running_of host a.running ≤ 19 + n = omega (
      arith,
      current-le t (rate_of host a.rates),
      rate_of-HasRoom n a.running host a.rates b.running b.counts,
    ) in
    elim (Bool-cases (leb 4096 (length a.rates))) [
      | inr f ↦ rw f (
          IsBounded-admit n host v a.rates a.running (ground (arith, f)) b.running b.unique b.counts
            room (rw f at fits))
      | inl f ↦ elim (Bool-cases (leb 4096 (length (pruned t a.rates)))) [
        | inl g ↦
            rw (f, g, begun)
              (record {
                hosts = omega (arith, length-pruned t a.rates, b.hosts);
                running = b.running;
                unique = pruned-Unique t a.rates b.unique;
                counts = pruned-All (HasRoom n a.running) t a.rates b.counts;
              })
        | inr g ↦
            rw (f, g)
              (IsBounded-admit n host v (pruned t a.rates) a.running (ground (arith, g)) b.running
                (pruned-Unique t a.rates b.unique)
                (pruned-All (HasRoom n a.running) t a.rates b.counts) room (rw (f, g) at fits))
      ]
    ]

finish-IsBounded :
    (n : ℕ) (host : Str) (handler : Check) (a : Attempts)
    → In host a.running
    → IsBounded n a
    → IsBounded n (finish host handler a)
unfolding finish count_failure
finish-IsBounded n host handler a m b = counted handler
  where
    fewer : length (without host a.running) + 1 ≤ length a.running
    fewer = length-without host a.running m

    uncounted : IsBounded n (record { rates = a.rates; running = without host a.running })
    uncounted = record {
      hosts = omega (arith, fewer, b.hosts);
      running = omega (arith, fewer, b.running);
      unique = b.unique;
      counts =
          weaken (HasRoom n a.running) (HasRoom n (without host a.running)) a.rates
            (λ e p. omega (arith, running_of-without e.0 host a.running, p)) b.counts;
    }

    one_more : RateEntry
    one_more = record (rate_of host a.rates) { count = (rate_of host a.rates).count + 1 }

    counted :
        (c : Check)
        → IsBounded n
            (record { rates = count_failure host c a.rates; running = without host a.running })
    counted (ok _) = uncounted
    counted (err e) = elim (Bool-cases (leb 400 e.status && ltb e.status 500)) [
      | inr u ↦ rw u uncounted
      | inl u ↦ rw u (record {
        hosts = omega (arith, fewer, b.hosts, length-set_rate host one_more a.rates);
        running = omega (arith, fewer, b.running);
        unique = set_rate-Unique host one_more a.rates b.unique;
        counts =
            set_rate-All (HasRoom n a.running) (HasRoom n (without host a.running)) host one_more
              a.rates (λ e o p. omega (arith, running_of-without e.0 host a.running, p))
              (omega (
                arith,
                without-own host a.running m,
                rate_of-HasRoom n a.running host a.rates b.running b.counts,
              ))
              b.unique b.counts;
      })
    ]

Reached-IsBounded : (n : ℕ) (a : Attempts) → Reached n a → IsBounded n a
Reached-IsBounded n a start = record {
  hosts = omega arith;
  running = omega arith;
  unique = tt;
  counts = tt;
}
Reached-IsBounded n b (turn {a} r (begins t host) l) =
    begin-IsBounded n t host a (Reached-IsBounded n a r) l
Reached-IsBounded n b (turn {a} r (finishes host handler m) l) =
    finish-IsBounded n host handler a m (Reached-IsBounded n a r)

-- From an empty table, however attempts to sign in begin and end, and whatever their handlers answer,
-- where at most n handlers run at once the table has at most n hosts above 4096, and no host has more
-- than n counted failures above 19: 20 where attempts never overlap.
pub rate_of-Reached :
    (n : ℕ) (a : Attempts) (host : Str)
    → Reached n a
    → (length a.rates ≤ 4096 + n) × ((rate_of host a.rates).count ≤ 19 + n)
rate_of-Reached n a host r =
    let b = Reached-IsBounded n a r in
    (
      omega (arith, b.hosts),
      omega (arith, rate_of-HasRoom n a.running host a.rates b.running b.counts),
    )

-- A host whose entry has twenty failures or more and was begun at most a minute ago, by whichever
-- attempt began it, is refused with 429 in a table with room: its handler does not run, and its entry
-- stays.
pub begin_refused :
    (t s : ℕ) (host : Str) (a : Attempts)
    → length a.rates < 4096
    → (rate_of host a.rates).since ≡ some s
    → t ≤ s + minute
    → 20 ≤ (rate_of host a.rates).count
    → ((begin t host a).0 ≡ fail 429 "Too many authentication attempts; retry in one minute")
      × ((begin t host a).1.running ≡ a.running)
      × (rate_of host (begin t host a).1.rates ≡ rate_of host a.rates)
unfolding begin rate admit begun expired
begin_refused t s host a l since recent full =
    let fresh : expired t (rate_of host a.rates) ≡ false =
      at_entry (rate_of host a.rates).since since in
    let e : current t (rate_of host a.rates) ≡ rate_of host a.rates = rw fresh refl in
    let f : leb 20 (rate_of host a.rates).count ≡ true = ground arith in
    let g : leb 4096 (length a.rates) ≡ false = ground arith in
    rw (g, e, f) (refl, refl, rate_of-set_rate host (rate_of host a.rates) a.rates)
  where
    at_entry :
        (o : Option ℕ) → o ≡ some s → elim o [ none ↦ true | some s' ↦ ltb minute (t - s') ] ≡ false
    at_entry none e = cc
    at_entry (some s') e = let same : s' ≡ s = cc in ground (arith, same, recent)
