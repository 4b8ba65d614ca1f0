-- ===== src/RateLimit/Running.antt =====
-- The attempts that run, counted by their hosts.
use gitclub.Base.{
  ℕ, ◌+◌, ◌≤◌, ◌≡◌, inl, inr, Str, false, List, [], ◌∷◌, arith, str_keys, str_eq_refl, length, In,
  ◌==◌, if◌then◌else◌, str_eq,
}
use gitclub.RateLimit.{without}

-- How many of the attempts are a host's.
unfoldable pub running_of : Str → List Str → ℕ
running_of host [] = 0
running_of host (h ∷ hs) = (if h == host then 1 else 0) + running_of host hs

pub running_of-le : (host : Str) (hs : List Str) → running_of host hs ≤ length hs
unfolding running_of
running_of-le host [] = omega arith
running_of-le host (h ∷ hs) = ground (arith, running_of-le host hs)

pub running_of-cons :
    (host h : Str) (hs : List Str) → running_of host (h ∷ hs) ≤ running_of host hs + 1
unfolding running_of
running_of-cons host h hs = ground arith

pub running_of-other :
    (host h : Str) (hs : List Str)
    → str_eq h host ≡ false
    → running_of host (h ∷ hs) ≤ running_of host hs
unfolding running_of
running_of-other host h hs o = ground (arith, o)

pub running_of-without :
    (host h : Str) (hs : List Str) → running_of host (without h hs) ≤ running_of host hs
unfolding running_of without
running_of-without host h [] = omega arith
running_of-without host h (x ∷ hs) = ground (arith, running_of-without host h hs)

-- One of a host's attempts has ended.
pub without-own :
    (host : Str) (hs : List Str)
    → In host hs
    → running_of host (without host hs) + 1 ≤ running_of host hs
unfolding running_of without
without-own host [] m = elim m [ ]
without-own host (x ∷ hs) (inl e) = rw (e, str_eq_refl host) (omega arith)
without-own host (x ∷ hs) (inr m) = ground (arith, without-own host hs m)

pub length-without :
    (host : Str) (hs : List Str) → In host hs → length (without host hs) + 1 ≤ length hs
unfolding without
length-without host [] m = elim m [ ]
length-without host (x ∷ hs) (inl e) = rw (e, str_eq_refl host) (omega arith)
length-without host (x ∷ hs) (inr m) = ground (arith, length-without host hs m)
