-- ===== src/Slots.antt =====
-- The slots that gitReadWaiting and gitHTTP of implementations/go/git.go take before they run git, with
-- the capacities of main.go. A slot is a place in a channel, taken by a send and given back by a receive;
-- a run holds its slots until git has ended, which it does by its timeout at the latest.
use gitclub.Base.{
  ℕ, suc, ◌+◌, ◌-◌, ◌≡◌, ◌≢◌, ◌≤◌, ◌<◌, ◌⊎◌, inl, inr, Option, none, some, arith, ltb,
  if◌then◌else◌, Bool-cases,
}

-- The runs that hold slots: reads of git, a hook's merge-base among them; transfers; and transfers that
-- have their own slot and not yet one of git's.
pub record Slots : Type 0 where
  pub reads : ℕ
  pub transfers : ℕ
  pub entering : ℕ

abbrev pub git_capacity : ℕ
git_capacity = 8

abbrev pub transfer_capacity : ℕ
transfer_capacity = 6

abbrev pub git_used : Slots → ℕ
git_used s = s.reads + s.transfers

abbrev pub transfer_used : Slots → ℕ
transfer_used s = s.transfers + s.entering

-- A read sends to gitSlots; none is a full channel, at which a plain read fails and a hook waits.
unfoldable pub begin_read : Slots → Option Slots
begin_read s =
    if ltb (git_used s) git_capacity then some (record s { reads = suc s.reads }) else none

-- A transfer sends to transferSlots first.
unfoldable pub enter_transfer : Slots → Option Slots
enter_transfer s =
    if ltb (transfer_used s) transfer_capacity
    then some (record s { entering = suc s.entering })
    else none

-- Then it sends to gitSlots; where that is full it fails and gives back the slot that it has.
unfoldable pub begin_transfer : Slots → Slots
begin_transfer s =
    if ltb (git_used s) git_capacity
    then record s { transfers = suc s.transfers; entering = s.entering - 1 }
    else record s { entering = s.entering - 1 }

-- What happens to the slots, in any order.
pub data Turn (s : Slots) : Slots → Type 0 where
  read_begins : (t : Slots) → begin_read s ≡ some t → Turn s t
  read_ends : 0 < s.reads → Turn s (record s { reads = s.reads - 1 })
  transfer_enters : (t : Slots) → enter_transfer s ≡ some t → Turn s t
  transfer_begins : 0 < s.entering → Turn s (begin_transfer s)
  transfer_ends : 0 < s.transfers → Turn s (record s { transfers = s.transfers - 1 })

pub data Reached : Slots → Type 0 where
  start : Reached (record { reads = 0; transfers = 0; entering = 0 })
  turn : {s t : Slots} → Reached s → Turn s t → Reached t

abbrev pub Fits : Slots → Type 0
Fits s = (git_used s ≤ git_capacity) × (transfer_used s ≤ transfer_capacity)

begin_read-Fits : (s t : Slots) → Fits s → begin_read s ≡ some t → Fits t
unfolding begin_read
begin_read-Fits s t f h = ground (arith, h, f.0, f.1)

enter_transfer-Fits : (s t : Slots) → Fits s → enter_transfer s ≡ some t → Fits t
unfolding enter_transfer
enter_transfer-Fits s t f h = ground (arith, h, f.0, f.1)

begin_transfer-Fits : (s : Slots) → 0 < s.entering → Fits s → Fits (begin_transfer s)
unfolding begin_transfer
begin_transfer-Fits s some_entering f = ground (arith, f.0, f.1, some_entering)

Turn-Fits : {s t : Slots} → Turn s t → Fits s → Fits t
Turn-Fits {s} (read_begins t h) f = begin_read-Fits s t f h
Turn-Fits {s} (read_ends h) f = (omega (arith, f.0), f.1)
Turn-Fits {s} (transfer_enters t h) f = enter_transfer-Fits s t f h
Turn-Fits {s} (transfer_begins h) f = begin_transfer-Fits s h f
Turn-Fits {s} (transfer_ends h) f = (omega (arith, f.0), omega (arith, f.1))

pub Reached-Fits : {s : Slots} → Reached s → Fits s
Reached-Fits start = (omega arith, omega arith)
Reached-Fits (turn r t) = Turn-Fits t (Reached-Fits r)

-- However runs begin and end, at most eight hold a slot of git's, at most six are transfers or wait for
-- their second slot, and a read of git, a hook's among them, finds a slot free, unless two reads already
-- hold one.
pub begin_read_waits :
    (s : Slots)
    → Reached s
    → (git_used s ≤ 8) × (transfer_used s ≤ 6) × ((begin_read s ≢ none) ⊎ (2 ≤ s.reads))
unfolding begin_read
begin_read_waits s r =
    let (g, t) = Reached-Fits r in
    (
      g,
      t,
      elim (Bool-cases (ltb (git_used s) git_capacity)) [
        | inl free ↦ inl (rw free (λ e. cc))
        | inr full ↦ inr (ground (arith, full, g, t))
      ],
    )
