-- ===== src/Tests/Filling.antt =====
-- The slots of git when every transfer that may run does.
use gitclub.Base.{ℕ, ◌≢◌, ◌≤◌, ◌⊎◌, refl, none, arith}
use gitclub.Slots.{
  Slots, begin_read, enter_transfer, begin_transfer, git_used, transfer_used, Reached, start, turn,
  read_begins, transfer_enters, transfer_begins, begin_read_waits,
}

abbrev running : ℕ → ℕ → Slots
running reads transfers = record { reads = reads; transfers = transfers; entering = 0 }

abbrev entered : ℕ → Slots
entered transfers = record { reads = 0; transfers = transfers; entering = 1 }

reached_1 : Reached (running 0 1)
unfolding enter_transfer begin_transfer
reached_1 =
    turn {t = running 0 1} (turn start (transfer_enters (entered 0) refl))
      (transfer_begins (omega arith))

reached_2 : Reached (running 0 2)
unfolding enter_transfer begin_transfer
reached_2 =
    turn {t = running 0 2} (turn reached_1 (transfer_enters (entered 1) refl))
      (transfer_begins (omega arith))

reached_3 : Reached (running 0 3)
unfolding enter_transfer begin_transfer
reached_3 =
    turn {t = running 0 3} (turn reached_2 (transfer_enters (entered 2) refl))
      (transfer_begins (omega arith))

reached_4 : Reached (running 0 4)
unfolding enter_transfer begin_transfer
reached_4 =
    turn {t = running 0 4} (turn reached_3 (transfer_enters (entered 3) refl))
      (transfer_begins (omega arith))

reached_5 : Reached (running 0 5)
unfolding enter_transfer begin_transfer
reached_5 =
    turn {t = running 0 5} (turn reached_4 (transfer_enters (entered 4) refl))
      (transfer_begins (omega arith))

reached_6 : Reached (running 0 6)
unfolding enter_transfer begin_transfer
reached_6 =
    turn {t = running 0 6} (turn reached_5 (transfer_enters (entered 5) refl))
      (transfer_begins (omega arith))

reached_full : Reached (running 2 6)
unfolding begin_read
reached_full =
    turn (turn reached_6 (read_begins (running 1 6) refl)) (read_begins (running 2 6) refl)

begin_read_waits_example :
    (git_used (running 2 6) ≤ 8)
    × (transfer_used (running 2 6) ≤ 6)
    × ((begin_read (running 2 6) ≢ none) ⊎ (2 ≤ (running 2 6).reads))
begin_read_waits_example = begin_read_waits (running 2 6) reached_full
