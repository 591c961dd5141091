-- ===== src/Loadtest.antt =====
-- cmd/loadtest/scheduler.go: the open-loop schedule. Times are nanoseconds; a negative `elapsed` counts
-- as 0, which gives the same number of slots. int64 wraps at 2 ^ 64 as a bit pattern.
pub mod Slots
mod Tests
use gigaquizz.Common.{ℕ, ◌+◌, ◌-◌, ◌*◌, ◌/◌, ◌%◌, ◌^◌, ◌==◌, if◌then◌else◌}
use gigaquizz.GoTime.{second}

abbrev pub int64 : ℕ → ℕ
int64 x = x % 2 ^ 64

-- `slotsBefore`
pub slots_before : ℕ → ℕ → ℕ
slots_before elapsed rate =
    if elapsed == 0
    then 0
    else int64 (
        int64 (elapsed / second * rate)
        + (int64 (int64 (elapsed % second * rate) + second) - 1) / second)

-- `slotOffset`
pub slot_offset : ℕ → ℕ → ℕ
slot_offset sequence rate =
    int64 (int64 (sequence / rate * second) + int64 (sequence % rate * second) / rate)
