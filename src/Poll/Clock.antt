-- ===== src/Poll/Clock.antt =====
-- How a poll's state moves with the clock.
use gigaquizz.Common.{ℕ, ◌≤◌, ◌<◌, ◌≡◌, ◌↔◌, ◌⊎◌, Option, none, arith}
use gigaquizz.Poll.{Poll, State, scheduled, open_, processing, final, state}

-- The order in which a poll goes through its states.
abbrev pub rank : State → ℕ
rank scheduled = 0
rank open_ = 1
rank processing = 2
rank final = 3

-- As the clock goes on, and once FinalizedAt is set, a poll never goes back to an earlier state.
pub state_mono :
    (p : Poll) (now later : ℕ) (finalized : Option ℕ)
    → now ≤ later
    → (p.finalized_at ≡ none) ⊎ (finalized ≡ p.finalized_at)
    → rank (state p now) ≤ rank (state (record p { finalized_at = finalized }) later)
unfolding state
state_mono p now later finalized h k = ground arith

-- A poll that is not finalized and does not end before it starts takes votes exactly from its start
-- to just before its end, waits before the start, and counts from the end on.
pub state_window :
    (p : Poll) (now : ℕ)
    → p.finalized_at ≡ none
    → p.starts_at ≤ p.ends_at
    → ((state p now ≡ scheduled) ↔ (now < p.starts_at))
      × ((state p now ≡ open_) ↔ ((p.starts_at ≤ now) × (now < p.ends_at)))
      × ((state p now ≡ processing) ↔ (p.ends_at ≤ now))
unfolding state
state_window p now h k = ground arith
