-- ===== src/Loadtest/Slots.antt =====
-- Which slots of the schedule lie before an instant.
use gigaquizz.Common.{
  ℕ, ◌+◌, ◌-◌, ◌*◌, ◌/◌, ◌%◌, ◌^◌, ◌≤◌, ◌<◌, ◌≡◌, ◌↔◌, sym, ap, ◌∙◌, Bool-cases, inl, inr, ◌==◌,
  ==_sound, arith,
}
use gigaquizz.GoTime.{second}
use native.Mathlib.Nat.{
  add-mul, mul_right_comm, mul-le-mul, zero-mul, mul_comm, div-le_self, mod-lt, div-add-mod,
  lt-div-mul-add, div-mul-le_self,
}
use gigaquizz.Loadtest.{int64, slots_before, slot_offset}

-- The whole seconds give `n` slots, and the rest of a second `m` parts of a slot.
slots_split :
    (n m i : ℕ)
    → n < 10 ^ 18
    → m < 10 ^ 17
    → (i < int64 (int64 n + (int64 (int64 m + second) - 1) / second))
      ↔ (i * second < n * second + m)
slots_split n m i few small = (λ h. omega arith, λ h. omega arith)

seconds_and_rest :
    (elapsed rate : ℕ) → elapsed * rate ≡ elapsed / second * rate * second + elapsed % second * rate
seconds_and_rest elapsed rate =
    let split : elapsed ≡ elapsed / second * second + elapsed % second = omega arith in
    ap (λ e. e * rate) split
    ∙ add-mul (elapsed / second * second) (elapsed % second) rate
    ∙ ap (λ x. x + elapsed % second * rate) (mul_right_comm (elapsed / second) second rate)

-- Slot `i` is counted by slotsBefore exactly when its instant, `i / rate` seconds, is strictly before
-- `elapsed`: for rates of 1 to 10000000 slots a second, which the command accepts, and every elapsed time below 2 ^ 63 nanoseconds
-- nothing overflows on the way.
pub slots_before_lem :
    (elapsed rate i : ℕ)
    → 1 ≤ rate
    → rate ≤ 10_000_000
    → elapsed < 2 ^ 63
    → (i < slots_before elapsed rate) ↔ (i * second < elapsed * rate)
unfolding slots_before
slots_before_lem elapsed rate i low high range =
    let seconds : elapsed / second ≤ 9_223_372_037 = omega arith in
    let part : elapsed % second ≤ second = omega arith in
    let whole : elapsed / second * rate ≤ 9_223_372_037 * 10_000_000 = mul-le-mul seconds high in
    let rest : elapsed % second * rate ≤ second * 10_000_000 = mul-le-mul part high in
    let (there, back) =
      slots_split (elapsed / second * rate) (elapsed % second * rate) i (omega arith)
        (omega arith) in
    elim (Bool-cases (elapsed == 0)) [
      | inl none_yet ↦
          let zero_time : elapsed ≡ 0 = ==_sound elapsed 0 none_yet in
          rw zero_time ((λ h. absurd (omega arith)), λ h. absurd (omega (arith, zero-mul rate)))
      | inr some_time ↦ rw some_time (rw (seconds_and_rest elapsed rate) (there, back))
    ]

-- The instant that slotOffset gives is the ideal one, `sequence / rate` seconds, rounded down to a
-- nanosecond, and nothing overflows on the way. `sequence` is at most 2 ^ 33 and the rate is one that
-- the command accepts.
pub slot_offset_lem :
    (sequence rate : ℕ)
    → 1 ≤ rate
    → rate ≤ 10_000_000
    → sequence ≤ 2 ^ 33
    → (slot_offset sequence rate * rate ≤ sequence * second)
      × (sequence * second < slot_offset sequence rate * rate + rate)
unfolding slot_offset
slot_offset_lem sequence rate low high few =
    let q = sequence / rate in
    let t = sequence % rate in
    let parts : sequence ≡ q * rate + t =
      sym (div-add-mod sequence rate) ∙ ap (λ x. x + t) (mul_comm rate q) in
    let q_small : q ≤ sequence = div-le_self sequence rate in
    let t_small : t < rate = mod-lt sequence low in
    let x_small : t * second / rate ≤ t * second = div-le_self (t * second) rate in
    let below : t * second / rate * rate ≤ t * second = div-mul-le_self (t * second) rate in
    let above : t * second < t * second / rate * rate + rate = lt-div-mul-add low in
    let exact : int64 (int64 (q * second) + int64 (t * second) / rate)
        ≡ q * second + t * second / rate =
      let small : int64 (t * second) ≡ t * second = omega arith in rw small (omega arith) in
    let product : (q * second + t * second / rate) * rate
        ≡ q * rate * second + t * second / rate * rate =
      add-mul (q * second) (t * second / rate) rate
      ∙ ap (λ x. x + t * second / rate * rate) (mul_right_comm q second rate) in
    rw exact (rw product (omega arith, omega arith))
