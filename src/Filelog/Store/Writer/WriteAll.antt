-- ===== src/Filelog/Store/Writer/WriteAll.antt =====
-- writeAll of internal/filelog/store.go, against any disk.
use gigaquizz.Common.{
  ℕ, zero, suc, ◌+◌, ◌-◌, ◌≤◌, ◌<◌, ◌≡◌, ◌≢◌, refl, sym, ap, ◌∙◌, [], ◌++◌, Option, none, some, ltb,
  ltb-false, ◌==◌, ==_sound, ==_no, if_cases, Option-cases, ◌⊎◌, inl, inr, if◌then◌else◌, length,
  length-drop, length-take, take, drop, take-full, take-plus, arith,
}
use gigaquizz.Common.Bytes.{Bytes}
use gigaquizz.Common.Int.{ℤ, pos, negsuc}
use gigaquizz.Filelog.Store.{StoreError, io, short_write, out_of_fuel}
use gigaquizz.Filelog.Store.Writer.{Written, write_all}

-- What a call of writeAll on `b` leaves: `size` bytes written.
pub record Wrote (b : Bytes) (out : Bytes × Option StoreError) : Type 0 where
  pub size : ℕ
  pub fits : size ≤ length b
  pub start : out.0 ≡ take size b
  pub whole : out.1 ≡ none → size ≡ length b
  pub ended : out.1 ≢ some out_of_fuel

stopped :
    (b : Bytes) (n : ℕ) (e : StoreError)
    → n ≤ length b
    → e ≢ out_of_fuel
    → Wrote b (take n b, some e)
stopped b n e fits other = record {
  size = n;
  fits = fits;
  start = refl;
  whole = λ h. ground (arith, h);
  ended = λ h. ground (arith, h, other);
}

went_on :
    (b : Bytes) (n : ℕ) (out : Bytes × Option StoreError)
    → n ≤ length b
    → Wrote (drop n b) out
    → Wrote b (take n b ++ out.0, out.1)
went_on b n out fits w = record {
  size = n + w.size;
  fits = omega (arith, w.fits, length-drop n b);
  start = ap (λ t. take n b ++ t) w.start ∙ sym (take-plus n w.size b);
  whole = λ h. omega (arith, w.whole h, length-drop n b);
  ended = w.ended;
}

counted :
    (b : Bytes) (w : Written) (next : ℕ → Bytes × Option StoreError)
    → ((n : ℕ) → n ≢ 0 → n ≤ length b → Wrote (drop n b) (next n))
    → Wrote b (elim w.count [
      | negsuc m ↦ ([], some short_write)
      | pos n ↦ if ltb (length b) n then ([], some short_write) else elim w.err [
        | some e ↦ (take n b, some (io e))
        | none ↦ if n == 0 then ([], some short_write) else (take n b ++ (next n).0, (next n).1)
      ]
    ])
counted b w next h = at w.count w.err
  where
    at :
        (z : ℤ) (err : Option ℕ)
        → Wrote b (elim z [
          | negsuc m ↦ ([], some short_write)
          | pos n ↦ if ltb (length b) n then ([], some short_write) else elim err [
            | some e ↦ (take n b, some (io e))
            | none ↦ if n == 0 then ([], some short_write) else (take n b ++ (next n).0, (next n).1)
          ]
        ])
    at (negsuc m) err = stopped b 0 short_write (omega arith) (ground arith)
    at (pos n) (some e) =
        if_cases (Wrote b) (ltb (length b) n) _ _
          (λ _. stopped b 0 short_write (omega arith) (ground arith))
          (λ fits. stopped b n (io e) (ltb-false (length b) n fits) (ground arith))
    at (pos n) none =
        if_cases (Wrote b) (ltb (length b) n) _ _
          (λ _. stopped b 0 short_write (omega arith) (ground arith))
          (λ fits.
            if_cases (Wrote b) (n == 0) _ _
              (λ _. stopped b 0 short_write (omega arith) (ground arith))
              (λ more.
                went_on b n (next n) (ltb-false (length b) n fits)
                  (h n (==_no n 0 more) (ltb-false (length b) n fits))))

pub write_all-Wrote :
    (write : ℕ → Written) (fuel k : ℕ) (b : Bytes)
    → length b < fuel
    → Wrote b (write_all write fuel k b)
unfolding write_all
write_all-Wrote write zero k b h = absurd (omega arith)
write_all-Wrote write (suc fuel) k b h =
    if_cases (Wrote b) (length b == 0) _ _ (λ e. nothing (==_sound (length b) 0 e))
      (λ more.
        counted b (write k) (λ n. write_all write fuel (k + 1) (drop n b))
          (λ n some_bytes fits.
            write_all-Wrote write fuel (k + 1) (drop n b)
              (shorter n some_bytes (==_no (length b) 0 more) (length-drop n b))))
  where
    nothing : length b ≡ 0 → Wrote b ([], none)
    nothing e = record {
      size = 0;
      fits = omega arith;
      start = refl;
      whole = λ _. sym e;
      ended = ground arith;
    }

    shorter :
        (n : ℕ) → n ≢ 0 → length b ≢ 0 → length (drop n b) ≡ length b - n → length (drop n b) < fuel
    shorter n ne more size = ground arith

-- Whatever the writes return, writeAll ends; the bytes that it has written are the first bytes of what
-- it was given, and all of them when it returns no error.
pub write_all_lem :
    (write : ℕ → Written) (b : Bytes)
    → ((write_all write (length b + 1) 0 b).1 ≢ some out_of_fuel)
      × ((write_all write (length b + 1) 0 b).0
          ≡ take (length (write_all write (length b + 1) 0 b).0) b)
      × (((write_all write (length b + 1) 0 b).1 ≢ none)
          ⊎ ((write_all write (length b + 1) 0 b).0 ≡ b))
write_all_lem write b =
    let out = write_all write (length b + 1) 0 b in
    let w = write_all-Wrote write (length b + 1) 0 b (omega arith) in
    let size : length (out.0) ≡ w.size = ap length w.start ∙ length-take w.size b w.fits in
    (
      w.ended,
      w.start ∙ ap (λ k. take k b) (sym size),
      elim (Option-cases (out.1)) [
        | inl ok ↦ inr (w.start ∙ take-full w.size b (omega (arith, w.whole ok)))
        | inr (e, failed) ↦ inl (λ ok. ground (arith, failed, ok))
      ],
    )
