-- ===== src/Corebench.antt =====
-- cmd/corebench: the latency histogram and the bitmap of expected choices (metrics.go). Means are not
-- modelled: they are float64.
pub mod Buckets
pub mod Bitmap
mod Tests
use gigaquizz.Common.{
  ℕ, zero, suc, ◌+◌, ◌-◌, ◌*◌, ◌/◌, ◌%◌, ◌^◌, Bool, List, [], ◌∷◌, map, max, bit_and, bit_or, ltb,
  leb, ◌==◌, if◌then◌else◌, length, get_or, set, replicate,
}
use gigaquizz.Common.Bytes.{Bytes}

-- `bits.Len64`: the number of halvings until nothing is left; 64 are enough.
abbrev pub halvings : ℕ → ℕ → ℕ
halvings zero n = 0
halvings (suc k) n = let rest = halvings k (n / 2) in if n == 0 then 0 else 1 + rest

unfoldable pub len64 : ℕ → ℕ
len64 n = halvings 64 n

-- `histogramIndex`
unfoldable pub histogram_index : ℕ → ℕ
histogram_index ns = if leb (len64 ns) 4 then ns else (len64 ns - 5) * 16 + ns / 2 ^ (len64 ns - 5)

-- `histogramUpper`, with the shift and the decrement of a uint64
abbrev pub upper_of : ℕ → ℕ → ℕ
upper_of shift mantissa = ((mantissa + 1) * 2 ^ shift % 2 ^ 64 + (2 ^ 64 - 1)) % 2 ^ 64

unfoldable pub histogram_upper : ℕ → ℕ
histogram_upper index =
    if ltb index 16 then index else upper_of ((index - 16) / 16) (16 + (index - 16) % 16)

-- The fields of `histogram` but `sum`, which is a float64.
pub record Histogram : Type 0 where
  pub bins : List ℕ
  pub count : ℕ
  pub maximum : ℕ

abbrev pub empty : Histogram
empty = record { bins = replicate 1024 0; count = 0; maximum = 0 }

-- `add`
unfoldable pub add : ℕ → Histogram → Histogram
add ns h = record {
  bins = set h.bins (histogram_index ns) ((get_or h.bins (histogram_index ns) 0 + 1) % 2 ^ 64);
  count = (h.count + 1) % 2 ^ 64;
  maximum = max h.maximum ns;
}

-- `merge`
abbrev merge_bins : List ℕ → List ℕ → List ℕ
merge_bins [] others = []
merge_bins (n ∷ bins) [] = n ∷ bins
merge_bins (n ∷ bins) (m ∷ others) = (n + m) % 2 ^ 64 ∷ merge_bins bins others

unfoldable pub merge : Histogram → Histogram → Histogram
merge h other = record {
  bins = merge_bins h.bins other.bins;
  count = (h.count + other.count) % 2 ^ 64;
  maximum = max h.maximum other.maximum;
}

-- The loop of `percentile` in `report`, from the bin `i` on; the result is in nanoseconds, before the
-- division in float64.
abbrev first_bin : ℕ → ℕ → ℕ → List ℕ → ℕ
first_bin target seen i [] = 0
first_bin target seen i (n ∷ bins) =
    let rest = first_bin target ((seen + n) % 2 ^ 64) (i + 1) bins in
    if leb target ((seen + n) % 2 ^ 64) then histogram_upper i else rest

unfoldable pub percentile : ℕ → Histogram → ℕ
percentile percent h =
    if h.count == 0
    then 0
    else first_bin ((h.count * percent % 2 ^ 64 + 99) % 2 ^ 64 / 100) 0 0 h.bins

-- `setChoice` and `getChoice`, on the byte that holds the key
abbrev pub set_bits : ℕ → ℕ → ℕ → ℕ
set_bits shift choice b = bit_or (bit_and b (255 - 3 * 2 ^ shift)) (choice % 256 * 2 ^ shift % 256)

abbrev pub get_bits : ℕ → ℕ → ℕ
get_bits shift b = bit_and (b / 2 ^ shift) 3

unfoldable pub set_choice : Bytes → ℕ → ℕ → Bytes
set_choice bitmap key choice =
    set bitmap (key / 4) (set_bits (key % 4 * 2) choice (get_or bitmap (key / 4) 0))

unfoldable pub get_choice : Bytes → ℕ → ℕ
get_choice bitmap key = get_bits (key % 4 * 2) (get_or bitmap (key / 4) 0)
