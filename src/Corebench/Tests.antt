-- ===== src/Corebench/Tests.antt =====
-- A latency of a millisecond, and two keys that share a byte.
use gigaquizz.Common.{◌≡◌, refl, if◌then◌else◌, ◌==◌, arith}
use gigaquizz.Common.Bytes.{zeros}
use gigaquizz.Corebench.{
  len64, histogram_index, histogram_upper, set_choice, get_choice, add, merge, percentile, empty,
}
use gigaquizz.Corebench.Buckets.{Bucket, histogram_bounds}
use gigaquizz.Corebench.Bitmap.{get_choice-set_choice}

histogram_bounds_example :
    Bucket 1_000_000 (histogram_index 1_000_000) (histogram_upper (histogram_index 1_000_000))
histogram_bounds_example = histogram_bounds 1_000_000 (omega arith)

largest : histogram_index 18_446_744_073_709_551_615 ≡ 975
unfolding histogram_index len64
largest = refl

one_sample : (add 7 empty).maximum ≡ 7
unfolding add
one_sample = refl

two_samples : (merge (add 7 empty) (add 40 empty)).count ≡ 2
unfolding merge add
two_samples = refl

ninety_five : percentile 95 (add 40 (add 7 empty)) ≡ 41
unfolding percentile add histogram_index histogram_upper len64
ninety_five = refl

get_choice-set_choice_example :
    get_choice (set_choice (zeros 2) 5 2) 6 ≡ (if 5 == 6 then 2 else get_choice (zeros 2) 6)
get_choice-set_choice_example =
    get_choice-set_choice (zeros 2) 5 6 2 (omega arith, (omega arith, tt)) (omega arith)
      (omega arith)
