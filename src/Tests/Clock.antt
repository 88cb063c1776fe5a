-- ===== src/Tests/Clock.antt =====
-- A clock whose texts have the order of its instants: a letter for the years up to 9999 or past them,
-- and one letter for each millisecond.
use Prim.Native.Nat.{ℕ, zero, suc, ◌-◌, ◌≤◌, ◌<◌}
use Prim.Native.String.compare
use Prim.Native.String.{String}
use mathlib.Core.Path.{◌≡◌, refl, ap}
use mathlib.Core.Logic.{◌≢◌}
use mathlib.Core.Bool.{Bool, true, false}
use mathlib.Core.Option.{Option, some}
use native.Mathlib.Omega.{arith}
use text.Mathlib.TextLemmas.{cons≢nil}
use openfederation_pds.Base.{text_lt, leb}
use openfederation_pds.Dates.{Dates, last_plain}

unfoldable pub tally : ℕ → String
tally zero = String.[]
tally (suc n) = String.◌∷◌ "b" (tally n)

tally_order : (s t : ℕ) → s < t → text_lt (tally s) (tally t) ≡ true
unfolding tally text_lt
tally_order s zero h = absurd (omega arith)
tally_order zero (suc t) h = rw (compare.nil-cons "b" (tally t)) refl
tally_order (suc s) (suc t) h =
    rw (compare.cons-cons "b" "b" (tally s) (tally t)) (tally_order s t (omega arith))

unfoldable pub size : String → ℕ
size String.[] = 0
size (String.◌∷◌ c s) = suc (size s)

size-tally : (n : ℕ) → size (tally n) ≡ n
unfolding size tally
size-tally zero = refl
size-tally (suc n) = ap suc (size-tally n)

unfoldable pub marked : Bool → String → String
marked true s = String.◌∷◌ "b" s
marked false s = String.◌∷◌ "a" s

unfoldable pub clock_text : ℕ → String
clock_text t = marked (leb t last_plain) (tally t)

unfoldable pub clock_time : String → Option ℕ
clock_time s = some (size s - 1)

plain_order : (s t : String) → text_lt s t ≡ true → text_lt (marked true s) (marked true t) ≡ true
unfolding marked text_lt
plain_order s t h = rw (compare.cons-cons "b" "b" s t) h

far_order : (s t : String) → text_lt (marked false s) (marked true t) ≡ true
unfolding marked text_lt
far_order s t = rw (compare.cons-cons "a" "b" s t) refl

marked-full : (b : Bool) (s : String) → marked b s ≢ ""
unfolding marked
marked-full true s = λ e. cons≢nil e
marked-full false s = λ e. cons≢nil e

size-marked : (b : Bool) (s : String) → size (marked b s) ≡ suc (size s)
unfolding size marked
size-marked true s = refl
size-marked false s = refl

pub clock_time-text : (t : ℕ) → clock_time (clock_text t) ≡ some t
unfolding clock_time clock_text
clock_time-text t =
    rw (size-marked (leb t last_plain) (tally t), size-tally t) (ap some (omega arith))

leb-true : (a b : ℕ) → a ≤ b → leb a b ≡ true
leb-true a b h = ground arith

leb-false : (a b : ℕ) → b < a → leb a b ≡ false
leb-false a b h = ground arith

pub clock_order : (s t : ℕ) → s < t → t ≤ last_plain → text_lt (clock_text s) (clock_text t) ≡ true
unfolding clock_text
clock_order s t h k =
    rw (leb-true s last_plain (omega arith), leb-true t last_plain k)
      (plain_order (tally s) (tally t) (tally_order s t h))

pub clock_far :
    (s t : ℕ) → s ≤ last_plain → last_plain < t → text_lt (clock_text t) (clock_text s) ≡ true
unfolding clock_text
clock_far s t h k =
    rw (leb-true s last_plain h, leb-false t last_plain k) (far_order (tally t) (tally s))

pub clock_text-full : (t : ℕ) → clock_text t ≢ ""
unfolding clock_text
clock_text-full t = marked-full (leb t last_plain) (tally t)

abbrev pub clock : Dates
clock = record {
  get_time = clock_time;
  iso = clock_text;
  get_time-iso = λ t _. clock_time-text t;
  iso_full = clock_text-full;
  iso_order = clock_order;
  iso_far = λ s t h k _. clock_far s t h k;
}
