-- ===== src/Base/TextOrder.antt =====
-- The order of texts.
use Prim.Native.Nat.{ℕ, compare as compare_number, Ordering}
use Prim.Native.Char.{code}
use Prim.Native.String.compare
use Prim.Native.String.{String, [], ◌∷◌, then, compare as compare_text}
use mathlib.Core.Path.{◌≡◌, refl, sym, ◌∙◌, ap}
use mathlib.Core.Bool.{true, false}
use native.Mathlib.Omega.{arith}
use text.Mathlib.TextEquality.{path_by_compare}
use text.Mathlib.TextPositions.{compare_refl}
use openfederation_pds.Base.Tests.{is_less, text_lt}

flip : Ordering → Ordering
flip Ordering.lt = Ordering.gt
flip Ordering.eq = Ordering.eq
flip Ordering.gt = Ordering.lt

compare-flip_number : (a b : ℕ) → compare_number b a ≡ flip (compare_number a b)
unfolding flip
compare-flip_number a b = ground arith

flip-then : (o p : Ordering) → flip (then o p) ≡ then (flip o) (flip p)
unfolding flip
flip-then Ordering.lt p = refl
flip-then Ordering.eq p = refl
flip-then Ordering.gt p = refl

compare-flip : (s t : String) → compare_text t s ≡ flip (compare_text s t)
unfolding flip
compare-flip [] [] = refl
compare-flip [] (d ∷ t) = rw (compare.cons-nil d t, compare.nil-cons d t) refl
compare-flip (c ∷ s) [] = rw (compare.nil-cons c s, compare.cons-nil c s) refl
compare-flip (c ∷ s) (d ∷ t) =
    rw
      (
        compare.cons-cons d c t s,
        compare.cons-cons c d s t,
        compare-flip s t,
        compare-flip_number (code c) (code d),
        flip-then (compare_number (code c) (code d)) (compare_text s t),
      )
      refl

eq-of_flip : (o : Ordering) → is_less o ≡ false → is_less (flip o) ≡ false → o ≡ Ordering.eq
unfolding flip
eq-of_flip o h k = ground arith

less-flip : (o : Ordering) → is_less o ≡ true → is_less (flip o) ≡ false
unfolding flip
less-flip o h = ground arith

pub text_lt_irrefl : (s : String) → text_lt s s ≡ false
unfolding text_lt
text_lt_irrefl s = rw (compare_refl s) refl

pub text_lt_asymm : (s t : String) → text_lt s t ≡ true → text_lt t s ≡ false
unfolding text_lt
text_lt_asymm s t h = rw (compare-flip s t) (less-flip (compare_text s t) h)

pub text_lt_connected : (s t : String) → text_lt s t ≡ false → text_lt t s ≡ false → s ≡ t
unfolding text_lt
text_lt_connected s t h k =
    path_by_compare s t (eq-of_flip (compare_text s t) h (sym (ap is_less (compare-flip s t)) ∙ k))

then_trans :
    (c d e : ℕ) (p q r : Ordering)
    → is_less (then (compare_number c d) p) ≡ true
    → is_less (then (compare_number d e) q) ≡ true
    → (is_less p ≡ true → is_less q ≡ true → is_less r ≡ true)
    → is_less (then (compare_number c e) r) ≡ true
then_trans c d e p q r h k f = ground arith

not-text_lt-nil : (s : String) → text_lt s [] ≡ true → ⊥
unfolding text_lt
not-text_lt-nil [] h = cc
not-text_lt-nil (c ∷ s) h = let e = rw (compare.cons-nil c s) at h in cc

pub text_lt_trans : (s t u : String) → text_lt s t ≡ true → text_lt t u ≡ true → text_lt s u ≡ true
unfolding text_lt
text_lt_trans s [] u h k = absurd (not-text_lt-nil s h)
text_lt_trans s (d ∷ t) [] h k = absurd (not-text_lt-nil (d ∷ t) k)
text_lt_trans [] (d ∷ t) (e ∷ u) h k = rw (compare.nil-cons e u) refl
text_lt_trans (c ∷ s) (d ∷ t) (e ∷ u) h k = rw (compare.cons-cons c e s u) (
    then_trans (code c) (code d) (code e) (compare_text s t) (compare_text t u) (compare_text s u)
      (rw (compare.cons-cons c d s t) at h) (rw (compare.cons-cons d e t u) at k)
      (text_lt_trans s t u))
