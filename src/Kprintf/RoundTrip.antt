-- ===== src/Kprintf/RoundTrip.antt =====
-- What number writes, simple_strtoul reads back (lib/kprintf.c).
use linda.Base.{
  ℕ, zero, suc, ◌-◌, ◌≤◌, ◌<◌, ◌≡◌, refl, ap, ◌∙◌, Bool, false, ◌&&◌, List, [], ◌∷◌, ◌++◌, some,
  arith, ltb, length, lt→ltb, le→not_ltb, ne→==, ℤ, negsuc, pos_part, ◌-ℤ◌, ◌+◌, ◌^◌,
}
use mathlib.Core.List.{append-nil, append_assoc}
use linda.Mach.{u32_mod}
use linda.Ctype.{isxdigit, isdigit, islower, toupper}
use linda.Kprintf.{
  Flags, no_flags, read_digits, simple_strtoul, value_of, digits_of, from_top, repeat, spent,
  sign_of, prefix_of, max_ℤ, layout, number_text, number,
}
use linda.Kprintf.Number.{
  spent_lem, left_over, left_over_lem, max_ℤ-lt, length-from_top, length-digits_of,
}
use linda.Kprintf.Digits.{digits_of_lem, read_digits-from_top}

-- The text that follows a number does not go on with a digit of its base.
abbrev pub Stops : ℕ → List ℕ → Type 0
Stops base [] = Unit
Stops base (c ∷ _) = (isxdigit c && ltb (value_of c) base) ≡ false

read-Stops : (base v : ℕ) (cs : List ℕ) → Stops base cs → read_digits base v cs ≡ (v, cs)
unfolding read_digits
read-Stops base v [] h = refl
read-Stops base v (c ∷ cs) h = rw h

read_zeros :
    (base n : ℕ) (cs : List ℕ)
    → 2 ≤ base
    → read_digits base 0 (repeat b'0' n ++ cs) ≡ read_digits base 0 cs
unfolding repeat read_digits isxdigit isdigit islower toupper
read_zeros base zero cs h = refl
read_zeros base (suc n) cs h = rw (lt→ltb 0 base (omega arith)) (
    ap (λ (t : ℕ). read_digits base t (repeat b'0' n ++ cs)) (omega arith) ∙ read_zeros base n cs h)

-- The flags of a plain number: neither sign nor padding nor prefix.
abbrev pub plain : Bool → Flags
plain large = record no_flags { large = large }

layout-plain :
    (large : Bool) (w precision : ℕ) (digits : List ℕ)
    → w + 3 < 2 ^ 31
    → layout (plain large) (negsuc w) precision [] [] digits
      ≡ repeat b'0' (precision - length digits) ++ digits
unfolding layout repeat
layout-plain large w precision digits h =
    let (blank, low) = spent_lem (negsuc w) (omega arith) in
    let (blank', _) = spent_lem (spent (negsuc w)) (omega (arith, low)) in
    rw (blank, blank') (append-nil _)

no_width : (w : ℕ) → w < 2 ^ 30 → left_over (negsuc 0) 0 0 w ≡ negsuc w
unfolding ◌-ℤ◌
no_width w h =
    let (same, _) = left_over_lem (negsuc 0) 0 0 w (omega arith) (omega arith) (omega arith) h in
    same ∙ ground arith

-- The digits of a plain number with the zeros in front of them.
abbrev pub plain_text : Bool → ℕ → ℕ → ℤ → List ℕ
plain_text large num base precision =
    let digits = from_top large (digits_of base num) in
    repeat b'0' (max_ℤ (length digits) precision - length digits) ++ digits

number-plain :
    (large : Bool) (num base : ℕ) (precision : ℤ)
    → 2 ≤ base
    → base ≤ 36
    → pos_part precision < 2 ^ 30
    → number num base (negsuc 0) precision (plain large)
      ≡ some (plain_text large num base precision)
unfolding number number_text sign_of prefix_of
number-plain large num base precision h k p =
    let digits = from_top large (digits_of base num) in
    let w = max_ℤ (length digits) precision in
    let low : w < 2 ^ 30 =
      max_ℤ-lt (length digits) (2 ^ 30) precision
        (omega (arith, length-from_top large (digits_of base num), length-digits_of base num)) p in
    rw (le→not_ltb base 2 h, le→not_ltb 36 base k)
      (ap some (
        ap (λ (z : ℤ). layout (plain large) z w [] [] digits) (no_width w low)
        ∙ layout-plain large w w digits (omega arith)))

-- A number below 2^32 that number writes without a width in a base from 2 to 16, in small or capital
-- letters and with as many leading zeros as a precision below 2^30 asks for, is read back by simple_strtoul, up to
-- the end of its digits, whatever stands behind them that is no digit of the base.
pub simple_strtoul-number :
    (large : Bool) (num base : ℕ) (precision : ℤ) (cs : List ℕ)
    → num < u32_mod
    → 2 ≤ base
    → base ≤ 16
    → pos_part precision < 2 ^ 30
    → Stops base cs
    → (out : List ℕ) × (number num base (negsuc 0) precision (plain large) ≡ some out)
      × (simple_strtoul (out ++ cs) base ≡ (num, cs))
unfolding simple_strtoul
simple_strtoul-number large num base precision cs l h k q s =
    let (v, i, _) = digits_of_lem base num h l in
    (
      plain_text large num base precision,
      number-plain large num base precision h (omega arith) q,
      rw (ne→== base 0 (omega arith)) (
          ap (read_digits base 0)
            (append_assoc (repeat b'0' _) (from_top large (digits_of base num)) cs)
          ∙ read_zeros base _ (from_top large (digits_of base num) ++ cs) h
          ∙ read_digits-from_top large base (digits_of base num) cs k i (omega (arith, v))
          ∙ rw v (read-Stops base num cs s)),
    )
