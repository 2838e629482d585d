-- ===== src/Kprintf/Digits.antt =====
-- The digits of a number (lib/kprintf.c): the loop of number that divides them out, and the loop of
-- simple_strtoul that reads them.
use native.Mathlib.Nat.{div-add-mod, mul-le-mul_right, mul_comm, mod-lt}
use mathlib.Core.List.{append_assoc}
use linda.Base.{
  ℕ, zero, suc, ◌+◌, ◌*◌, ◌/◌, ◌^◌, ◌≤◌, ◌<◌, ◌≡◌, refl, ap, ◌∙◌, Bool, true, false, ◌&&◌, List, [],
  ◌∷◌, ◌++◌, arith, ◌==◌, length, tabulate, tabulate-at, ℕ_discrete, eq→==, ne→==, lt→ltb,
}
use linda.Mach.{u32_mod}
use linda.Ctype.{isxdigit, isdigit, islower, toupper}
use linda.Kprintf.{read_digits, value_of, divide_out, digits_of, digit_char, from_top}

-- The number that digits stand for, the lowest first.
unfoldable pub value : ℕ → List ℕ → ℕ
value base [] = 0
value base (d ∷ ds) = d + base * value base ds

-- Every digit is one of the base.
abbrev pub InBase : ℕ → List ℕ → Type 0
InBase base [] = Unit
InBase base (d ∷ ds) = (d < base) × InBase base ds

quotient_half : (num base : ℕ) → 2 ≤ base → num / base ≤ num / 2
quotient_half num base h = omega (arith, div-add-mod num base, mul-le-mul_right (num / base) h)

divide_out_lem :
    (fuel base num : ℕ)
    → 2 ≤ base
    → num < 2 ^ fuel
    → (value base (divide_out fuel base num) ≡ num)
      × InBase base (divide_out fuel base num)
      × (length (divide_out fuel base num) ≤ fuel)
unfolding value divide_out
divide_out_lem zero base num h l = (omega arith, tt, omega arith)
divide_out_lem (suc fuel) base num h l = elim (ℕ_discrete num 0) [
  | yes z ↦ rw (eq→== num 0 z) (omega arith, tt, omega arith)
  | no p ↦
      let half : num / 2 < 2 ^ fuel = omega arith in
      let (v, b, k) =
        divide_out_lem fuel base (num / base) h (omega (arith, quotient_half num base h)) in
      rw (ne→== num 0 p)
        (rw v (omega (arith, div-add-mod num base)), (mod-lt num (omega arith), b), omega arith)
]

digit_table : Bool → ℕ → Bool
digit_table large d = isxdigit (digit_char large d) && (value_of (digit_char large d) == d)

digit_all : (large : Bool) → tabulate (digit_table large) 16 ≡ true
unfolding tabulate digit_table isxdigit isdigit islower toupper digit_char
digit_all true = refl
digit_all false = refl

digit_parts :
    (large : Bool) (d : ℕ)
    → digit_table large d ≡ true
    → (isxdigit (digit_char large d) ≡ true) × (value_of (digit_char large d) ≡ d)
unfolding digit_table
digit_parts large d t = (ground arith, ground arith)

digit_char_lem :
    (large : Bool) (d : ℕ)
    → d < 16
    → (isxdigit (digit_char large d) ≡ true) × (value_of (digit_char large d) ≡ d)
digit_char_lem large d h =
    digit_parts large d (tabulate-at (digit_table large) d h (digit_all large))

-- The digits of a number below 2^32 stand for it, are digits of the base, and are 1 to 66, so that
-- they fit into `tmp`.
pub digits_of_lem :
    (base num : ℕ)
    → 2 ≤ base
    → num < u32_mod
    → (value base (digits_of base num) ≡ num)
      × InBase base (digits_of base num)
      × (length (digits_of base num) ≤ 66)
unfolding digits_of value
digits_of_lem base num h l = elim (ℕ_discrete num 0) [
  | yes z ↦ rw (eq→== num 0 z) (omega arith, (omega arith, tt), omega arith)
  | no p ↦ rw (ne→== num 0 p) (divide_out_lem 66 base num h (omega arith))
]

read_one :
    (large : Bool) (base result d : ℕ) (cs : List ℕ)
    → d < base
    → base ≤ 16
    → result * base + d < u32_mod
    → read_digits base result (digit_char large d ∷ cs) ≡ read_digits base (result * base + d) cs
unfolding read_digits
read_one large base result d cs h b l =
    let (x, v) = digit_char_lem large d (omega arith) in
    rw (x, v, lt→ltb d base h) (ap (λ (t : ℕ). read_digits base t cs) (omega arith))

-- simple_strtoul reads the digits that number writes, whatever follows them.
pub read_digits-from_top :
    (large : Bool) (base : ℕ) (ds cs : List ℕ)
    → base ≤ 16
    → InBase base ds
    → value base ds < u32_mod
    → read_digits base 0 (from_top large ds ++ cs) ≡ read_digits base (value base ds) cs
unfolding from_top value
read_digits-from_top large base [] cs b i l = refl
read_digits-from_top large base (d ∷ ds) cs b (h, i) l =
    let small : value base ds < u32_mod =
      omega (arith, mul-le-mul_right {m = 1} {n = base} (value base ds) (omega arith)) in
    let swap : value base ds * base + d ≡ d + base * value base ds =
      omega (arith, mul_comm base (value base ds)) in
    ap (read_digits base 0) (append_assoc (from_top large ds) (digit_char large d ∷ []) cs)
    ∙ read_digits-from_top large base ds (digit_char large d ∷ cs) b i small
    ∙ read_one large base (value base ds) d cs h b (omega arith)
    ∙ ap (λ (t : ℕ). read_digits base t cs) swap
