-- ===== src/Kprintf/Number.antt =====
-- number (lib/kprintf.c): how wide its text is, and which text it is without flags.
use linda.Base.{
  ℕ, zero, suc, ◌+◌, ◌/◌, ◌^◌, ◌<◌, ◌≤◌, ◌≡◌, ◌⊎◌, Option, none, refl, ap, ◌∙◌, Bool, ◌||◌, List,
  [], ◌∷◌, ◌++◌, some, arith, ltb, length, length-append, Bool-cases, le→not_ltb, inl, inr, ℤ, pos,
  negsuc, pos_part, neg_part, ◌-ℤ◌,
}
use linda.Mach.Ints.{sub_int, wrap_int, sub_int_lem, IsInt}
use linda.Kprintf.{
  divide_out, Flags, digits_of, digit_char, from_top, repeat, spent, sign_of, prefix_of, max_ℤ,
  layout, effective, number_text, number,
}

length-repeat : (c n : ℕ) → length (repeat c n) ≡ n
unfolding repeat
length-repeat c zero = refl
length-repeat c (suc n) = ap suc (length-repeat c n)

pub length-from_top : (large : Bool) (ds : List ℕ) → length (from_top large ds) ≡ length ds
unfolding from_top
length-from_top large [] = refl
length-from_top large (d ∷ ds) = omega (
  arith,
  length-append {0} (from_top large ds) (digit_char large d ∷ []),
  length-from_top large ds,
)

-- The pieces of a layout, in order.
length-pieces :
    (a b c d e f g : List ℕ)
    → length (a ++ b ++ c ++ d ++ e ++ f ++ g)
      ≡ length a + length b + length c + length d + length e + length f + length g
length-pieces a b c d e f g = simp (length-append)

pub spent_lem :
    (size : ℤ)
    → neg_part size + 1 < 2 ^ 31
    → (pos_part (spent size) ≡ 0) × (neg_part (spent size) ≤ neg_part size + 1)
unfolding spent sub_int wrap_int
spent_lem size h = (ground arith, ground arith)

length-layout :
    (type : Flags) (size : ℤ) (precision : ℕ) (sign prefix digits : List ℕ)
    → neg_part size + 2 < 2 ^ 31
    → length digits ≤ precision
    → length (layout type size precision sign prefix digits)
      ≡ pos_part size + length sign + length prefix + precision
unfolding layout
length-layout type size precision sign prefix digits r h =
    let (blank, low) = spent_lem size (omega arith) in
    let (blank', _) = spent_lem (spent size) (omega (arith, low)) in
    length-pieces _ sign prefix _ _ digits _ ∙ (elim (Bool-cases type.left) [
      | inl l ↦ rw l (elim (Bool-cases type.zeropad) [
        | inl z ↦ rw z (simp (length-repeat) (omega arith))
        | inr z ↦ rw z (simp (length-repeat) (omega arith))
      ])
      | inr l ↦ rw l (elim (Bool-cases type.zeropad) [
        | inl z ↦ rw z (simp (length-repeat) (omega (arith, blank, blank')))
        | inr z ↦ rw z (simp (length-repeat) (omega (arith, blank, blank')))
      ])
    ])

-- What the sign, the prefix and the digits leave of the width.
abbrev pub left_over : ℤ → ℕ → ℕ → ℕ → ℤ
left_over size a b w = sub_int (sub_int (sub_int size (pos a)) (pos b)) (pos w)

-- The sizes with which no `int` overflows.
abbrev pub IsSize : ℤ → Type 0
IsSize (pos n) = n < 2 ^ 31
IsSize (negsuc n) = n < 2 ^ 29

IsSize-parts : (size : ℤ) → IsSize size → (pos_part size < 2 ^ 31) × (neg_part size ≤ 2 ^ 29)
IsSize-parts (pos n) h = (h, omega arith)
IsSize-parts (negsuc n) h = (omega arith, omega arith)

minus_parts :
    (z : ℤ) (k : ℕ)
    → (pos_part (z -ℤ pos k) ≤ pos_part z) × (neg_part (z -ℤ pos k) ≤ neg_part z + k)
unfolding ◌-ℤ◌
minus_parts (pos n) k = (ground arith, ground arith)
minus_parts (negsuc n) k = (ground arith, ground arith)

IsInt-of : (z : ℤ) → pos_part z < 2 ^ 31 → neg_part z ≤ 2 ^ 31 → IsInt z
IsInt-of (pos n) h k = h
IsInt-of (negsuc n) h k = omega arith

-- A subtraction that does not overflow.
minus_same :
    (z : ℤ) (k : ℕ) → pos_part z < 2 ^ 31 → neg_part z + k ≤ 2 ^ 31 → sub_int z (pos k) ≡ z -ℤ pos k
minus_same z k h l =
    let (a, b) = minus_parts z k in
    sub_int_lem z (pos k) (IsInt-of (z -ℤ pos k) (omega (arith, a)) (omega (arith, b)))

-- The padding fills what the text leaves of the width.
fill_width :
    (size : ℤ) (a b w : ℕ)
    → pos_part (size -ℤ pos a -ℤ pos b -ℤ pos w) + a + b + w ≡ max_ℤ (a + b + w) size
unfolding ◌-ℤ◌
fill_width (pos n) a b w = ground arith
fill_width (negsuc n) a b w = ground arith

-- It is what an integer would be.
pub left_over_lem :
    (size : ℤ) (a b w : ℕ)
    → IsSize size
    → a ≤ 1
    → b ≤ 2
    → w < 2 ^ 30
    → (left_over size a b w ≡ size -ℤ pos a -ℤ pos b -ℤ pos w)
      × (neg_part (size -ℤ pos a -ℤ pos b -ℤ pos w) + 2 < 2 ^ 31)
left_over_lem size a b w s ha hb hw =
    let (p, n) = IsSize-parts size s in
    let (p', n') = minus_parts size a in
    let (p'', n'') = minus_parts (size -ℤ pos a) b in
    let (p3, n3) = minus_parts (size -ℤ pos a -ℤ pos b) w in
    (
      ap (λ (z : ℤ). sub_int (sub_int z (pos b)) (pos w)) (minus_same size a p (omega (arith, n)))
          ∙ ap (λ (z : ℤ). sub_int z (pos w))
              (minus_same (size -ℤ pos a) b (omega (arith, p, p')) (omega (arith, n, n')))
          ∙ minus_same (size -ℤ pos a -ℤ pos b) w (omega (arith, p, p', p''))
              (omega (arith, n, n', n'')),
      omega (arith, n, n', n'', n3),
    )

le-max_ℤ : (n : ℕ) (precision : ℤ) → n ≤ max_ℤ n precision
le-max_ℤ n precision = ground arith

pub max_ℤ-lt : (n m : ℕ) (precision : ℤ) → n < m → pos_part precision < m → max_ℤ n precision < m
max_ℤ-lt n m precision h k = ground arith

length-divide_out : (fuel base num : ℕ) → length (divide_out fuel base num) ≤ fuel
unfolding divide_out
length-divide_out zero base num = omega arith
length-divide_out (suc fuel) base num = ground (arith, length-divide_out fuel base (num / base))

-- `tmp` holds all digits.
pub length-digits_of : (base num : ℕ) → length (digits_of base num) ≤ 66
unfolding digits_of
length-digits_of base num = ground (arith, length-divide_out 66 base num)

length-sign_of : (num : ℕ) (type : Flags) → length (sign_of num type).0 ≤ 1
unfolding sign_of
length-sign_of num type = ground arith

length-prefix_of : (base : ℕ) (type : Flags) → length (prefix_of base type) ≤ 2
unfolding prefix_of
length-prefix_of base type = ground arith

-- The width of the text: that of the field, or that of the sign, the prefix and the digits with the zeros
-- that the precision asks for, whichever is greater.
abbrev pub width_text : ℕ → ℕ → ℤ → ℤ → Flags → ℕ
width_text num base size precision type =
    max_ℤ
      (length (sign_of num type).0
        + length (prefix_of base type)
        + max_ℤ (length (digits_of base (sign_of num type).1)) precision)
      size

pub length-number_text :
    (num base : ℕ) (size precision : ℤ) (type : Flags)
    → IsSize size
    → pos_part precision < 2 ^ 30
    → length (number_text num base size precision type) ≡ width_text num base size precision type
unfolding number_text
length-number_text num base size precision type s p =
    let digits = from_top type.large (digits_of base (sign_of num type).1) in
    let same = length-from_top type.large (digits_of base (sign_of num type).1) in
    let short = length-digits_of base (sign_of num type).1 in
    let a = length (sign_of num type).0 in
    let b = length (prefix_of base type) in
    let w = max_ℤ (length digits) precision in
    let (plain, low) =
      left_over_lem size a b w s (length-sign_of num type) (length-prefix_of base type)
        (max_ℤ-lt (length digits) (2 ^ 30) precision (omega (arith, same, short)) p) in
    ap (λ (z : ℤ). length (layout type z w (sign_of num type).0 (prefix_of base type) digits)) plain
    ∙ length-layout type (size -ℤ pos a -ℤ pos b -ℤ pos w) w (sign_of num type).0
        (prefix_of base type) digits low (le-max_ℤ (length digits) precision)
    ∙ fill_width size a b w
    ∙ rw same refl

-- A number without a width and without a precision.
pub number_text_short :
    (num base : ℕ) (type : Flags) → length (number_text num base (negsuc 0) (negsuc 0) type) ≤ 69
number_text_short num base type = ground (
  arith,
  length-number_text num base (negsuc 0) (negsuc 0) type (omega arith) (omega arith),
  length-digits_of base (sign_of num type).1,
  length-sign_of num type,
  length-prefix_of base type,
)

-- What number answers: NULL for a base out of range, and a text of the width otherwise.
abbrev pub Numbered : ℕ → ℕ → ℤ → ℤ → Flags → Option (List ℕ) → Type 0
Numbered num base size precision flags none = (base < 2) ⊎ (36 < base)
Numbered num base size precision flags (some out) =
    (2 ≤ base) × (base ≤ 36) × (length out ≡ width_text num base size precision (effective flags))

-- number answers NULL exactly if the base is below 2 or above 36. Otherwise it writes a text whose length
-- is the width of the field, or that of the sign, the prefix and the digits with the zeros that the
-- precision asks for, whichever is greater. The size is an `int` from -2^29 on, and the precision below
-- 2^30.
pub number_width :
    (num base : ℕ) (size precision : ℤ) (flags : Flags)
    → IsSize size
    → pos_part precision < 2 ^ 30
    → Numbered num base size precision flags (number num base size precision flags)
unfolding number
number_width num base size precision flags s p =
    let written = length-number_text num base size precision (effective flags) s p in
    elim (Bool-cases (ltb base 2 || ltb 36 base)) [
      | inl bad ↦ rw bad (ground arith)
      | inr good ↦ rw good (ground arith, ground arith, written)
    ]

pub number-number_text :
    (num base : ℕ) (size precision : ℤ) (flags : Flags)
    → 2 ≤ base
    → base ≤ 36
    → number num base size precision flags
      ≡ some (number_text num base size precision (effective flags))
unfolding number
number-number_text num base size precision flags h k =
    rw (le→not_ltb base 2 h, le→not_ltb 36 base k) refl
