-- ===== src/Kprintf.antt =====
-- lib/kprintf.c: numbers to text and back. A string is the list of its characters, without the
-- terminator; what is written to the buffer is the list of the characters written, in order. A `long`
-- is its bit pattern below 2 ^ 32; widths and precisions are integers of 32 bits (Mach.Ints).
pub mod Digits
pub mod Number
pub mod RoundTrip
pub mod Spec
pub mod Convert
pub mod Format
pub mod Panic
pub mod Clean
pub mod Boot
mod Tests
use linda.Base.{
  ℕ, zero, suc, ◌+◌, ◌-◌, ◌*◌, ◌/◌, ◌%◌, ◌^◌, Bool, true, false, not, ◌&&◌, ◌||◌, List, [], ◌∷◌,
  ◌++◌, map, Option, none, some, ltb, leb, ◌==◌, if◌then◌else◌, length, ℤ, pos, negsuc, pos_part,
  ◌-ℤ◌, ltb_ℤ,
}
use linda.Mach.{u32_mod}
use linda.Mach.Ints.{sub_int}
use linda.Ctype.{isxdigit, isdigit, islower, toupper}

abbrev pub is_digit : ℕ → Bool
is_digit c = leb b'0' c && leb c b'9'

-- skip_atoi: the bits of the number, and what is left of the string.
unfoldable pub skip_atoi : ℕ → List ℕ → ℕ × List ℕ
skip_atoi i [] = (i, [])
skip_atoi i (c ∷ cs) =
    let rest = skip_atoi ((i * 10 + c - b'0') % u32_mod) cs in
    if is_digit c then rest else (i, c ∷ cs)

-- The value of the character `*cp` in the loop of simple_strtoul.
abbrev pub value_of : ℕ → ℕ
value_of c = if isdigit c then c - b'0' else (if islower c then toupper c else c) - b'A' + 10

unfoldable pub read_digits : ℕ → ℕ → List ℕ → ℕ × List ℕ
unfolding isxdigit isdigit islower toupper
read_digits base result [] = (result, [])
read_digits base result (c ∷ cs) =
    let rest = read_digits base ((result * base + value_of c) % u32_mod) cs in
    if isxdigit c && ltb (value_of c) base then rest else (result, c ∷ cs)

-- `*cp == 'x' && isxdigit(cp[1])` behind a leading 0.
unfoldable pub has_hex_prefix : List ℕ → Bool
unfolding isxdigit
has_hex_prefix (x ∷ c ∷ _) = (x == b'x') && isxdigit c
has_hex_prefix _ = false

abbrev pub tail : List ℕ → List ℕ
tail [] = []
tail (_ ∷ cs) = cs

abbrev pub starts_with : ℕ → List ℕ → Bool
starts_with c [] = false
starts_with c (d ∷ _) = d == c

-- The base that base 0 stands for, and the string behind the prefix.
unfoldable pub detect_base : List ℕ → ℕ × List ℕ
unfolding has_hex_prefix
detect_base cp =
    if starts_with b'0' cp
    then if has_hex_prefix (tail cp) then (16, tail (tail cp)) else (8, tail cp)
    else (10, cp)

-- The result, and the string at `*endp`.
unfoldable pub simple_strtoul : List ℕ → ℕ → ℕ × List ℕ
unfolding read_digits detect_base
simple_strtoul cp base =
    if base == 0 then read_digits (detect_base cp).0 0 (detect_base cp).1 else read_digits base 0 cp

-- The bits of `type`, ZEROPAD to LARGE.
pub record Flags : Type 0 where
  pub zeropad : Bool
  pub sign : Bool
  pub plus : Bool
  pub space : Bool
  pub left : Bool
  pub special : Bool
  pub large : Bool

abbrev pub no_flags : Flags
no_flags = record {
  zeropad = false;
  sign = false;
  plus = false;
  space = false;
  left = false;
  special = false;
  large = false;
}

-- `digits[d]`
unfoldable pub digit_char : Bool → ℕ → ℕ
digit_char large d = if ltb d 10 then b'0' + d else if large then b'A' + d - 10 else b'a' + d - 10

-- `while (num != 0) tmp[i++] = digits[do_div(num,base)];`, the lowest digit first, as digits.
unfoldable pub divide_out : ℕ → ℕ → ℕ → List ℕ
divide_out zero base num = []
divide_out (suc fuel) base num =
    let rest = divide_out fuel base (num / base) in if num == 0 then [] else num % base ∷ rest

-- The fuel is the size of `tmp`.
unfoldable pub digits_of : ℕ → ℕ → List ℕ
digits_of base num = if num == 0 then 0 ∷ [] else divide_out 66 base num

-- `while (i-- > 0) *str++ = tmp[i];`, with the characters of the digits.
unfoldable pub from_top : Bool → List ℕ → List ℕ
unfolding digit_char
from_top large [] = []
from_top large (d ∷ ds) = from_top large ds ++ digit_char large d ∷ []

unfoldable pub repeat : ℕ → ℕ → List ℕ
repeat c zero = []
repeat c (suc n) = c ∷ repeat c n

-- `while (size-- > 0) *str++ = c;` writes `pad size c` and leaves `spent size`.
abbrev pub pad : ℤ → ℕ → List ℕ
pad size c = repeat c (pos_part size)

unfoldable pub spent : ℤ → ℤ
unfolding sub_int
spent size = sub_int (if ltb_ℤ (pos 0) size then pos 0 else size) (pos 1)

-- The sign character, or none, and the magnitude that is printed.
unfoldable pub sign_of : ℕ → Flags → List ℕ × ℕ
sign_of num type =
    if type.sign
    then if leb (2 ^ 31) num
      then (b'-' ∷ [], (u32_mod - num) % u32_mod)
      else if type.plus
      then (b'+' ∷ [], num)
      else if type.space
      then (b' ' ∷ [], num)
      else ([], num)
    else ([], num)

unfoldable pub prefix_of : ℕ → Flags → List ℕ
prefix_of base type =
    if type.special
    then if base == 8
      then b'0' ∷ []
      else if base == 16
      then b'0' ∷ (if type.large then b'X' else b'x') ∷ []
      else []
    else []

abbrev pub max_ℤ : ℕ → ℤ → ℕ
max_ℤ i precision = if ltb_ℤ precision (pos i) then i else pos_part precision

-- The text behind the paddings that come before the sign: `size` is what the sign, the prefix and the
-- digits leave of the width, `precision` the least number of digits.
unfoldable pub layout : Flags → ℤ → ℕ → List ℕ → List ℕ → List ℕ → List ℕ
layout type size precision sign prefix digits =
    let blank = not (type.zeropad || type.left) in
    let size₁ = if blank then spent size else size in
    let size₂ = if type.left then size₁ else spent size₁ in
    (if blank then pad size b' ' else [])
    ++ sign
    ++ prefix
    ++ (if type.left then [] else pad size₁ (if type.zeropad then b'0' else b' '))
    ++ repeat b'0' (precision - length digits)
    ++ digits
    ++ pad size₂ b' '

-- `if (type & LEFT) type &= ~ZEROPAD;`
abbrev pub effective : Flags → Flags
effective type = if type.left then record type { zeropad = false } else type

-- What number writes for a base in range, from `c = ...` on.
unfoldable pub number_text : ℕ → ℕ → ℤ → ℤ → Flags → List ℕ
unfolding sub_int
number_text num base size precision type =
    let digits = from_top type.large (digits_of base (sign_of num type).1) in
    let width = max_ℤ (length digits) precision in
    layout type
      (sub_int
        (sub_int (sub_int size (pos (length (sign_of num type).0)))
          (pos (length (prefix_of base type))))
        (pos width))
      width (sign_of num type).0 (prefix_of base type) digits

-- `none` is the NULL of a base out of range.
unfoldable pub number : ℕ → ℕ → ℤ → ℤ → Flags → Option (List ℕ)
number num base size precision type =
    if ltb base 2 || ltb 36 base
    then none
    else some (number_text num base size precision (effective type))
