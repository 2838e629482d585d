-- ===== src/Kprintf/Convert.antt =====
-- The switch of vsprintf (lib/kprintf.c) on the conversion character. `mem` is the memory in which strings
-- lie and to which %n writes. The buffer is the list of what has been written to it: nothing in the code
-- bounds it.
use linda.Base.{
  ℕ, zero, suc, ◌+◌, ◌-◌, ◌/◌, ◌%◌, ◌^◌, true, ◌&&◌, ◌||◌, List, [], ◌∷◌, ◌++◌, Option, none, some,
  leb, ◌==◌, if◌then◌else◌, length, ℤ, pos, negsuc, pos_part, neg_part, ◌-ℤ◌, ltb_ℤ, eq_ℤ,
}
use linda.Mach.{u32_mod}
use linda.Mach.Ints.{sub_int}
use linda.Str.{write_byte, strnlen}
use linda.Kprintf.{Flags, pad, number_text, effective}
use linda.Kprintf.Spec.{Spec}

-- `str` and `buf`, `args`, and the memory.
pub record Printer : Type 0 where
  pub out : List ℕ
  pub arg : ℕ
  pub mem : ℕ → ℕ

abbrev pub emit : List ℕ → Printer → Printer
emit cs p = record p { out = p.out ++ cs }

-- `while (--width > 0) *str++ = ' ';` and the width that it leaves
abbrev pub before : ℤ → List ℕ
before width = pad (sub_int width (pos 1)) b' '

abbrev pub after : ℤ → ℤ
after width = if ltb_ℤ (pos 1) width then pos 0 else sub_int width (pos 1)

unfoldable pub format_char : Spec → ℕ → List ℕ
unfolding sub_int
format_char s c =
    if s.type.left
    then (c % 256) ∷ before s.width
    else before s.width ++ (c % 256) ∷ before (after s.width)

abbrev pub null_text : List ℕ
null_text = b'<' ∷ b'N' ∷ b'U' ∷ b'L' ∷ b'L' ∷ b'>' ∷ []

abbrev pub min : ℕ → ℕ → ℕ
min a b = if leb a b then a else b

unfoldable pub take : ℕ → List ℕ → List ℕ
take zero cs = []
take (suc n) [] = []
take (suc n) (c ∷ cs) = c ∷ take n cs

-- `len` characters from address `s` on
unfoldable pub read_chars : (ℕ → ℕ) → ℕ → ℕ → List ℕ
read_chars mem s zero = []
read_chars mem s (suc len) = mem s ∷ read_chars mem (suc s) len

-- `precision` as the size_t that strnlen takes.
abbrev pub to_size : ℤ → ℕ
to_size n = (pos_part n + u32_mod - neg_part n) % u32_mod

-- The characters of %s.
unfoldable pub string_text : (ℕ → ℕ) → ℕ → ℤ → List ℕ
unfolding read_chars take strnlen
string_text mem s precision =
    if s == 0
    then take (to_size precision) null_text
    else read_chars mem s (strnlen s (to_size precision) mem)

-- `while (len < field_width--) *str++ = ' ';` writes `blanks len width` and leaves `narrow len width`.
abbrev pub blanks : ℕ → ℤ → List ℕ
blanks len width = pad (width -ℤ pos len) b' '

abbrev pub narrow : ℕ → ℤ → ℤ
narrow len width = sub_int (if ltb_ℤ (pos len) width then pos len else width) (pos 1)

-- `len` is below 2^31: no string is longer.
unfoldable pub format_string : Spec → List ℕ → List ℕ
unfolding ◌-ℤ◌ sub_int
format_string s text =
    let len = length text in
    if s.type.left
    then text ++ blanks len s.width
    else blanks len s.width ++ text ++ blanks len (narrow len s.width)

-- `*ip = str - buf;`
unfoldable pub store_int : ℕ → ℕ → (ℕ → ℕ) → ℕ → ℕ
store_int ip n mem = write_byte (ip + 3) (n / 2 ^ 24 % 256) (
    write_byte (ip + 2) (n / 2 ^ 16 % 256)
      (write_byte (ip + 1) (n / 2 ^ 8 % 256) (write_byte ip (n % 256) mem)))

-- The base and the flags of an integer conversion.
unfoldable pub integer_format : ℕ → Flags → Option (ℕ × Flags)
integer_format c type =
    if c == b'o'
    then some (8, type)
    else if c == b'X'
    then some (16, record type { large = true })
    else if c == b'x'
    then some (16, type)
    else if (c == b'd') || (c == b'i')
    then some (10, record type { sign = true })
    else if c == b'u'
    then some (10, type)
    else none

-- `num`: a `short` is extended by its sign.
unfoldable pub integer_arg : ℕ → Flags → ℕ → ℕ
integer_arg qualifier type w =
    if qualifier == b'h'
    then (if type.sign && leb (2 ^ 15) (w % 2 ^ 16)
        then w % 2 ^ 16 + (u32_mod - 2 ^ 16)
        else w % 2 ^ 16)
    else w

abbrev pub pointer_spec : Spec → Spec
pointer_spec s =
    if eq_ℤ s.width (negsuc 0)
    then record s { width = pos 8; type = record s.type { zeropad = true } }
    else s

-- The `default` of the switch at a character; the other default is the end of the format.
unfoldable pub format_other : ℕ → List ℕ
format_other c = if c == b'%' then b'%' ∷ [] else b'%' ∷ c ∷ []

-- A conversion that no integer format is.
unfoldable pub convert_other : (ℕ → ℕ) → Spec → ℕ → Printer → Printer
unfolding format_char format_string string_text store_int format_other
convert_other words s c p =
    let w = words s.arg in
    let taken : Printer = record p { arg = s.arg + 1 } in
    if c == b'c'
    then emit (format_char s w) taken
    else if c == b's'
    then emit (format_string s (string_text p.mem w s.precision)) taken
    else if c == b'p'
    then emit
        (number_text w 16 (pointer_spec s).width s.precision (effective (pointer_spec s).type))
        taken
    else if c == b'n'
    then record taken { mem = store_int w (length p.out) p.mem }
    else emit (format_other c) (record p { arg = s.arg })

-- The switch.
unfoldable pub convert : (ℕ → ℕ) → Spec → ℕ → ℕ → Printer → Printer
unfolding convert_other integer_format integer_arg
convert words s qualifier c p = elim (integer_format c s.type) [
  | none ↦ convert_other words s c p
  | some (base, type) ↦
      emit
        (number_text (integer_arg qualifier type (words s.arg)) base s.width s.precision
          (effective type))
        (record p { arg = s.arg + 1 })
]
