-- ===== src/Ctype.antt =====
-- lib/ctypes.c and include/kernel/ctype.h: the classes of characters, by a table of bits. The table is
-- read at `c + 1`; its entries from 129 on are 0. The characters are those below 128: a `char` from 128
-- on is negative, and reads in front of the table.
pub mod Ascii
mod Tests
use Prim.Native.Nat.{bit_and}
use linda.Base.{ℕ, ◌+◌, ◌-◌, Bool, not, List, [], ◌∷◌, get_or, ◌==◌, if◌then◌else◌}

unfoldable pub ctype_table : ℕ → ℕ
ctype_table i =
    get_or
      (0 ∷ 8 ∷ 8 ∷ 8 ∷ 8 ∷ 8 ∷ 8 ∷ 8 ∷ 8 ∷ 8 ∷ 40 ∷ 40 ∷ 40 ∷ 40 ∷ 40 ∷ 8 ∷ 8 ∷ 8 ∷ 8 ∷ 8 ∷ 8 ∷ 8
        ∷ 8 ∷ 8 ∷ 8 ∷ 8 ∷ 8 ∷ 8 ∷ 8 ∷ 8 ∷ 8 ∷ 8 ∷ 8 ∷ 160 ∷ 16 ∷ 16 ∷ 16 ∷ 16 ∷ 16 ∷ 16 ∷ 16 ∷ 16
        ∷ 16 ∷ 16 ∷ 16 ∷ 16 ∷ 16 ∷ 16 ∷ 16 ∷ 4 ∷ 4 ∷ 4 ∷ 4 ∷ 4 ∷ 4 ∷ 4 ∷ 4 ∷ 4 ∷ 4 ∷ 16 ∷ 16 ∷ 16
        ∷ 16 ∷ 16 ∷ 16 ∷ 16 ∷ 65 ∷ 65 ∷ 65 ∷ 65 ∷ 65 ∷ 65 ∷ 1 ∷ 1 ∷ 1 ∷ 1 ∷ 1 ∷ 1 ∷ 1 ∷ 1 ∷ 1 ∷ 1
        ∷ 1 ∷ 1 ∷ 1 ∷ 1 ∷ 1 ∷ 1 ∷ 1 ∷ 1 ∷ 1 ∷ 1 ∷ 16 ∷ 16 ∷ 16 ∷ 16 ∷ 16 ∷ 16 ∷ 66 ∷ 66 ∷ 66 ∷ 66
        ∷ 66 ∷ 66 ∷ 2 ∷ 2 ∷ 2 ∷ 2 ∷ 2 ∷ 2 ∷ 2 ∷ 2 ∷ 2 ∷ 2 ∷ 2 ∷ 2 ∷ 2 ∷ 2 ∷ 2 ∷ 2 ∷ 2 ∷ 2 ∷ 2 ∷ 2
        ∷ 16 ∷ 16 ∷ 16 ∷ 16 ∷ 8 ∷ [])
      i 0

-- `(_ctype+1)[c] & mask`, as a condition
unfoldable pub has_class : ℕ → ℕ → Bool
unfolding ctype_table
has_class mask c = not (bit_and (ctype_table (c + 1)) mask == 0)

abbrev pub class_upper : ℕ
class_upper = 0x01

abbrev pub class_lower : ℕ
class_lower = 0x02

abbrev pub class_digit : ℕ
class_digit = 0x04

abbrev pub class_cntrl : ℕ
class_cntrl = 0x08

abbrev pub class_punct : ℕ
class_punct = 0x10

abbrev pub class_space : ℕ
class_space = 0x20

abbrev pub class_hex : ℕ
class_hex = 0x40

abbrev pub class_hard_space : ℕ
class_hard_space = 0x80

unfoldable pub isalnum : ℕ → Bool
unfolding has_class
isalnum c = has_class (class_upper + class_lower + class_digit) c

unfoldable pub isalpha : ℕ → Bool
unfolding has_class
isalpha c = has_class (class_upper + class_lower) c

unfoldable pub iscntrl : ℕ → Bool
unfolding has_class
iscntrl c = has_class class_cntrl c

unfoldable pub isdigit : ℕ → Bool
unfolding has_class
isdigit c = has_class class_digit c

unfoldable pub isgraph : ℕ → Bool
unfolding has_class
isgraph c = has_class (class_punct + class_upper + class_lower + class_digit) c

unfoldable pub islower : ℕ → Bool
unfolding has_class
islower c = has_class class_lower c

unfoldable pub isprint : ℕ → Bool
unfolding has_class
isprint c = has_class (class_punct + class_upper + class_lower + class_digit + class_hard_space) c

unfoldable pub ispunct : ℕ → Bool
unfolding has_class
ispunct c = has_class class_punct c

unfoldable pub isspace : ℕ → Bool
unfolding has_class
isspace c = has_class class_space c

unfoldable pub isupper : ℕ → Bool
unfolding has_class
isupper c = has_class class_upper c

unfoldable pub isxdigit : ℕ → Bool
unfolding has_class
isxdigit c = has_class (class_digit + class_hex) c

unfoldable pub tolower : ℕ → ℕ
unfolding isupper
tolower c = if isupper c then c + 32 else c

unfoldable pub toupper : ℕ → ℕ
unfolding islower
toupper c = if islower c then c - 32 else c
