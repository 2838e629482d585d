-- ===== src/Kprintf/Spec.antt =====
-- How vsprintf (lib/kprintf.c) reads a conversion from behind its percent sign: the flags, the width, the
-- precision and the qualifier. The arguments are the words of the stack from the first one on, `words`, of
-- which `arg` counts those taken.
use linda.Base.{
  ℕ, ◌+◌, true, ◌||◌, List, [], ◌∷◌, Option, none, some, ◌==◌, if◌then◌else◌, ℤ, pos, negsuc,
  pos_part, neg_part, ltb_ℤ,
}
use linda.Mach.Ints.{to_int, wrap_int}
use linda.Kprintf.{Flags, no_flags, is_digit, skip_atoi, starts_with, tail}

-- The flag that a character sets.
unfoldable pub set_flag : ℕ → Flags → Option Flags
set_flag c type =
    if c == b'-'
    then some (record type { left = true })
    else if c == b'+'
    then some (record type { plus = true })
    else if c == b' '
    then some (record type { space = true })
    else if c == b'#'
    then some (record type { special = true })
    else if c == b'0'
    then some (record type { zeropad = true })
    else none

-- The loop of `repeat:`.
unfoldable pub take_flags : Flags → List ℕ → Flags × List ℕ
unfolding set_flag
take_flags type [] = (type, [])
take_flags type (c ∷ cs) = elim (set_flag c type) [
  | none ↦ (type, c ∷ cs)
  | some type' ↦ take_flags type' cs
]

-- A conversion as it is read: `type`, the width, the precision, the rest of the format and `arg`.
pub record Spec : Type 0 where
  pub type : Flags
  pub width : ℤ
  pub precision : ℤ
  pub fmt : List ℕ
  pub arg : ℕ

-- The width at the front of the format.
unfoldable pub width_of : (ℕ → ℕ) → Spec → List ℕ → Spec
unfolding skip_atoi wrap_int
width_of words s [] = record s { fmt = [] }
width_of words s (c ∷ cs) =
    if is_digit c
    then record s { width = to_int (skip_atoi 0 (c ∷ cs)).0; fmt = (skip_atoi 0 (c ∷ cs)).1 }
    else if c == b'*'
    then (if ltb_ℤ (to_int (words s.arg)) (pos 0)
        then record s {
          width = wrap_int (pos (neg_part (to_int (words s.arg))));
          type = record s.type { left = true };
          fmt = cs;
          arg = s.arg + 1;
        }
        else record s { width = to_int (words s.arg); fmt = cs; arg = s.arg + 1 })
    else record s { fmt = c ∷ cs }

unfoldable pub take_width : (ℕ → ℕ) → Spec → Spec
unfolding width_of
take_width words s = width_of words s s.fmt

-- `if (precision < 0) precision = 0;`
abbrev pub at_least_0 : ℤ → ℤ
at_least_0 n = pos (pos_part n)

-- Behind the `.`
unfoldable pub precision_of : (ℕ → ℕ) → Spec → List ℕ → Spec
unfolding skip_atoi
precision_of words s [] = record s { precision = pos 0; fmt = [] }
precision_of words s (c ∷ cs) =
    if is_digit c
    then record s {
      precision = at_least_0 (to_int (skip_atoi 0 (c ∷ cs)).0);
      fmt = (skip_atoi 0 (c ∷ cs)).1;
    }
    else if c == b'*'
    then record s { precision = at_least_0 (to_int (words s.arg)); fmt = cs; arg = s.arg + 1 }
    else record s { precision = pos 0; fmt = c ∷ cs }

unfoldable pub take_precision : (ℕ → ℕ) → Spec → Spec
unfolding precision_of
take_precision words s = if starts_with b'.' s.fmt then precision_of words s (tail s.fmt) else s

-- The qualifier, or 0, and the rest of the format.
unfoldable pub take_qualifier : List ℕ → ℕ × List ℕ
take_qualifier [] = (0, [])
take_qualifier (c ∷ cs) = if (c == b'h') || (c == b'l') || (c == b'L') then (c, cs) else (0, c ∷ cs)

unfoldable pub read_spec : (ℕ → ℕ) → ℕ → List ℕ → Spec
unfolding take_flags take_width take_precision
read_spec words arg fmt =
    let (type, rest) = take_flags no_flags fmt in
    take_precision words (
      take_width words
        (record { type = type; width = negsuc 0; precision = negsuc 0; fmt = rest; arg = arg }))
