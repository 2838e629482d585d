-- ===== src/Kprintf/Tests.antt =====
-- Runs of the conversions of numbers, and their theorems at concrete inputs.
use linda.Base.{ℕ, ◌≡◌, refl, List, [], ◌∷◌, pos, negsuc, ◌-ℤ◌, some, arith}
use linda.Kprintf.{
  no_flags, number, number_text, layout, repeat, sign_of, prefix_of, from_top, digits_of,
  divide_out, spent, simple_strtoul,
}
use linda.Kprintf.Number.{Numbered, number_width}

number_run : number_text 255 16 (negsuc 0) (negsuc 0) no_flags ≡ b'f' ∷ b'f' ∷ []
unfolding number_text layout repeat ◌-ℤ◌ sign_of prefix_of from_top digits_of divide_out spent
number_run = refl

strtoul_run : simple_strtoul (b'0' ∷ b'x' ∷ b'1' ∷ b'f' ∷ b' ' ∷ []) 0 ≡ (31, b' ' ∷ [])
unfolding simple_strtoul
strtoul_run = refl

abbrev padded : List ℕ
padded = b' ' ∷ b' ' ∷ b'f' ∷ b'f' ∷ []

padded_run : number 255 16 (pos 4) (negsuc 0) no_flags ≡ some padded
unfolding number number_text layout repeat ◌-ℤ◌ sign_of prefix_of from_top digits_of divide_out
    spent
padded_run = refl

number_width_example :
    Numbered 255 16 (pos 4) (negsuc 0) no_flags (number 255 16 (pos 4) (negsuc 0) no_flags)
number_width_example = number_width 255 16 (pos 4) (negsuc 0) no_flags (omega arith) (omega arith)
