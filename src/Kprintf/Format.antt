-- ===== src/Kprintf/Format.antt =====
-- vsprintf, sprintf and kprintf (lib/kprintf.c). The format is the list of its characters.
pub mod Total
pub mod Literal
pub mod Output
mod Tests
use linda.Base.{
  ℕ, zero, suc, ◌+◌, ◌-◌, ◌*◌, ◌/◌, ◌%◌, ◌^◌, Bool, true, false, not, ◌&&◌, ◌||◌, List, [], ◌∷◌,
  ◌++◌, Option, none, some, ltb, leb, ◌==◌, if◌then◌else◌, length, ℤ, pos, negsuc, pos_part,
  neg_part, ◌-ℤ◌, ltb_ℤ, eq_ℤ, Outcome, ok, ◌>>=◌,
}
use linda.Mach.{u32_mod}
use linda.Str.{write_byte, strnlen}
use linda.Kprintf.{
  Flags, no_flags, is_digit, skip_atoi, starts_with, tail, pad, number_text, effective,
}
use linda.Kernel.Spinlock.{Cpu, pushcli, popcli}
use linda.Drivers.Console.{Console, console_write}
use linda.Kprintf.Spec.{Spec, read_spec, take_qualifier}
use linda.Kprintf.Convert.{Printer, emit, convert}

-- A conversion from behind its `%`: what is printed, and the rest of the format.
unfoldable pub conversion : (ℕ → ℕ) → List ℕ → Printer → Printer × List ℕ
unfolding read_spec take_qualifier convert
conversion words fmt p =
    let s = read_spec words p.arg fmt in
    elim (take_qualifier s.fmt).1 [
      | [] ↦ (emit (b'%' ∷ []) (record p { arg = s.arg }), [])
      | c ∷ rest ↦ (convert words s (take_qualifier s.fmt).0 c p, rest)
    ]

-- The loop over the format; `none` says that the fuel ran out.
unfoldable pub format : ℕ → (ℕ → ℕ) → List ℕ → Printer → Option Printer
format zero words fmt p = none
format (suc fuel) words [] p = some p
format (suc fuel) words (c ∷ cs) p =
    let next = conversion words cs p in
    let (p', rest) : Printer × List ℕ = if c == b'%' then next else (emit (c ∷ []) p, cs) in
    format fuel words rest p'

unfoldable pub vsprintf : List ℕ → (ℕ → ℕ) → (ℕ → ℕ) → Option Printer
unfolding format
vsprintf fmt words mem =
    format (suc (length fmt)) words fmt (record { out = []; arg = 0; mem = mem })

-- What console_write makes of the buffer: the string ends at its first zero byte.
unfoldable pub until_nul : List ℕ → List ℕ
until_nul [] = []
until_nul (c ∷ cs) = let rest = until_nul cs in if c == 0 then [] else c ∷ rest

abbrev pub error_text : List ℕ
error_text =
    b'k' ∷ b'p' ∷ b'r' ∷ b'i' ∷ b'n' ∷ b't' ∷ b'f' ∷ b' ' ∷ b'h' ∷ b'a' ∷ b's' ∷ b' ' ∷ b'a' ∷ b' '
    ∷ b'e' ∷ b'r' ∷ b'r' ∷ b'o' ∷ b'r' ∷ b'!' ∷ []

-- `char buf[1024];` of kprintf and panic
abbrev pub buf_size : ℕ
buf_size = 1024

-- A call of vsprintf on such a buffer: what it writes, with the NUL behind it, must fit. The buffer only
-- grows, so that its end is passed exactly if it is passed by the whole.
unfoldable pub in_buf : Option Printer → Outcome Printer
in_buf none = Outcome.hang
in_buf (some p) = if leb buf_size (length p.out) then Outcome.overrun else ok p

-- kprintf from the return of vsprintf on.
unfoldable pub print_result : Printer → Console → Outcome (ℕ × Console)
unfolding until_nul
print_result p s =
    if length p.out == 0
    then (console_write error_text s >>= λ s'. ok (0, s'))
    else console_write (until_nul p.out) s >>= λ s'. ok (length p.out, s')

unfoldable pub kprintf : List ℕ → (ℕ → ℕ) → (ℕ → ℕ) → Console → Outcome (ℕ × Console)
unfolding vsprintf in_buf print_result
kprintf fmt words mem s = in_buf (vsprintf fmt words mem) >>= λ p. print_result p s

-- sprintf: the buffer and the number of characters that vsprintf returns
unfoldable pub sprintf : List ℕ → (ℕ → ℕ) → (ℕ → ℕ) → Option (Printer × ℕ)
unfolding vsprintf
sprintf fmt words mem = elim (vsprintf fmt words mem) [
  | none ↦ none
  | some p ↦ some (p, length p.out)
]
