-- ===== src/Kprintf/Format/Tests.antt =====
-- Runs of vsprintf, and its theorems at concrete inputs.
use linda.Base.{
  ℕ, ◌≡◌, refl, true, false, List, [], ◌∷◌, ◌++◌, Option, none, some, arith, pos, length, sym,
  panic, subst,
}
use linda.Ctype.{isxdigit, isdigit}
use linda.Drivers.Console.{Console}
use linda.Drivers.Console.Write.{NoBackspace}
use linda.Kprintf.Format.Literal.{vsprintf-literal, vsprintf-simple_strtoul, Plain}
use linda.Kprintf.Format.Output.{Printed, kprintf-Returned}
use linda.Kprintf.Panic.{kernel_panic, kernel_panic-again}
use linda.Kprintf.Convert.{Printer}
use linda.Kprintf.Format.{vsprintf, conversion, kprintf}
use linda.Kprintf.{
  number_text, layout, repeat, sign_of, prefix_of, from_top, digits_of, divide_out, spent,
  simple_strtoul,
}

abbrev no_memory : ℕ → ℕ
no_memory _ = 0

abbrev out_of : Option Printer → List ℕ
out_of none = []
out_of (some p) = p.out

-- sprintf("%-5d|", -42)
signed_run :
    out_of (vsprintf (b'%' ∷ b'-' ∷ b'5' ∷ b'd' ∷ b'|' ∷ []) (λ _. 0xFFFF_FFD6) no_memory)
    ≡ b'-' ∷ b'4' ∷ b'2' ∷ b' ' ∷ b' ' ∷ b'|' ∷ []
unfolding vsprintf conversion number_text layout repeat sign_of prefix_of from_top digits_of
    divide_out spent
signed_run = refl

-- sprintf("%#x", 255)
special_run :
    out_of (vsprintf (b'%' ∷ b'#' ∷ b'x' ∷ []) (λ _. 255) no_memory)
    ≡ b'0' ∷ b'x' ∷ b'f' ∷ b'f' ∷ []
unfolding vsprintf conversion number_text layout repeat sign_of prefix_of from_top digits_of
    divide_out spent
special_run = refl

-- sprintf("%4294967301u|", 42): the width wraps around to 5.
wide_run :
    out_of (
      vsprintf
        (b'%' ∷ b'4' ∷ b'2' ∷ b'9' ∷ b'4' ∷ b'9' ∷ b'6' ∷ b'7' ∷ b'3' ∷ b'0' ∷ b'1' ∷ b'u' ∷ b'|'
          ∷ [])
        (λ _. 42)
        no_memory)
    ≡ b' ' ∷ b' ' ∷ b' ' ∷ b'4' ∷ b'2' ∷ b'|' ∷ []
unfolding vsprintf conversion number_text layout repeat sign_of prefix_of from_top digits_of
    divide_out spent
wide_run = refl

abbrev hi : List ℕ
hi = b'h' ∷ b'i' ∷ []

vsprintf-simple_strtoul_example :
    (text : List ℕ) × (vsprintf (hi ++ b'%' ∷ b'x' ∷ b'!' ∷ []) (λ _. 48879) no_memory
      ≡ some (record { out = hi ++ text ++ b'!' ∷ []; arg = 1; mem = no_memory }))
    × (simple_strtoul (text ++ b'!' ∷ []) 16 ≡ (48879, b'!' ∷ []))
unfolding isxdigit isdigit
vsprintf-simple_strtoul_example =
    vsprintf-simple_strtoul hi (b'!' ∷ []) (λ _. 48879) no_memory Plain.hexadecimal
      (omega arith, (omega arith, tt)) (omega arith, tt) (omega arith) refl

-- The screen, with the cursor at its start and interrupts on.
abbrev screen : Console
screen = record {
  console_y = 0;
  console_x = pos 0;
  console_fb = λ _. 0;
  cons = record { locked = 0 };
  cpu = record { ncli = 0; intena = false; iflag = true };
  out = [];
}

hi-NoBackspace : (p : Printer) → vsprintf hi no_memory no_memory ≡ some p → NoBackspace p.out
hi-NoBackspace p e =
    let same : p ≡ record { out = hi; arg = 0; mem = no_memory } =
      cc (e, vsprintf-literal hi no_memory no_memory (omega arith, (omega arith, tt))) in
    subst (λ (q : Printer). NoBackspace q.out) (sym same) (omega arith, (omega arith, tt))

kprintf-Returned_example :
    (p : Printer) × (vsprintf hi no_memory no_memory ≡ some p)
    × Printed (length p.out) screen (kprintf hi no_memory no_memory screen)
kprintf-Returned_example =
    kprintf-Returned hi no_memory no_memory screen hi-NoBackspace
      (record { unlocked = refl; masked = record { masked = λ h. absurd (h refl) } })
      (record { row = omega arith; left = omega arith; right = omega arith })

-- A panic while the console is being written to.
kernel_panic-again_example :
    kernel_panic hi no_memory no_memory (record screen { cons = record { locked = 1 } }) ≡ panic
kernel_panic-again_example =
    kernel_panic-again hi no_memory no_memory (record screen { cons = record { locked = 1 } })
      (record { out = hi; arg = 0; mem = no_memory }) b'h' (b'i' ∷ []) (omega arith)
      (vsprintf-literal hi no_memory no_memory (omega arith, (omega arith, tt))) refl (omega arith)
      (omega arith)
