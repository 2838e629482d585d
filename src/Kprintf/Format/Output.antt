-- ===== src/Kprintf/Format/Output.antt =====
-- kprintf (lib/kprintf.c) on the console.
use linda.Base.{
  ℕ, ◌≡◌, ◌≤◌, ◌<◌, ◌⊎◌, inl, inr, Option, dec_lt, le→leb, lt→not_leb, ap, ◌∙◌, refl, sym, subst,
  Bool, true, false, List, [], ◌∷◌, some, arith, ne→==, ◌==◌, if◌then◌else◌, length, Outcome, ok,
  panic, hang, overrun, ◌>>=◌,
}
use linda.Drivers.Console.{Console, console_write}
use linda.Drivers.Console.Cursor.{IsCursor}
use linda.Drivers.Console.Write.{IsFree, Written, NoBackspace, console_write-Written}
use linda.Kprintf.Convert.{Printer}
use linda.Kprintf.Format.{buf_size, in_buf, vsprintf, until_nul, error_text, print_result, kprintf}
use linda.Kprintf.Format.Total.{vsprintf_total}

pub NoBackspace-until_nul : (cs : List ℕ) → NoBackspace cs → NoBackspace (until_nul cs)
unfolding until_nul
NoBackspace-until_nul [] b = b
NoBackspace-until_nul (c ∷ cs) (b, bs) =
    let h = NoBackspace-until_nul cs bs in
    elim (c == 0) as (λ (t : Bool). NoBackspace (if t then [] else c ∷ until_nul cs)) [
      | true ↦ tt
      | false ↦ (b, h)
    ]

-- kprintf returned `n`, and left the console as console_write leaves it.
abbrev pub Returned : ℕ → Console → Outcome (ℕ × Console) → Type 0
Returned n s (ok (m, t)) = (m ≡ n) × Written s (ok t)
Returned n s _ = ⊥

with_count :
    (n : ℕ) (s : Console) (r : Outcome Console) → Written s r → Returned n s (r >>= λ t. ok (n, t))
with_count n s (ok t) w = (refl, w)
with_count n s panic w = w
with_count n s hang w = w
with_count n s overrun w = w

pub NoBackspace-error_text : NoBackspace error_text
NoBackspace-error_text = ground arith

pub print_result-Returned :
    (p : Printer) (s : Console)
    → NoBackspace p.out
    → IsFree s
    → IsCursor s
    → Returned (length p.out) s (print_result p s)
unfolding print_result
print_result-Returned p s b f c = of p.out b
  where
    of :
        (out : List ℕ)
        → NoBackspace out
        → Returned (length out) s (
            if length out == 0
            then (console_write error_text s >>= λ s'. ok (0, s'))
            else console_write (until_nul out) s >>= λ s'. ok (length out, s'))
    of [] b' =
        with_count 0 s (console_write error_text s)
          (console_write-Written error_text s NoBackspace-error_text f c)
    of (x ∷ xs) b' = rw (ne→== (length (x ∷ xs)) 0 (omega arith)) (
        with_count (length (x ∷ xs)) s (console_write (until_nul (x ∷ xs)) s)
          (console_write-Written (until_nul (x ∷ xs)) s (NoBackspace-until_nul (x ∷ xs) b') f c))

-- The two branches of in_buf.
pub in_buf_fits : (p : Printer) → length p.out < buf_size → in_buf (some p) ≡ ok p
unfolding in_buf
in_buf_fits p h = rw (lt→not_leb (length p.out) buf_size h) refl

pub in_buf_overrun : (p : Printer) → buf_size ≤ length p.out → in_buf (some p) ≡ overrun
unfolding in_buf
in_buf_overrun p h = rw (le→leb buf_size (length p.out) h) refl

-- kprintf, by the length of what vsprintf makes of the call.
pub kprintf_fits :
    (fmt : List ℕ) (words mem : ℕ → ℕ) (s : Console) (p : Printer)
    → vsprintf fmt words mem ≡ some p
    → length p.out < buf_size
    → kprintf fmt words mem s ≡ print_result p s
unfolding kprintf
kprintf_fits fmt words mem s p e h =
    ap (λ (o : Option Printer). in_buf o >>= λ q. print_result q s) e ∙ rw (in_buf_fits p h) refl

pub kprintf_overrun :
    (fmt : List ℕ) (words mem : ℕ → ℕ) (s : Console) (p : Printer)
    → vsprintf fmt words mem ≡ some p
    → buf_size ≤ length p.out
    → kprintf fmt words mem s ≡ overrun
unfolding kprintf
kprintf_overrun fmt words mem s p e h =
    ap (λ (o : Option Printer). in_buf o >>= λ q. print_result q s) e ∙ rw (in_buf_overrun p h) refl

-- What kprintf does when vsprintf makes `n` characters of the call: with 1023 at most it returns their
-- number, and with more it writes beyond its buffer.
abbrev pub Printed : ℕ → Console → Outcome (ℕ × Console) → Type 0
Printed n s r = ((n < buf_size) × Returned n s r) ⊎ ((buf_size ≤ n) × (r ≡ overrun))

-- For every format, whatever the arguments and the memory, vsprintf ends. If it makes at most 1023
-- characters, kprintf returns their number: the lock of the console is free again, the cursor is in place,
-- and the processor has the interrupt flag and the count that it had. If it makes more, kprintf writes
-- beyond the end of its buffer. The console must be free at the start, its cursor in place, interrupts
-- off while some pushcli is open, and no character that vsprintf makes a backspace.
pub kprintf-Returned :
    (fmt : List ℕ) (words mem : ℕ → ℕ) (s : Console)
    → ((p : Printer) → vsprintf fmt words mem ≡ some p → NoBackspace p.out)
    → IsFree s
    → IsCursor s
    → (p : Printer) × (vsprintf fmt words mem ≡ some p)
      × Printed (length p.out) s (kprintf fmt words mem s)
kprintf-Returned fmt words mem s b f c =
    let (p, e) = vsprintf_total fmt words mem in
    (
      p,
      e,
      elim (dec_lt (length p.out) buf_size) [
        | yes h ↦ inl (
          h,
          subst (Returned (length p.out) s) (sym (kprintf_fits fmt words mem s p e h))
              (print_result-Returned p s (b p e) f c),
        )
        | no h ↦ inr (omega (arith, h), kprintf_overrun fmt words mem s p e (omega (arith, h)))
      ],
    )
