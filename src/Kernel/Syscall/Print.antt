-- ===== src/Kernel/Syscall/Print.antt =====
-- syscall and the only system call (kernel/syscall.c, kernel/sysapi.c: print). What %n writes is left out;
-- `words` is what lies where kprintf looks for its arguments, and `call` what lies at other addresses than
-- that of `print`.
use linda.Base.{
  ℕ, zero, suc, ◌+◌, ◌-◌, ◌<◌, ◌≡◌, ◌≢◌, refl, ap, ◌∙◌, List, [], ◌∷◌, Option, none, some, arith,
  length, Bool, true, false, leb, dec_lt, le→leb, lt→not_leb, ◌==◌, if◌then◌else◌, eq→==, ne→==,
  Outcome, ok, panic, hang, overrun, ◌>>=◌,
}
use linda.Mach.{u32_mod}
use linda.Drivers.Console.{Console, console_write}
use linda.Drivers.Console.Cursor.{IsCursor}
use linda.Drivers.Console.Write.{IsFree, Written, NoBackspace, console_write-Written}
use linda.Kprintf.Convert.{read_chars}
use linda.Kprintf.Format.{buf_size, until_nul, error_text, print_result, kprintf}
use linda.Kprintf.Format.Literal.{NoPercent, vsprintf-literal}
use linda.Kprintf.Format.Output.{NoBackspace-error_text, kprintf_fits, kprintf_overrun}
use linda.Kernel.Syscall.{Caller, argstr, syscall_target, sys_print}
use linda.Kernel.Syscall.Fetch.{argstr_in_process}

-- -1 as a word
abbrev pub minus_one : ℕ
minus_one = u32_mod - 1

abbrev pub arg_error : List ℕ
arg_error =
    b's' ∷ b'y' ∷ b's' ∷ b'c' ∷ b'a' ∷ b'l' ∷ b'l' ∷ b'[' ∷ b'p' ∷ b'r' ∷ b'i' ∷ b'n' ∷ b't' ∷ b']'
    ∷ b':' ∷ b' ' ∷ b'a' ∷ b'r' ∷ b'g' ∷ b' ' ∷ b'e' ∷ b'r' ∷ b'r' ∷ b'o' ∷ b'r' ∷ b'!' ∷ 10 ∷ []

abbrev pub unknown_call : List ℕ
unknown_call =
    b'%' ∷ b'd' ∷ b' ' ∷ b'%' ∷ b's' ∷ b':' ∷ b' ' ∷ b'u' ∷ b'n' ∷ b'k' ∷ b'n' ∷ b'o' ∷ b'w' ∷ b'n'
    ∷ b' ' ∷ b's' ∷ b'y' ∷ b's' ∷ b't' ∷ b'e' ∷ b'm' ∷ b' ' ∷ b'c' ∷ b'a' ∷ b'l' ∷ b'l' ∷ b' '
    ∷ b'%' ∷ b'd' ∷ b'!' ∷ 10 ∷ []

-- `print` from the answer of argstr on.
unfoldable pub print_string : (ℕ → ℕ) → Caller → Option (ℕ × ℕ) → Console → Outcome (ℕ × Console)
print_string words proc none s = kprintf arg_error words proc.mem s >>= λ r. ok (minus_one, r.1)
print_string words proc (some (msg, len)) s = kprintf (read_chars proc.mem msg len) words proc.mem s

unfoldable pub print : (ℕ → ℕ) → Caller → Console → Outcome (ℕ × Console)
unfolding print_string
print words proc s = print_string words proc (argstr 0 proc) s

abbrev pub System : Type 0
System = Caller → Console → Outcome (ℕ × Console)

-- The function at an address.
abbrev pub function_at : ℕ → System → (ℕ → System) → ℕ → System
function_at print_addr print call addr = if addr == print_addr then print else call addr

-- The arguments of the message: the number and the name of the process, and the number of the call.
abbrev pub message_words : ℕ → ℕ → ℕ → (ℕ → ℕ) → ℕ → ℕ
message_words pid name idx words i =
    if i == 0 then pid else if i == 1 then name else if i == 2 then idx else words i

-- `curproc->tf->eax = ...`
abbrev pub with_eax : Caller → ℕ × Console → Outcome (Caller × Console)
with_eax proc r = ok (record proc { eax = r.0 }, r.1)

-- syscall from the choice of the function on.
unfoldable pub call_target :
    (ℕ → System) → (ℕ → ℕ) → ℕ → ℕ → Option ℕ → Caller → Console → Outcome (Caller × Console)
call_target functions words pid name none proc s =
    kprintf unknown_call (message_words pid name proc.eax words) proc.mem s >>= λ r.
    with_eax proc (minus_one, r.1)
call_target functions words pid name (some f) proc s = functions f proc s >>= with_eax proc

unfoldable pub syscall :
    ℕ → (ℕ → ℕ) → (ℕ → System) → (ℕ → ℕ) → ℕ → ℕ → Caller → Console → Outcome (Caller × Console)
unfolding call_target print
syscall print_addr beyond call words pid name proc s =
    call_target (function_at print_addr (print words) call) words pid name
      (syscall_target print_addr beyond proc) proc s

-- No byte is zero.
abbrev NoNul : List ℕ → Type 0
NoNul [] = Unit
NoNul (c ∷ cs) = (c ≢ 0) × NoNul cs

until_nul_same : (cs : List ℕ) → NoNul cs → until_nul cs ≡ cs
unfolding until_nul
until_nul_same [] h = refl
until_nul_same (c ∷ cs) (n, h) = rw (ne→== c 0 n) (ap (◌∷◌ c) (until_nul_same cs h))

length-read_chars : (mem : ℕ → ℕ) (s len : ℕ) → length (read_chars mem s len) ≡ len
unfolding read_chars
length-read_chars mem s zero = refl
length-read_chars mem s (suc len) = ap suc (length-read_chars mem (suc s) len)

NoNul-read_chars :
    (mem : ℕ → ℕ) (s len : ℕ) → ((k : ℕ) → k < len → mem (s + k) ≢ 0) → NoNul (read_chars mem s len)
unfolding read_chars
NoNul-read_chars mem s zero h = tt
NoNul-read_chars mem s (suc len) h = (
  λ e. h 0 (omega arith) (ap mem (omega arith) ∙ e),
  NoNul-read_chars mem (suc s) len (λ k l e. h (suc k) (omega arith) (ap mem (omega arith) ∙ e)),
)

-- What kprintf writes for a text without percent signs.
abbrev pub shown : List ℕ → List ℕ
shown [] = error_text
shown (c ∷ cs) = c ∷ cs

kprintf-shown :
    (text : List ℕ) (words mem : ℕ → ℕ) (s : Console)
    → NoPercent text
    → NoNul text
    → length text < buf_size
    → kprintf text words mem s ≡ (console_write (shown text) s >>= λ s'. ok (length text, s'))
unfolding print_result
kprintf-shown text words mem s p n l =
    kprintf_fits text words mem s _ (vsprintf-literal text words mem p) l ∙ shows text mem s n
  where
    shows :
        (text : List ℕ) (mem : ℕ → ℕ) (s : Console)
        → NoNul text
        → print_result (record { out = text; arg = 0; mem = mem }) s
          ≡ (console_write (shown text) s >>= λ s'. ok (length text, s'))
    shows [] mem s n = refl
    shows (c ∷ cs) mem s (d, n) =
        rw (ne→== (suc (length cs)) 0 (omega arith), ne→== c 0 d, until_nul_same cs n) refl

-- The string does not fit into the buffer of kprintf.
abbrev pub too_long : Option (ℕ × ℕ) → Bool
too_long none = false
too_long (some (msg, len)) = leb buf_size len

-- What the call of `print` writes, and what it returns.
abbrev pub printed : Caller → Option (ℕ × ℕ) → List ℕ
printed proc none = arg_error
printed proc (some (msg, len)) = shown (read_chars proc.mem msg len)

abbrev pub result : Option (ℕ × ℕ) → ℕ
result none = minus_one
result (some (msg, len)) = len

-- A string of the process that kprintf prints as it is.
abbrev pub IsPlain : Caller → Option (ℕ × ℕ) → Type 0
IsPlain proc none = Unit
IsPlain proc (some (msg, len)) =
    NoPercent (read_chars proc.mem msg len) × NoBackspace (read_chars proc.mem msg len)

abbrev ok_with : ℕ → Outcome Console → Outcome (ℕ × Console)
ok_with n r = r >>= λ s. ok (n, s)

recount : (k n : ℕ) (r : Outcome Console) → (ok_with k r >>= λ a. ok (n, a.1)) ≡ ok_with n r
recount k n (ok s) = refl
recount k n panic = refl
recount k n hang = refl
recount k n overrun = refl

print_string_lem :
    (words : ℕ → ℕ) (proc : Caller) (r : Option (ℕ × ℕ)) (s : Console)
    → argstr 0 proc ≡ r
    → IsPlain proc r
    → print_string words proc r s ≡ (
        if too_long r
        then overrun
        else console_write (printed proc r) s >>= λ s'. ok (result r, s'))
unfolding print_string
print_string_lem words proc none s e p =
    ap (λ (o : Outcome (ℕ × Console)). o >>= λ r. ok (minus_one, r.1))
      (kprintf-shown arg_error words proc.mem s (ground arith) (ground arith) (omega arith))
    ∙ recount (length arg_error) minus_one (console_write arg_error s)
print_string_lem words proc (some (msg, len)) s e (p, b) =
    let (_, (_, _, _, nz)) = argstr_in_process 0 msg len proc e in
    let text = read_chars proc.mem msg len in
    let count = length-read_chars proc.mem msg len in
    elim (dec_lt len buf_size) [
      | yes l ↦ rw (lt→not_leb len buf_size l) (
          kprintf-shown text words proc.mem s p (NoNul-read_chars proc.mem msg len nz)
            (omega (arith, count, l))
          ∙ ap (λ (n : ℕ). console_write (shown text) s >>= λ s'. ok (n, s')) count)
      | no g ↦ rw (le→leb buf_size len (omega (arith, g))) (
          kprintf_overrun text words proc.mem s _ (vsprintf-literal text words proc.mem p)
            (omega (arith, count, g)))
    ]

NoBackspace-shown : (cs : List ℕ) → NoBackspace cs → NoBackspace (shown cs)
NoBackspace-shown [] b = NoBackspace-error_text
NoBackspace-shown (c ∷ cs) b = b

NoBackspace-printed :
    (proc : Caller) (r : Option (ℕ × ℕ)) → IsPlain proc r → NoBackspace (printed proc r)
NoBackspace-printed proc none p = ground arith
NoBackspace-printed proc (some (msg, len)) (p, b) =
    NoBackspace-shown (read_chars proc.mem msg len) b

with_branch :
    (proc : Caller) (b : Bool) (r : Outcome (ℕ × Console))
    → ((if b then overrun else r) >>= with_eax proc) ≡ (if b then overrun else r >>= with_eax proc)
with_branch proc true r = refl
with_branch proc false r = refl

with_result :
    (proc : Caller) (n : ℕ) (r : Outcome Console)
    → (ok_with n r >>= with_eax proc) ≡ (r >>= λ s. with_eax proc (n, s))
with_result proc n (ok s) = refl
with_result proc n panic = refl
with_result proc n hang = refl
with_result proc n overrun = refl

-- SYS_PRINT reaches `print`.
target_print :
    (print_addr : ℕ) (beyond : ℕ → ℕ) (proc : Caller)
    → print_addr ≢ 0
    → proc.eax ≡ sys_print
    → syscall_target print_addr beyond proc ≡ some print_addr
unfolding syscall_target
target_print print_addr beyond proc h e = ground arith

-- The system call of number SYS_PRINT, with `print` at an address other than NULL. If the first argument
-- points to a string within the process, without percent signs and backspaces and of at most 1023
-- characters, it prints the string and returns its length; for the empty string it prints the error of
-- kprintf. A longer one is written beyond the end of kprintf's buffer on the stack of the kernel. If the
-- first argument is not such a pointer it prints its own error and returns -1. Nothing else of the process
-- changes. With the console free, its cursor in place and interrupts off while some pushcli is open,
-- console_write of what is printed neither panics nor hangs: the console is free again and its cursor in
-- place, and the processor has the interrupt flag and the count that it had.
pub syscall-Written :
    (print_addr : ℕ) (beyond : ℕ → ℕ) (call : ℕ → System) (words : ℕ → ℕ) (pid name : ℕ)
    (proc : Caller) (s : Console)
    → print_addr ≢ 0
    → proc.eax ≡ sys_print
    → IsPlain proc (argstr 0 proc)
    → IsFree s
    → IsCursor s
    → (syscall print_addr beyond call words pid name proc s ≡ (
        if too_long (argstr 0 proc)
        then overrun
        else console_write (printed proc (argstr 0 proc)) s >>= λ s'.
            ok (record proc { eax = result (argstr 0 proc) }, s')))
      × Written s (console_write (printed proc (argstr 0 proc)) s)
unfolding syscall
syscall-Written print_addr beyond call words pid name proc s h e p f c = (
  rw (target_print print_addr beyond proc h e, eq→== print_addr print_addr refl)
      (ap (λ (o : Outcome (ℕ × Console)). o >>= with_eax proc)
          (print_string_lem words proc (argstr 0 proc) s refl p)
        ∙ with_branch proc (too_long (argstr 0 proc)) _
        ∙ ap (λ (o : Outcome (Caller × Console)). if too_long (argstr 0 proc) then overrun else o)
            (with_result proc (result (argstr 0 proc))
              (console_write (printed proc (argstr 0 proc)) s))),
  console_write-Written (printed proc (argstr 0 proc)) s
      (NoBackspace-printed proc (argstr 0 proc) p) f c,
)
