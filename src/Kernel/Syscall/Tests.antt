-- ===== src/Kernel/Syscall/Tests.antt =====
-- Runs of the calls that read arguments, for a process of 64 bytes whose stack pointer is at 8.
use linda.Base.{
  ℕ, ◌+◌, ◌^◌, ◌≤◌, ◌<◌, ◌≡◌, refl, some, arith, ◌==◌, if◌then◌else◌, [], ◌∷◌, false, true, pos, ok,
  panic, overrun, ◌>>=◌,
}
use linda.Drivers.Console.{Console, console_write}
use linda.Drivers.Console.Cursor.{IsCursor}
use linda.Drivers.Console.Write.{IsFree, Written}
use linda.Kprintf.Convert.{read_chars}
use linda.Kernel.Syscall.Print.{
  System, syscall, too_long, printed, result, IsPlain, syscall-Written,
}
use linda.Kernel.Syscall.{Caller, fetch_str, argint, argptr, argstr}
use linda.Kernel.Syscall.Fetch.{argptr_in_process}

-- The first argument, at 12, is 32, where the string "hi" lies.
abbrev memory : ℕ → ℕ
memory a = if a == 12 then 32 else if a == 32 then 104 else if a == 33 then 105 else 0

abbrev proc : Caller
proc = record { size = 64; esp = 8; eax = 30; mem = memory }

fetch_str_run : fetch_str 32 proc ≡ some (32, 2)
unfolding fetch_str
fetch_str_run = refl

argptr_run : argptr 0 8 proc ≡ some 32
unfolding argptr
argptr_run = refl

argstr_run : argstr 0 proc ≡ some (32, 2)
unfolding argstr
argstr_run = refl

argptr_in_process_example : (argint 0 proc ≡ some 32) × (8 < 2 ^ 31) × (32 < 64) × (32 + 8 ≤ 64)
argptr_in_process_example = argptr_in_process 0 8 32 proc (omega arith) argptr_run

-- The same process asks for "hi" to be printed.
abbrev printing : Caller
printing = record proc { eax = 22 }

abbrev screen : Console
screen = record {
  console_y = 0;
  console_x = pos 0;
  console_fb = λ _. 0;
  cons = record { locked = 0 };
  cpu = record { ncli = 0; intena = false; iflag = true };
  out = [];
}

hi_printed : printed printing (argstr 0 printing) ≡ b'h' ∷ b'i' ∷ []
unfolding argstr read_chars
hi_printed = refl

hi-IsPlain : IsPlain printing (argstr 0 printing)
unfolding argstr read_chars
hi-IsPlain = omega arith

screen-IsFree : IsFree screen
screen-IsFree = record { unlocked = refl; masked = record { masked = λ h. absurd (h refl) } }

screen-IsCursor : IsCursor screen
screen-IsCursor = record { row = omega arith; left = omega arith; right = omega arith }

abbrev others : ℕ → System
others addr caller s = panic

syscall-Written_example :
    (syscall 500 (λ _. 7) others (λ _. 0) 1 0 printing screen ≡ (
      if too_long (argstr 0 printing)
      then overrun
      else console_write (printed printing (argstr 0 printing)) screen >>= λ s'.
          ok (record printing { eax = result (argstr 0 printing) }, s')))
    × Written screen (console_write (printed printing (argstr 0 printing)) screen)
syscall-Written_example =
    syscall-Written 500 (λ _. 7) others (λ _. 0) 1 0 printing screen (omega arith) refl hi-IsPlain
      screen-IsFree screen-IsCursor
