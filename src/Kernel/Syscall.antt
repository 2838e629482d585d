-- ===== src/Kernel/Syscall.antt =====
-- kernel/syscall.c: how a system call reads its arguments from the memory of the process, and which
-- function it calls. `mem` is the memory of the process, byte by byte; an `int` is the number below
-- 2 ^ 32 that its bits make. A function that answers -1 is `none`.
pub mod Fetch
pub mod Print
mod Tests
use linda.Base.{
  ℕ, zero, suc, ◌+◌, ◌-◌, ◌*◌, ◌%◌, ◌^◌, Bool, true, false, not, ◌&&◌, ◌||◌, Option, none, some,
  ltb, leb, ◌==◌, if◌then◌else◌,
}
use linda.Mach.{u32_mod, add32}

-- What the functions read of `curproc()`: its size, and `esp` and `eax` of its trap frame.
pub record Caller : Type 0 where
  pub size : ℕ
  pub esp : ℕ
  pub eax : ℕ
  pub mem : ℕ → ℕ

-- `*(int*)addr`, on a little-endian machine
abbrev pub load_int : (ℕ → ℕ) → ℕ → ℕ
load_int mem addr =
    mem addr + mem (addr + 1) * 2 ^ 8 + mem (addr + 2) * 2 ^ 16 + mem (addr + 3) * 2 ^ 24

infixl 5 ◌>>=?◌
abbrev pub ◌>>=?◌ {ℓ κ} : {A : Type ℓ} {B : Type κ} → Option A → (A → Option B) → Option B
none >>=? f = none
some a >>=? f = f a

unfoldable pub fetch_int : ℕ → Caller → Option ℕ
fetch_int addr proc =
    if leb proc.size addr || ltb proc.size (add32 addr 4)
    then none
    else some (load_int proc.mem addr)

-- The loop over the bytes from `s` on, `rounds` of them before the end of the process.
unfoldable pub find_nul : (ℕ → ℕ) → ℕ → ℕ → Option ℕ
find_nul mem zero s = none
find_nul mem (suc rounds) s =
    let rest = find_nul mem rounds (suc s) in if mem s == 0 then some s else rest

-- The string, and its length.
unfoldable pub fetch_str : ℕ → Caller → Option (ℕ × ℕ)
unfolding find_nul
fetch_str addr proc =
    if leb proc.size addr
    then none
    else find_nul proc.mem (proc.size - addr) addr >>=? λ s. some (addr, s - addr)

unfoldable pub argint : ℕ → Caller → Option ℕ
unfolding fetch_int
argint n proc = fetch_int (add32 (add32 proc.esp (n * 4)) 4) proc

-- `size` is an `int`: it is negative from 2 ^ 31 on.
unfoldable pub argptr : ℕ → ℕ → Caller → Option ℕ
unfolding argint
argptr n size proc = argint n proc >>=? λ addr.
    if leb (2 ^ 31) size || leb proc.size addr || ltb proc.size (add32 addr size)
    then none
    else some addr

unfoldable pub argstr : ℕ → Caller → Option (ℕ × ℕ)
unfolding argint fetch_str
argstr n proc = argint n proc >>=? λ addr. fetch_str addr proc

abbrev pub sys_print : ℕ
sys_print = 22

-- `syscalls[idx]`: the table ends with the entry of SYS_PRINT, the only one that is set. `beyond` is
-- what lies in memory behind the table, and `print` the address of the function of that name.
unfoldable pub syscalls : ℕ → (ℕ → ℕ) → ℕ → ℕ
syscalls print beyond idx =
    if idx == sys_print then print else if ltb idx sys_print then 0 else beyond idx

-- The function that syscall() calls, or `none` if it answers -1 with a message.
unfoldable pub syscall_target : ℕ → (ℕ → ℕ) → Caller → Option ℕ
unfolding syscalls
syscall_target print beyond proc =
    let idx = proc.eax in
    if ltb 0 idx && ltb idx (2 ^ 31) && not (syscalls print beyond idx == 0)
    then some (syscalls print beyond idx)
    else none
