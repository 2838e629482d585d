-- ===== src/Kernel/Syscall/Fetch.antt =====
-- The arguments of a system call (kernel/syscall.c) lie within the memory of the process.
use linda.Base.{
  ℕ, zero, suc, ◌+◌, ◌-◌, ◌^◌, ◌≤◌, ◌<◌, ◌≡◌, ◌≢◌, refl, ◌||◌, Option, none, some, arith, ltb, leb,
  ◌==◌, if◌then◌else◌, ℕ_discrete, dec_lt, subst, eq→==, ne→==, lt→not_leb, le→leb, ap, sym,
}
use linda.Mach.{u32_mod, add32}
use linda.Kernel.Syscall.{
  Caller, load_int, ◌>>=?◌, fetch_int, find_nul, fetch_str, argint, argptr, argstr, syscall_target,
  sys_print,
}

-- For a process of at most 2^32 - 4 bytes fetch_int gives the int at an address exactly if its four
-- bytes lie within the process, and -1 otherwise.
fetch_int_lem :
    (addr : ℕ) (proc : Caller)
    → proc.size + 4 ≤ u32_mod
    → fetch_int addr proc
      ≡ (if leb (addr + 4) proc.size then some (load_int proc.mem addr) else none)
unfolding fetch_int
fetch_int_lem addr proc h = ground arith

-- What fetch_str may answer: a string within the process that ends at the first zero byte behind its
-- start, or -1 if the start lies outside or no zero byte follows within the process.
abbrev pub StringAt : ℕ → Caller → Option (ℕ × ℕ) → Type 0
StringAt addr proc (some (s, len)) =
    (s ≡ addr)
    × (addr + len < proc.size)
    × (proc.mem (addr + len) ≡ 0)
    × ((k : ℕ) → k < len → proc.mem (addr + k) ≢ 0)
StringAt addr proc none = (k : ℕ) → addr + k < proc.size → proc.mem (addr + k) ≢ 0

abbrev NulAt : (ℕ → ℕ) → ℕ → ℕ → Option ℕ → Type 0
NulAt mem rounds s (some e) =
    (s ≤ e) × (e < s + rounds) × (mem e ≡ 0) × ((k : ℕ) → s ≤ k → k < e → mem k ≢ 0)
NulAt mem rounds s none = (k : ℕ) → s ≤ k → k < s + rounds → mem k ≢ 0

later :
    (mem : ℕ → ℕ) (rounds s : ℕ) (r : Option ℕ)
    → mem s ≢ 0
    → NulAt mem rounds (suc s) r
    → NulAt mem (suc rounds) s r
later mem rounds s none ne h = λ k a b. elim (ℕ_discrete s k) [
  | yes e ↦ subst (λ (t : ℕ). mem t ≢ 0) e ne
  | no d ↦ h k (omega arith) (omega arith)
]
later mem rounds s (some e) ne (a, b, z, h) = (
  omega arith,
  omega arith,
  z,
  λ k x y. elim (ℕ_discrete s k) [
    | yes q ↦ subst (λ (t : ℕ). mem t ≢ 0) q ne
    | no d ↦ h k (omega arith) y
  ],
)

find_nul-NulAt : (mem : ℕ → ℕ) (rounds s : ℕ) → NulAt mem rounds s (find_nul mem rounds s)
unfolding find_nul
find_nul-NulAt mem zero s = λ k h l. absurd (omega arith)
find_nul-NulAt mem (suc rounds) s = elim (ℕ_discrete (mem s) 0) [
  | yes z ↦ rw (eq→== _ _ z) (omega arith, omega arith, z, λ k a b. absurd (omega arith))
  | no ne ↦ rw (ne→== _ _ ne) (later mem rounds s _ ne (find_nul-NulAt mem rounds (suc s)))
]

StringAt-of :
    (addr : ℕ) (proc : Caller) (r : Option ℕ)
    → addr < proc.size
    → NulAt proc.mem (proc.size - addr) addr r
    → StringAt addr proc (r >>=? λ s. some (addr, s - addr))
StringAt-of addr proc none lt h = λ k l. h (addr + k) (omega arith) (omega arith)
StringAt-of addr proc (some e) lt (a, b, z, h) =
    let back : addr + (e - addr) ≡ e = omega arith in
    (refl, omega arith, rw back z, λ k l. h (addr + k) (omega arith) (omega arith))

-- fetch_str ends and answers a string within the process that ends at the first zero byte from the
-- given address on; it answers -1 exactly if no byte from there on within the process is zero.
fetch_str-StringAt : (addr : ℕ) (proc : Caller) → StringAt addr proc (fetch_str addr proc)
unfolding fetch_str
fetch_str-StringAt addr proc = elim (dec_lt addr proc.size) [
  | yes lt ↦ rw (lt→not_leb addr proc.size lt) (
      StringAt-of addr proc (find_nul proc.mem (proc.size - addr) addr) lt
        (find_nul-NulAt proc.mem (proc.size - addr) addr))
  | no ge ↦ rw (le→leb proc.size addr (omega arith)) (λ k l. absurd (omega arith))
]

argptr_cases :
    (r : Option ℕ) (size addr : ℕ) (proc : Caller)
    → proc.size ≤ 2 ^ 31
    → (r >>=? λ a.
        if leb (2 ^ 31) size || leb proc.size a || ltb proc.size (add32 a size)
        then none
        else some a)
      ≡ some addr
    → (r ≡ some addr) × (size < 2 ^ 31) × (addr < proc.size) × (addr + size ≤ proc.size)
argptr_cases none size addr proc h e = cc
argptr_cases (some a) size addr proc h e = (ground arith, ground arith, ground arith, ground arith)

-- For a process of at most 2^31 bytes every pointer that argptr accepts is the n-th argument, and the
-- whole area of the given size behind it lies within the process.
pub argptr_in_process :
    (n size addr : ℕ) (proc : Caller)
    → proc.size ≤ 2 ^ 31
    → argptr n size proc ≡ some addr
    → (argint n proc ≡ some addr) × (size < 2 ^ 31) × (addr < proc.size) × (addr + size ≤ proc.size)
unfolding argptr
argptr_in_process n size addr proc h e = argptr_cases (argint n proc) size addr proc h e

argstr_cases :
    (r : Option ℕ) (addr len : ℕ) (proc : Caller)
    → (r >>=? λ a. fetch_str a proc) ≡ some (addr, len)
    → (r ≡ some addr) × StringAt addr proc (some (addr, len))
argstr_cases none addr len proc e = cc
argstr_cases (some a) addr len proc e =
    let s = rw e at (fetch_str-StringAt a proc) in
    (ap some (sym s.0), (refl, rw s.0 s.1, rw s.0 s.2, λ k l. rw s.0 (s.3 k l)))

-- Every string that argstr accepts is the n-th argument, ends within the process at its first zero
-- byte, and has the length that is answered.
pub argstr_in_process :
    (n addr len : ℕ) (proc : Caller)
    → argstr n proc ≡ some (addr, len)
    → (argint n proc ≡ some addr) × StringAt addr proc (some (addr, len))
unfolding argstr
argstr_in_process n addr len proc e = argstr_cases (argint n proc) addr len proc e

-- A number up to that of SYS_PRINT reaches no other function than `print`, under its own number; a
-- positive number above it is not refused, but taken from the memory behind the table: whatever
-- non-zero word lies there is called.
syscall_target_beyond :
    (print : ℕ) (beyond : ℕ → ℕ) (proc : Caller)
    → print ≢ 0
    → proc.eax < 2 ^ 31
    → beyond proc.eax ≢ 0
    → syscall_target print beyond proc ≡ (
        if ltb proc.eax sys_print
        then none
        else some (if proc.eax == sys_print then print else beyond proc.eax))
unfolding syscall_target
syscall_target_beyond print beyond proc p h b = ground arith
