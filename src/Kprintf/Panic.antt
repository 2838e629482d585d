-- ===== src/Kprintf/Panic.antt =====
-- panic (lib/kprintf.c): what it does before it loops for ever. The result is the console at that point.
use linda.Base.{
  ℕ, suc, ◌-◌, ◌<◌, ◌≡◌, ◌≢◌, refl, sym, ap, subst, ◌∙◌, Bool, true, false, List, [], ◌∷◌, Option,
  some, arith, length, ◌==◌, if◌then◌else◌, ne→==, Outcome, ok, panic, hang, overrun, ◌>>=◌,
}
use linda.Kernel.Spinlock.{Cpu, pushcli, popcli}
use linda.Kernel.Spinlock.Sections.{pushcli-IsMasked, acquire_lem}
use linda.Drivers.Console.{Console, console_put, console_write}
use linda.Drivers.Console.Cursor.{IsCursor}
use linda.Drivers.Console.Write.{IsFree, Written, NoBackspace, console_write-Written}
use linda.Kprintf.Convert.{Printer}
use linda.Kprintf.Format.{buf_size, in_buf, vsprintf, until_nul}
use linda.Kprintf.Format.Total.{vsprintf_total}
use linda.Kprintf.Format.Output.{NoBackspace-until_nul, in_buf_fits}

abbrev pub panic_error : List ℕ
panic_error =
    b'p' ∷ b'a' ∷ b'n' ∷ b'i' ∷ b'c' ∷ b' ' ∷ b'h' ∷ b'a' ∷ b's' ∷ b' ' ∷ b'a' ∷ b'n' ∷ b' ' ∷ b'e'
    ∷ b'r' ∷ b'r' ∷ b'o' ∷ b'r' ∷ b'!' ∷ []

abbrev pub with_cpu : Console → Cpu → Console
with_cpu s cpu = record s { cpu = cpu }

-- panic from the return of vsprintf on. Without text it loops with interrupts off.
unfoldable pub panic_result : Printer → Console → Outcome Console
panic_result p s =
    if length p.out == 0
    then console_write panic_error s
    else console_write (until_nul p.out) s >>= λ s'. popcli s'.cpu >>= λ cpu. ok (with_cpu s' cpu)

unfoldable pub kernel_panic : List ℕ → (ℕ → ℕ) → (ℕ → ℕ) → Console → Outcome Console
unfolding vsprintf in_buf panic_result
kernel_panic fmt words mem s =
    in_buf (vsprintf fmt words mem) >>= λ p. panic_result p (with_cpu s (pushcli s.cpu))

kernel_panic_fits :
    (fmt : List ℕ) (words mem : ℕ → ℕ) (s : Console) (p : Printer)
    → vsprintf fmt words mem ≡ some p
    → length p.out < buf_size
    → kernel_panic fmt words mem s ≡ panic_result p (with_cpu s (pushcli s.cpu))
unfolding kernel_panic
kernel_panic_fits fmt words mem s p e h =
    ap (λ (o : Option Printer). in_buf o >>= λ q. panic_result q (with_cpu s (pushcli s.cpu))) e
    ∙ rw (in_buf_fits p h) refl

-- The console when panic loops: its lock is free and its cursor in place.
abbrev pub Shown : Outcome Console → Type 0
Shown (ok s) = (s.cons.locked ≡ 0) × IsCursor s
Shown _ = ⊥

popcli_rest :
    (last saved : Bool) (c c' : Cpu)
    → (x : Cpu) × ((if last then (if saved then ok c else ok c') else ok c') ≡ ok x)
popcli_rest true true c c' = (c, refl)
popcli_rest true false c c' = (c', refl)
popcli_rest false saved c c' = (c', refl)

popcli_ends : (c : Cpu) → c.iflag ≡ false → c.ncli ≢ 0 → (c' : Cpu) × (popcli c ≡ ok c')
unfolding popcli
popcli_ends c e n =
    let (x, q) =
      popcli_rest (c.ncli - 1 == 0) c.intena
        (record { ncli = c.ncli - 1; intena = c.intena; iflag = true })
        (record { ncli = c.ncli - 1; intena = c.intena; iflag = false }) in
    (x, rw (e, ne→== c.ncli 0 n) q)

popped :
    (s : Console) (r : Outcome Console)
    → s.cpu.iflag ≡ false
    → s.cpu.ncli ≢ 0
    → Written s r
    → Shown (r >>= λ s'. popcli s'.cpu >>= λ cpu. ok (with_cpu s' cpu))
popped s (ok s') e n (f, c, i, k) =
    let (cpu, q) = popcli_ends s'.cpu (i ∙ e) (λ z. n (sym k ∙ z)) in
    rw q (f.unlocked, record { row = c.row; left = c.left; right = c.right })
popped s panic e n w = w
popped s hang e n w = w
popped s overrun e n w = w

with_cpu-IsFree : (s : Console) → IsFree s → IsFree (with_cpu s (pushcli s.cpu))
with_cpu-IsFree s f =
    let (m, _) = pushcli-IsMasked s.cpu in
    record { unlocked = f.unlocked; masked = record { masked = λ h. m.masked h } }

shown_lem : (s : Console) (r : Outcome Console) → Written s r → Shown r
shown_lem s (ok s') (f, c, _, _) = (f.unlocked, c)
shown_lem s panic w = w
shown_lem s hang w = w
shown_lem s overrun w = w

panic_result-Shown :
    (out : List ℕ) (arg : ℕ) (mem : ℕ → ℕ) (s : Console)
    → NoBackspace out
    → IsFree s
    → IsCursor s
    → s.cpu.iflag ≡ false
    → s.cpu.ncli ≢ 0
    → Shown (panic_result (record { out = out; arg = arg; mem = mem }) s)
unfolding panic_result
panic_result-Shown [] arg mem s b f c e n =
    shown_lem s (console_write panic_error s)
      (console_write-Written panic_error s (ground arith) f c)
panic_result-Shown (x ∷ xs) arg mem s b f c e n = rw (ne→== (suc (length xs)) 0 (omega arith)) (
    popped s (console_write (until_nul (x ∷ xs)) s) e n
      (console_write-Written (until_nul (x ∷ xs)) s (NoBackspace-until_nul (x ∷ xs) b) f c))

-- With the console free to be used and at most 1023 characters, no backspace among them, in what vsprintf
-- makes of the message, panic reaches
-- its endless loop: it does not panic again and does not hang before; the lock of the console is then free
-- and the cursor in place.
kernel_panic-Shown :
    (fmt : List ℕ) (words mem : ℕ → ℕ) (s : Console)
    → ((p : Printer)
        → vsprintf fmt words mem ≡ some p
        → NoBackspace p.out × (length p.out < buf_size))
    → IsFree s
    → IsCursor s
    → Shown (kernel_panic fmt words mem s)
kernel_panic-Shown fmt words mem s b f c =
    let s' = with_cpu s (pushcli s.cpu) in
    let (m, k) = pushcli-IsMasked s.cpu in
    let (p, e) = vsprintf_total fmt words mem in
    let open_call : (pushcli s.cpu).ncli ≢ 0 = λ z. absurd (omega (arith, k, z)) in
    subst Shown (sym (kernel_panic_fits fmt words mem s p e (b p e).1)) (
      panic_result-Shown p.out p.arg p.mem s' (b p e).0 (with_cpu-IsFree s f)
        (record { row = c.row; left = c.left; right = c.right }) (m.masked open_call) open_call)

console_write_held :
    (c : ℕ) (cs : List ℕ) (s : Console) → s.cons.locked ≢ 0 → console_write (c ∷ cs) s ≡ panic
unfolding console_write console_put
console_write_held c cs s h =
    let (a, _) = acquire_lem s.cons s.cpu in rw (a, ne→== s.cons.locked 0 h) refl

panic_result_held :
    (p : Printer) (c : ℕ) (cs : List ℕ) (s : Console)
    → s.cons.locked ≢ 0
    → p.out ≡ c ∷ cs
    → c ≢ 0
    → panic_result p s ≡ panic
unfolding panic_result until_nul
panic_result_held p c cs s h o n =
    rw
      (
        o,
        ne→== (suc (length cs)) 0 (omega arith),
        ne→== c 0 n,
        console_write_held c (until_nul cs) s h,
      )
      refl

-- With the lock of the console held, whatever the rest of the state, panic does not come to its loop: for a
-- message of 1 to 1023 characters whose first one is not NUL, it panics itself.
pub kernel_panic-again :
    (fmt : List ℕ) (words mem : ℕ → ℕ) (s : Console) (p : Printer) (c : ℕ) (cs : List ℕ)
    → s.cons.locked ≢ 0
    → vsprintf fmt words mem ≡ some p
    → p.out ≡ c ∷ cs
    → c ≢ 0
    → length p.out < buf_size
    → kernel_panic fmt words mem s ≡ panic
kernel_panic-again fmt words mem s p c cs h e o n l =
    kernel_panic_fits fmt words mem s p e l
    ∙ panic_result_held p c cs (with_cpu s (pushcli s.cpu)) h o n
