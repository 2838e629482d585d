-- ===== src/Kprintf/Boot/Messages.antt =====
-- What the first calls of kern_bootstrap (init/bootstrap.c) leave: the messages before the tables are
-- set up.
use linda.Base.{
  sym, length, ◌<◌, ℕ, ◌≡◌, refl, subst, ◌∙◌, List, [], ◌∷◌, ◌++◌, some, ◌==◌, if◌then◌else◌,
  ℕ_discrete, eq→==, ne→==, Outcome, ok, panic, hang, overrun, arith,
}
use linda.Kernel.Spinlock.{initlock}
use linda.Drivers.Console.{Console, console_init}
use linda.Drivers.Console.Cursor.{IsCursor}
use linda.Drivers.Console.Write.{IsFree, Written, NoBackspace}
use linda.Kprintf.{number_text}
use linda.Kprintf.Convert.{Printer}
use linda.Kprintf.Format.{buf_size, vsprintf, kprintf}
use linda.Kprintf.Format.Output.{Returned, kprintf_fits, print_result-Returned}
use linda.Kprintf.Clean.{NoBackspace-append, NoBackspace-number_text}
use linda.Kprintf.Boot.{
  multiboot_bootloader_magic, invalid_multiboot, hello, have_fun, kernel_info, Bootstrap, arguments,
  init_glb_mboot, show_welcome_msg, show_kernel_info, boot_messages,
}
use linda.Kprintf.Boot.Texts.{
  magic_text, invalid_multiboot_lem, kernel_info_lem, hello_lem, literals, NoBackspace-addresses,
  invalid_multiboot_fits, addresses_fit,
}

-- A call of kprintf that returned, with the console that it left.
abbrev Returns : List ℕ → (ℕ → ℕ) → (ℕ → ℕ) → Console → Type 0
Returns fmt words mem s =
    (n : ℕ) × (t : Console) × (kprintf fmt words mem s ≡ ok (n, t)) × Written s (ok t)

Returned-Returns :
    (n : ℕ) (s : Console) (r : Outcome (ℕ × Console))
    → Returned n s r
    → (m : ℕ) × (t : Console) × (r ≡ ok (m, t)) × Written s (ok t)
Returned-Returns n s (ok (m, t)) (e, w) = (m, t, refl, w)
Returned-Returns n s panic h = absurd h
Returned-Returns n s hang h = absurd h
Returned-Returns n s overrun h = absurd h

kprintf-Returns :
    (fmt : List ℕ) (words mem : ℕ → ℕ) (s : Console) (p : Printer)
    → vsprintf fmt words mem ≡ some p
    → NoBackspace p.out
    → length p.out < buf_size
    → IsFree s
    → IsCursor s
    → Returns fmt words mem s
kprintf-Returns fmt words mem s p e b l f c =
    Returned-Returns (length p.out) s (kprintf fmt words mem s) (
      subst (Returned (length p.out) s) (sym (kprintf_fits fmt words mem s p e l))
        (print_result-Returned p s b f c))

-- A run that returned, with the console that it left.
abbrev Shows : Console → Outcome Console → Type 0
Shows s r = (t : Console) × (r ≡ ok t) × Written s (ok t)

show_welcome_msg-Shows :
    (words mem : ℕ → ℕ) (s : Console)
    → IsFree s
    → IsCursor s
    → Shows s (show_welcome_msg words mem s)
unfolding show_welcome_msg
show_welcome_msg-Shows words mem s f c =
    let (h, k) = hello_lem words mem in
    let (n, t, e, (f', c', i, d)) =
      kprintf-Returns hello words mem s _ h literals.0 (omega arith) f c in
    let (n', t', e', (f'', c'', i', d')) =
      kprintf-Returns have_fun words mem t _ k literals.1 (omega arith) f' c' in
    (t', rw (e, e') refl, (f'', c'', i' ∙ i, d' ∙ d))

show_kernel_info-Shows :
    (kern_start kern_end : ℕ) (words mem : ℕ → ℕ) (s : Console)
    → IsFree s
    → IsCursor s
    → Shows s (show_kernel_info kern_start kern_end words mem s)
unfolding show_kernel_info
show_kernel_info-Shows kern_start kern_end words mem s f c =
    let args = arguments kern_start kern_end words in
    let (n, t, e, w) =
      kprintf-Returns kernel_info args mem s _ (kernel_info_lem args mem)
        (NoBackspace-addresses (args 0) (args 1)) (addresses_fit (args 0) (args 1)) f c in
    (t, rw e refl, w)

-- What init_glb_mboot leaves.
abbrev Checked : ℕ → ℕ → Bootstrap → Outcome (ℕ × Bootstrap) → Type 0
Checked magic_num mboot_info s r =
    (n : ℕ) × (t : Bootstrap) × (r ≡ ok (n, t))
    × Written s.console (ok t.console)
    × (t.glb_mboot_ptr
        ≡ (if magic_num == multiboot_bootloader_magic then some mboot_info else s.glb_mboot_ptr))

init_glb_mboot-Checked :
    (magic_num mboot_info : ℕ) (words mem : ℕ → ℕ) (s : Bootstrap)
    → IsFree s.console
    → IsCursor s.console
    → Checked magic_num mboot_info s (init_glb_mboot magic_num mboot_info words mem s)
unfolding init_glb_mboot
init_glb_mboot-Checked magic_num mboot_info words mem s f c =
    elim (ℕ_discrete magic_num multiboot_bootloader_magic) [
      | yes y ↦
          rw (eq→== magic_num multiboot_bootloader_magic y)
            (1, record s { glb_mboot_ptr = some mboot_info }, refl, (f, c, refl, refl), refl)
      | no d ↦
          let args = arguments magic_num mboot_info words in
          let clean =
            NoBackspace-append (magic_text ++ number_text (args 0) 16 _ _ _) (10 ∷ [])
              (NoBackspace-append magic_text _ literals.2
                (NoBackspace-number_text (args 0) 16 _ _ _))
              (omega arith, tt) in
          let (n, t, e, w) =
            kprintf-Returns invalid_multiboot args mem s.console _ (invalid_multiboot_lem args mem)
              clean (invalid_multiboot_fits (args 0)) f c in
          rw (ne→== magic_num multiboot_bootloader_magic d, e)
            (0, record s { console = t }, refl, w, refl)
    ]

console_init-IsFree : (s : Console) → IsFree s → IsFree (console_init s)
unfolding console_init initlock
console_init-IsFree s f = record {
  unlocked = refl;
  masked = record { masked = λ h. f.masked.masked h };
}

console_init-IsCursor : (s : Console) → IsCursor (console_init s)
unfolding console_init
console_init-IsCursor s = record { row = omega arith; left = omega arith; right = omega arith }

-- The first calls of kern_bootstrap return, whatever the magic number, the arguments and the memory, if the
-- console is free, its cursor in place and interrupts off while some pushcli is open at the start: the console is free again, the cursor in place,
-- and the processor has the interrupt flag and the count that it had. The pointer to the boot loader's data
-- is set exactly for the right magic number, and is as it was otherwise.
pub boot_messages-Shown :
    (magic_num mboot_info kern_start kern_end : ℕ) (words mem : ℕ → ℕ) (s : Bootstrap)
    → IsFree s.console
    → IsCursor s.console
    → (t : Bootstrap) × (boot_messages magic_num mboot_info kern_start kern_end words mem s ≡ ok t)
      × Written s.console (ok t.console)
      × (t.glb_mboot_ptr
          ≡ (if magic_num == multiboot_bootloader_magic then some mboot_info else s.glb_mboot_ptr))
unfolding boot_messages console_init
boot_messages-Shown magic_num mboot_info kern_start kern_end words mem s f c =
    let (_, t, e, (f', _, i, d), g) = init_glb_mboot-Checked magic_num mboot_info words mem s f c in
    let (u, e', (f'', c'', i', d')) =
      show_welcome_msg-Shows words mem (console_init t.console) (console_init-IsFree t.console f')
        (console_init-IsCursor t.console) in
    let (v, e'', (fv, cv, iv, dv)) =
      show_kernel_info-Shows kern_start kern_end words mem u f'' c'' in
    (record t { console = v }, rw (e, e', e'') refl, (fv, cv, iv ∙ i' ∙ i, dv ∙ d' ∙ d), g)
