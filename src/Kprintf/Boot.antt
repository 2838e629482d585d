-- ===== src/Kprintf/Boot.antt =====
-- init_glb_mboot, show_welcome_msg and show_kernel_info (init/bootstrap.c): what kern_bootstrap prints
-- first. `words` is what lies behind the arguments on the stack, `mem` the memory, and `none` the NULL of
-- glb_mboot_ptr.
pub mod Texts
pub mod Messages
mod Tests
use linda.Base.{
  ℕ, ◌≡◌, refl, List, [], ◌∷◌, Option, none, some, ◌==◌, if◌then◌else◌, Outcome, ok, panic, hang,
  ◌>>=◌, pos, arith, length, subst, sym,
}
use linda.Drivers.Console.{Console, console_init}
use linda.Drivers.Console.Cursor.{IsCursor}
use linda.Drivers.Console.Write.{IsFree, Written, NoBackspace}
use linda.Kprintf.Convert.{Printer}
use linda.Kprintf.Format.{vsprintf, kprintf}

abbrev pub multiboot_bootloader_magic : ℕ
multiboot_bootloader_magic = 0x2BAD_B002

abbrev pub invalid_multiboot : List ℕ
invalid_multiboot =
    b'I' ∷ b't' ∷ b'`' ∷ b's' ∷ b' ' ∷ b'n' ∷ b'o' ∷ b't' ∷ b' ' ∷ b'a' ∷ b' ' ∷ b'v' ∷ b'a' ∷ b'l'
    ∷ b'i' ∷ b'd' ∷ b' ' ∷ b'm' ∷ b'u' ∷ b'l' ∷ b't' ∷ b'i' ∷ b'b' ∷ b'o' ∷ b'o' ∷ b't' ∷ b'!'
    ∷ b' ' ∷ b'M' ∷ b'a' ∷ b'g' ∷ b'i' ∷ b'c' ∷ b' ' ∷ b'N' ∷ b'u' ∷ b'm' ∷ b'b' ∷ b'e' ∷ b'r'
    ∷ b'=' ∷ b' ' ∷ b'%' ∷ b'#' ∷ b'x' ∷ 10 ∷ []

abbrev pub hello : List ℕ
hello =
    b'H' ∷ b'e' ∷ b'l' ∷ b'l' ∷ b'o' ∷ b' ' ∷ b'W' ∷ b'o' ∷ b'r' ∷ b'l' ∷ b'd' ∷ b'!' ∷ b' ' ∷ b'T'
    ∷ b'h' ∷ b'i' ∷ b's' ∷ b' ' ∷ b'L' ∷ b'i' ∷ b'n' ∷ b'd' ∷ b'a' ∷ b'!' ∷ 10 ∷ []

abbrev pub have_fun : List ℕ
have_fun =
    b'H' ∷ b'o' ∷ b'p' ∷ b'e' ∷ b' ' ∷ b'y' ∷ b'o' ∷ b'u' ∷ b' ' ∷ b'h' ∷ b'a' ∷ b'v' ∷ b'e' ∷ b' '
    ∷ b'f' ∷ b'u' ∷ b'n' ∷ b' ' ∷ b'b' ∷ b'y' ∷ b' ' ∷ b'u' ∷ b's' ∷ b'i' ∷ b'n' ∷ b'g' ∷ b' '
    ∷ b'L' ∷ b'i' ∷ b'n' ∷ b'd' ∷ b'a' ∷ b'!' ∷ 10 ∷ []

abbrev pub kernel_info : List ℕ
kernel_info =
    b'k' ∷ b'e' ∷ b'r' ∷ b'n' ∷ b'e' ∷ b'l' ∷ b'_' ∷ b's' ∷ b't' ∷ b'a' ∷ b'r' ∷ b't' ∷ b'_' ∷ b'a'
    ∷ b'd' ∷ b'd' ∷ b'r' ∷ b':' ∷ b'0' ∷ b'x' ∷ b'%' ∷ b'X' ∷ b',' ∷ b' ' ∷ b'k' ∷ b'e' ∷ b'r'
    ∷ b'n' ∷ b'e' ∷ b'l' ∷ b'_' ∷ b'e' ∷ b'n' ∷ b'd' ∷ b'_' ∷ b'a' ∷ b'd' ∷ b'd' ∷ b'r' ∷ b':'
    ∷ b'0' ∷ b'x' ∷ b'%' ∷ b'X' ∷ 10 ∷ []

pub record Bootstrap : Type 0 where
  pub glb_mboot_ptr : Option ℕ
  pub console : Console

-- Two arguments at the front of the stack.
abbrev pub arguments : ℕ → ℕ → (ℕ → ℕ) → ℕ → ℕ
arguments a b words i = if i == 0 then a else if i == 1 then b else words i

unfoldable pub init_glb_mboot : ℕ → ℕ → (ℕ → ℕ) → (ℕ → ℕ) → Bootstrap → Outcome (ℕ × Bootstrap)
unfolding kprintf
init_glb_mboot magic_num mboot_info words mem s =
    if magic_num == multiboot_bootloader_magic
    then ok (1, record s { glb_mboot_ptr = some mboot_info })
    else kprintf invalid_multiboot (arguments magic_num mboot_info words) mem s.console
      >>= λ (_, c). ok (0, record s { console = c })

unfoldable pub show_welcome_msg : (ℕ → ℕ) → (ℕ → ℕ) → Console → Outcome Console
unfolding kprintf
show_welcome_msg words mem s =
    kprintf hello words mem s >>= λ (_, s'). kprintf have_fun words mem s' >>= λ (_, s''). ok s''

unfoldable pub show_kernel_info : ℕ → ℕ → (ℕ → ℕ) → (ℕ → ℕ) → Console → Outcome Console
unfolding kprintf
show_kernel_info kern_start kern_end words mem s =
    kprintf kernel_info (arguments kern_start kern_end words) mem s >>= λ (_, s'). ok s'

-- The first four calls of kern_bootstrap.
unfoldable pub boot_messages : ℕ → ℕ → ℕ → ℕ → (ℕ → ℕ) → (ℕ → ℕ) → Bootstrap → Outcome Bootstrap
unfolding init_glb_mboot console_init show_welcome_msg show_kernel_info
boot_messages magic_num mboot_info kern_start kern_end words mem s =
    init_glb_mboot magic_num mboot_info words mem s >>= λ (_, t).
    show_welcome_msg words mem (console_init t.console) >>= λ c.
    show_kernel_info kern_start kern_end words mem c >>= λ c'. ok (record t { console = c' })
