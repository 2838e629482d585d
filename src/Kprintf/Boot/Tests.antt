-- ===== src/Kprintf/Boot/Tests.antt =====
-- The first messages of the kernel on a screen that the loader has cleared.
use linda.Base.{◌≡◌, none, some, arith, [], false, pos, refl, ok, ◌==◌, if◌then◌else◌}
use linda.Drivers.Console.Write.{Written}
use linda.Kprintf.Boot.{Bootstrap, boot_messages, multiboot_bootloader_magic}
use linda.Kprintf.Boot.Messages.{boot_messages-Shown}

abbrev at_start : Bootstrap
at_start = record {
  glb_mboot_ptr = none;
  console = record {
    console_fb = λ _. 0;
    console_x = pos 0;
    console_y = 0;
    cons = record { locked = 0 };
    cpu = record { ncli = 0; intena = false; iflag = false };
    out = [];
  };
}

boot_messages-Shown_example :
    (t : Bootstrap) × (boot_messages 0x2BAD_B003 0x10_0000 0xC010_0000 0xC012_3000
        (λ _. 0)
        (λ _. 0)
        at_start
      ≡ ok t)
    × Written at_start.console (ok t.console)
    × (t.glb_mboot_ptr
        ≡ (if 0x2BAD_B003 == multiboot_bootloader_magic then some 0x10_0000 else none))
boot_messages-Shown_example =
    boot_messages-Shown 0x2BAD_B003 0x10_0000 0xC010_0000 0xC012_3000 (λ _. 0) (λ _. 0) at_start
      (record { unlocked = refl; masked = record { masked = λ h. absurd (h refl) } })
      (record { row = omega arith; left = omega arith; right = omega arith })
