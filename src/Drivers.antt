-- ===== src/Drivers.antt =====
-- drivers/: the console, the keyboard and the disk.
pub mod Console
pub mod Kbd
pub mod Ide
