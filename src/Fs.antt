-- ===== src/Fs.antt =====
-- fs/: the buffers of the disk.
pub mod Buf
