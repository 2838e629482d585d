-- ===== src/Mm.antt =====
-- mm/: physical pages, the kernel's virtual pages, the kernel heap and page directories.
pub mod Vmmgr
pub mod Memory
pub mod Kmalloc
pub mod Mmap
pub mod Kmap
pub mod Segments
pub mod Boot
