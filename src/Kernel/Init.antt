-- ===== src/Kernel/Init.antt =====
-- uinitproc_setup (kernel/process.c) and uvm_init (mm/mmap.c): the first process. `phys` is the physical
-- memory, byte by byte, that is reached through a page which the kernel maps for it; `init` is the
-- program. `none` says that the kernel uses an address that it has not mapped, NULL among them. The name
-- of the process is left out.
pub mod Frame
pub mod Copy
mod Tests
use linda.Base.{
  ℕ, zero, suc, ◌+◌, ◌*◌, ◌/◌, ◌^◌, List, Option, none, some, false, true, Outcome, ok, panic,
  ◌>>=◌, ◌==◌, ltb, if◌then◌else◌, get_elem?,
}
use linda.Mach.{pgsize}
use linda.Str.{write_byte}
use linda.Mm.Vmmgr.{VmBlock, kvm_alloc_umapped_page}
use linda.Mm.Memory.{MemMap, phy_mem_alloc}
use linda.Mm.Kmalloc.{Kmem, Chunk}
use linda.Mm.Mmap.{Mmap, mmap_do_map, mmap_do_unmap, umap_init}
use linda.Mm.Mmap.Walk.{translate}
use linda.Mm.Segments.{seg_ucode, seg_udata, dpl_user}
use linda.Kernel.Spinlock.{acquire, release}
use linda.Kernel.Process.{Pstate, Process, Ptable, write_word, update, alloc_process}

pub record Setup : Type 0 where
  pub table : Ptable
  pub initproc : Option ℕ
  pub mem_map : MemMap
  pub kmem_list : List Chunk
  pub mmaplist : ℕ
  pub phys : ℕ → ℕ

-- The part of the state that mm/mmap.c works on.
abbrev pub kmem_of : Setup → Kmem
kmem_of s = record { kmem_list = s.kmem_list; kvmlist = s.table.kvmlist; mem = s.table.mem }

abbrev pub mmap_of : Setup → Mmap
mmap_of s = record { kmem = kmem_of s; mmaplist = s.mmaplist }

abbrev pub with_kmem : Kmem → Setup → Setup
with_kmem k s = record s {
  table = record s.table { kvmlist = k.kvmlist; mem = k.mem };
  kmem_list = k.kmem_list;
}

abbrev pub with_mmap : Mmap → Setup → Setup
with_mmap m s = record (with_kmem m.kmem s) { mmaplist = m.mmaplist }

-- `memmove(virt_mem, init, sz)` through the page tables: `count` bytes of `init` from byte `i` on.
unfoldable pub copy_init : ℕ → (ℕ → ℕ) → (ℕ → ℕ) → ℕ → ℕ → ℕ → (ℕ → ℕ) → Option (ℕ → ℕ)
copy_init kpgdir mem init virt_mem i zero phys = some phys
copy_init kpgdir mem init virt_mem i (suc count) phys =
    elim (translate kpgdir (virt_mem + i) mem) as (λ _. Option (ℕ → ℕ)) [
      | none ↦ none
      | some pa ↦ copy_init kpgdir mem init virt_mem (suc i) count (write_byte pa (init i) phys)
    ]

-- uvm_init from the copy on.
unfoldable pub map_init :
    ℕ → ℕ → ℕ → ℕ → ℕ → ℕ → Setup → Mmap → Option (ℕ → ℕ) → Outcome (Option Setup)
map_init fuel heap_fuel kpgdir pgdir virt_mem phy_mem s m none = ok none
map_init fuel heap_fuel kpgdir pgdir virt_mem phy_mem s m (some phys) =
    mmap_do_unmap fuel kpgdir virt_mem m >>= λ m'.
    mmap_do_map fuel heap_fuel pgdir 0 phy_mem true m' >>= λ m''.
    ok (some (record (with_mmap m'' s) { phys = phys }))

unfoldable pub uvm_init : ℕ → ℕ → ℕ → ℕ → (ℕ → ℕ) → ℕ → Setup → Outcome (Option Setup)
unfolding copy_init map_init
uvm_init fuel heap_fuel kpgdir pgdir init sz s =
    let (phy_mem, mem_map) = phy_mem_alloc s.mem_map in
    kvm_alloc_umapped_page s.table.kvmlist >>= λ virt_mem.
    if ltb pgsize sz
    then panic
    else if phy_mem == 0
    then panic
    else mmap_do_map fuel heap_fuel kpgdir virt_mem phy_mem false (mmap_of s) >>= λ m.
        map_init fuel heap_fuel kpgdir pgdir virt_mem phy_mem (record s { mem_map = mem_map }) m
          (copy_init kpgdir m.kmem.mem init virt_mem 0 sz s.phys)

-- `memset` of `count` words
unfoldable pub clear_words : ℕ → ℕ → (ℕ → ℕ) → ℕ → ℕ
clear_words addr zero mem = mem
clear_words addr (suc count) mem = clear_words (addr + 4) count (write_word addr 0 mem)

-- A `ushort_t` field in the low half of the word at `addr`.
abbrev pub write_half : ℕ → ℕ → (ℕ → ℕ) → ℕ → ℕ
write_half addr v mem = write_word addr (mem addr / 2 ^ 16 * 2 ^ 16 + v) mem

-- The fields of `struct trapframe`, by their offsets: es, ds, eip, cs, eflags, esp, ss.
unfoldable pub init_frame : ℕ → (ℕ → ℕ) → ℕ → ℕ
init_frame tf mem =
    let cleared = clear_words tf 19 mem in
    let code = write_half (tf + 60) (seg_ucode * 8 + dpl_user) cleared in
    let ds = seg_udata * 8 + dpl_user in
    let segments =
      write_half (tf + 72) ds (write_half (tf + 40) ds (write_half (tf + 44) ds code)) in
    write_word (tf + 56) 0 (write_word (tf + 68) pgsize (write_word (tf + 64) (2 ^ 9) segments))

-- `proc->size`, and the frame.
abbrev pub with_frame : ℕ → Process → Ptable → Ptable
with_frame i p t = record t {
  process = update i (λ q. record q { size = pgsize }) t.process;
  mem = init_frame p.tf t.mem;
}

abbrev pub with_runable : ℕ → Ptable → Ptable
with_runable i t = record t {
  process = update i (λ q. record q { state = Pstate.runable }) t.process;
}

-- What uinitproc_setup does to the process `i` once its program is in place.
unfoldable pub make_runable : ℕ → Process → Setup → Outcome Setup
unfolding init_frame
make_runable i p s = acquire (s.table.lock, s.table.cpu) >>= λ c. release c >>= λ (lock, cpu).
    ok (record s {
      table = record (with_runable i (with_frame i p s.table)) { lock = lock; cpu = cpu };
    })

-- What uinitproc_setup does from the answer of uvm_init on.
unfoldable pub finish_setup : ℕ → Option Setup → Outcome (Option Setup)
unfolding make_runable
finish_setup i none = ok none
finish_setup i (some s) = elim (get_elem? s.table.process i) [
  | none ↦ ok none
  | some p ↦ make_runable i p s >>= λ s'. ok (some s')
]

-- What it does from the answer of alloc_process on: with a full table it goes on with NULL.
unfoldable pub setup_process : ℕ → ℕ → ℕ → (ℕ → ℕ) → ℕ → Option ℕ → Setup → Outcome (Option Setup)
unfolding uvm_init finish_setup
setup_process fuel heap_fuel kpgdir init sz none s = ok none
setup_process fuel heap_fuel kpgdir init sz (some i) s =
    umap_init kpgdir (kmem_of s) >>= λ (pgdir, kmem).
    let s' = with_kmem kmem s in
    let given : Setup = record s' {
      table = record s'.table {
        process = update i (λ p. record p { pgdir = pgdir }) s'.table.process;
      };
    } in
    if pgdir == 0
    then panic
    else uvm_init fuel heap_fuel kpgdir pgdir init sz given >>= finish_setup i

unfoldable pub uinitproc_setup : ℕ → ℕ → ℕ → ℕ → ℕ → (ℕ → ℕ) → ℕ → Setup → Outcome (Option Setup)
unfolding setup_process
uinitproc_setup fuel heap_fuel forkret trapret kpgdir init sz s =
    alloc_process forkret trapret s.table >>= λ (proc, table).
    setup_process fuel heap_fuel kpgdir init sz proc (record s { table = table; initproc = proc })
