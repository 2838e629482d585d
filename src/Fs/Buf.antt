-- ===== src/Fs/Buf.antt =====
-- fs/buf.c: the queue of the buffers that wait for the disk, a doubly linked list. A pointer to a buffer is
-- a number, 0 for NULL; `buf` is the memory in which the buffers lie. Their data and their locks are left
-- out. buf_read and buf_write as a whole, which end in ide_execute, stand with the driver of the disk.
pub mod Queue
pub mod Remove
mod Tests
use linda.Base.{
  ℕ, zero, suc, ◌+◌, ◌-◌, Bool, true, false, List, [], ◌∷◌, Option, none, some, Outcome, ok, panic,
  hang, ◌>>=◌, ◌==◌, if◌then◌else◌,
}
use linda.Mach.{add32, sub32}

pub record Buf : Type 0 where
  pub flags : ℕ
  pub dev : ℕ
  pub blockno : ℕ
  pub prev : ℕ
  pub next : ℕ

pub record BufQueue : Type 0 where
  pub queue : ℕ
  pub count : ℕ
  pub buf : ℕ → Buf

abbrev pub b_valid : ℕ
b_valid = 1

abbrev pub b_dirty : ℕ
b_dirty = 2

abbrev pub modify : ℕ → (Buf → Buf) → (ℕ → Buf) → ℕ → Buf
modify p f buf q = if q == p then f (buf q) else buf q

abbrev pub set_next : ℕ → ℕ → BufQueue → BufQueue
set_next p q s = record s { buf = modify p (λ b. record b { next = q }) s.buf }

abbrev pub set_prev : ℕ → ℕ → BufQueue → BufQueue
set_prev p q s = record s { buf = modify p (λ b. record b { prev = q }) s.buf }

unfoldable pub buf_init : BufQueue → BufQueue
buf_init s = record s { queue = 0; count = 0 }

-- `while(header->next) header = header->next;` on fuel
unfoldable pub last_of : ℕ → ℕ → (ℕ → Buf) → Outcome ℕ
last_of zero header buf = hang
last_of (suc fuel) header buf =
    let rest = last_of fuel (buf header).next buf in
    if (buf header).next == 0 then ok header else rest

-- What buf_read and buf_write do to the queue.
unfoldable pub put : ℕ → ℕ → BufQueue → Outcome BufQueue
put fuel p s =
    if s.queue == 0
    then ok (record s { queue = p; count = add32 s.count 1 })
    else last_of fuel s.queue s.buf >>= λ header.
        ok (record (set_prev p header (set_next header p s)) { count = add32 s.count 1 })

-- buf_read up to ide_execute, with the buffer `p` that kmalloc gave: `prev` and `next` stay as they were.
unfoldable pub read_request : ℕ → ℕ → ℕ → ℕ → BufQueue → Outcome BufQueue
unfolding put
read_request fuel p dev blockno s = put fuel p (record s {
  buf = modify p (λ b. record b { blockno = blockno; dev = dev; flags = b_valid }) s.buf;
})

-- The body of buf_remove's loop when it has found the buffer.
unfoldable pub unlink : ℕ → BufQueue → BufQueue
unlink header s =
    let prev = (s.buf header).prev in
    let next = (s.buf header).next in
    let s' =
      (if prev == 0
        then (if next == 0 then record s { queue = 0 } else record s { queue = next })
        else if next == 0
        then set_next prev 0 s
        else set_prev next prev (set_next prev next s)) in
    record s' { count = sub32 s'.count 1 }

-- The loop of buf_remove from `header` on.
unfoldable pub remove_from : ℕ → ℕ → ℕ → BufQueue → Outcome BufQueue
unfolding unlink
remove_from zero header p s = hang
remove_from (suc fuel) header p s =
    let rest = remove_from fuel (s.buf header).next p s in
    if header == 0 then ok s else if header == p then ok (unlink header s) else rest

unfoldable pub buf_remove : ℕ → ℕ → BufQueue → Outcome BufQueue
unfolding remove_from
buf_remove fuel p s = remove_from fuel s.queue p s

unfoldable pub buf_get : BufQueue → ℕ
buf_get s = s.queue
