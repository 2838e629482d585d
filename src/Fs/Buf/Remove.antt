-- ===== src/Fs/Buf/Remove.antt =====
-- Requests are served and leave the queue (fs/buf.c).
use linda.Base.{
  ℕ, ◌%◌, suc, ◌≡◌, ◌≢◌, refl, sym, ap, ◌∙◌, List, [], ◌∷◌, arith, length, ok, eq→==, ne→==,
}
use linda.Mach.{u32_mod, sub32}
use linda.Fs.Buf.{Buf, BufQueue, unlink, remove_from, buf_remove, buf_get}
use linda.Fs.Buf.Queue.{first, Holds}

-- The buffer at the head is found at once.
found_first :
    (fuel p : ℕ) (s : BufQueue) → s.queue ≡ p → p ≢ 0 → buf_remove (suc fuel) p s ≡ ok (unlink p s)
unfolding buf_remove
found_first fuel p s e n =
    ap (λ (x : ℕ). remove_from (suc fuel) x p s) e ∙ rw (ne→== p 0 n, eq→== p p refl) refl

unlink_only :
    (p : ℕ) (s : BufQueue)
    → (s.buf p).prev ≡ 0
    → (s.buf p).next ≡ 0
    → unlink p s ≡ record s { queue = 0; count = sub32 s.count 1 }
unfolding unlink
unlink_only p s a b = rw (eq→== (s.buf p).prev 0 a, eq→== (s.buf p).next 0 b) refl

unlink_head :
    (p : ℕ) (s : BufQueue)
    → (s.buf p).prev ≡ 0
    → (s.buf p).next ≢ 0
    → unlink p s ≡ record s { queue = (s.buf p).next; count = sub32 s.count 1 }
unfolding unlink
unlink_head p s a b = rw (eq→== (s.buf p).prev 0 a, ne→== (s.buf p).next 0 b) refl

-- A buffer that has another before it leaves the head of the queue as it is.
unlink_behind : (p : ℕ) (s : BufQueue) → (s.buf p).prev ≢ 0 → (unlink p s).queue ≡ s.queue
unfolding unlink
unlink_behind p s a = rw (ne→== (s.buf p).prev 0 a) (ground arith)

-- The request that is served leaves the queue: with one request the queue is empty, and with more the
-- next one is at its head.
pub buf_remove-buf_get :
    (p : ℕ) (ps : List ℕ) (fuel : ℕ) (s : BufQueue)
    → Holds s (p ∷ ps)
    → (s' : BufQueue) × (buf_remove (suc fuel) (buf_get s) s ≡ ok s')
      × (s'.queue ≡ first ps)
      × (s'.count ≡ length ps % u32_mod)
      × (s'.buf ≡ s.buf)
unfolding buf_get
buf_remove-buf_get p [] fuel s h =
    let (nz, a, b, _) = h.linked in
    (
      record s { queue = 0; count = sub32 s.count 1 },
      ap (λ (x : ℕ). buf_remove (suc fuel) x s) h.head
          ∙ found_first fuel p s h.head nz
          ∙ ap ok (unlink_only p s a b),
      refl,
      omega (arith, h.count),
      refl,
    )
buf_remove-buf_get p (q ∷ qs) fuel s h =
    let (nz, a, b, l) = h.linked in
    (
      record s { queue = (s.buf p).next; count = sub32 s.count 1 },
      ap (λ (x : ℕ). buf_remove (suc fuel) x s) h.head
          ∙ found_first fuel p s h.head nz
          ∙ ap ok (unlink_head p s a (λ e. l.0 (sym b ∙ e))),
      b,
      omega (arith, h.count),
      refl,
    )

-- The second request in a queue cannot leave it by the way that the disk driver serves requests: when the
-- first has left, the second still has it for its predecessor, and removing the second then leaves it
-- at the head of the queue.
pub buf_remove-again :
    (p q : ℕ) (qs : List ℕ) (fuel : ℕ) (s : BufQueue)
    → Holds s (p ∷ q ∷ qs)
    → (s' : BufQueue) × (buf_remove (suc fuel) (buf_get s) s ≡ ok s')
      × (buf_get s' ≡ q)
      × ((s'' : BufQueue) × (buf_remove (suc fuel) (buf_get s') s' ≡ ok s'') × (buf_get s'' ≡ q))
unfolding buf_get
buf_remove-again p q qs fuel s h =
    let (s', e, head, _, same) = buf_remove-buf_get p (q ∷ qs) fuel s h in
    let (nz, _, _, (nz', prev, _, _)) = h.linked in
    let stale : (s'.buf q).prev ≢ 0 =
      λ z. nz (sym prev ∙ ap (λ (f : ℕ → Buf). (f q).prev) (sym same) ∙ z) in
    (
      s',
      e,
      head,
      (
        unlink q s',
        ap (λ (x : ℕ). buf_remove (suc fuel) x s') head ∙ found_first fuel q s' head nz',
        unlink_behind q s' stale ∙ head,
      ),
    )
