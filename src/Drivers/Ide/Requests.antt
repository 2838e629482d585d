-- ===== src/Drivers/Ide/Requests.antt =====
-- Requests to the disk (fs/buf.c) from the call to the drive (drivers/ide.c).
use linda.Base.{
  ℕ, ◌/◌, ◌%◌, ◌<◌, ◌≤◌, ◌≡◌, ◌≢◌, refl, sym, ap, subst, ◌∙◌, List, [], ◌∷◌, ◌++◌, length, Outcome,
  ok, ◌>>=◌,
}
use linda.Fs.Buf.{BufQueue}
use linda.Fs.Buf.Queue.{first, NotIn, Holds, put-Holds}
use linda.Drivers.Ide.{Ide, command, ide_execute, buf_write}
use linda.Drivers.Ide.Command.{ide_execute-command}

-- The oldest request, when `q` has been added.
abbrev pub oldest : List ℕ → ℕ → ℕ
oldest [] q = q
oldest (p ∷ _) q = p

first-snoc : (ps : List ℕ) (q : ℕ) → first (ps ++ q ∷ []) ≡ oldest ps q
first-snoc [] q = refl
first-snoc (p ∷ ps) q = refl

oldest_nonzero : (ps : List ℕ) (q : ℕ) (s : BufQueue) → Holds s ps → q ≢ 0 → oldest ps q ≢ 0
oldest_nonzero [] q s h n = n
oldest_nonzero (p ∷ ps) q s h n = h.linked.0

-- With the lock of the disk free and the drive ready at some read within the fuel, buf_write of a new
-- request with clear links puts it at the end of the queue and gives the drive the command for the
-- oldest request. It returns with the lock held.
pub buf_write-command :
    (ps : List ℕ) (q fuel i wait_fuel : ℕ) (status : ℕ → ℕ) (s : Ide)
    → Holds s.bufs ps
    → NotIn q ps
    → q ≢ 0
    → (s.bufs.buf q).prev ≡ 0
    → (s.bufs.buf q).next ≡ 0
    → length ps ≤ fuel
    → s.idelock.locked ≡ 0
    → status i / 64 % 4 ≡ 1
    → i < wait_fuel
    → (s' : Ide) × (buf_write fuel wait_fuel status q s ≡ ok s')
      × Holds s'.bufs (ps ++ q ∷ [])
      × (s'.outs ≡ command (oldest ps q) (s'.bufs.buf (oldest ps q)) s.outs)
      × (s'.idelock.locked ≡ 1)
unfolding buf_write
buf_write-command ps q fuel i wait_fuel status s h n nz a b f z r k =
    let (bufs, e, h') = put-Holds ps q fuel s.bufs h n nz a b f in
    let head = h'.head ∙ first-snoc ps q in
    let (s', g, same, o, l) =
      ide_execute-command i wait_fuel status (record s { bufs = bufs }) z
        (λ x. oldest_nonzero ps q s.bufs h nz (sym head ∙ x)) r k in
    (
      s',
      ap (λ (x : Outcome BufQueue). x >>= λ t. ide_execute wait_fuel status (record s { bufs = t }))
            e
          ∙ g,
      subst (λ (t : BufQueue). Holds t (ps ++ q ∷ [])) (sym same) h',
      o
          ∙ ap (λ (x : ℕ). command x (bufs.buf x) s.outs) head
          ∙ ap (λ (t : BufQueue). command (oldest ps q) (t.buf (oldest ps q)) s.outs) (sym same),
      l,
    )
