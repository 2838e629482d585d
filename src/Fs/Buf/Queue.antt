-- ===== src/Fs/Buf/Queue.antt =====
-- Requests queue up in order (fs/buf.c).
use linda.Base.{
  ℕ, ◌%◌, zero, suc, ◌+◌, ◌<◌, ◌≤◌, ◌≡◌, ◌≢◌, refl, sym, ap, ◌∙◌, List, [], ◌∷◌, ◌++◌, arith,
  length, ok, eq→==, ne→==,
}
use linda.Mach.{u32_mod, add32}
use linda.Fs.Buf.{Buf, BufQueue, modify, set_next, set_prev, last_of, put}

-- The first of the buffers, or NULL.
abbrev pub first : List ℕ → ℕ
first [] = 0
first (p ∷ _) = p

-- The buffers `ps` are linked in order, in both directions; `prev` stands before the first.
abbrev pub Linked : (ℕ → Buf) → ℕ → List ℕ → Type 0
Linked buf prev [] = Unit
Linked buf prev (p ∷ ps) =
    (p ≢ 0) × ((buf p).prev ≡ prev) × ((buf p).next ≡ first ps) × Linked buf p ps

abbrev pub NotIn : ℕ → List ℕ → Type 0
NotIn p [] = Unit
NotIn p (q ∷ qs) = (p ≢ q) × NotIn p qs

abbrev pub Distinct : List ℕ → Type 0
Distinct [] = Unit
Distinct (p ∷ ps) = NotIn p ps × Distinct ps

-- The queue holds the buffers `ps`, the next one to be served first.
pub record Holds (s : BufQueue) (ps : List ℕ) : Type 0 where
  pub head : s.queue ≡ first ps
  pub linked : Linked s.buf 0 ps
  pub distinct : Distinct ps
  pub count : s.count ≡ length ps % u32_mod

modify_other : {p q : ℕ} (f : Buf → Buf) (buf : ℕ → Buf) → q ≢ p → modify p f buf q ≡ buf q
modify_other {p} {q} f buf h = rw (ne→== q p h) refl

pub modify_same : (p : ℕ) (f : Buf → Buf) (buf : ℕ → Buf) → modify p f buf p ≡ f (buf p)
modify_same p f buf = rw (eq→== p p refl) refl

Linked-modify :
    (p : ℕ) (f : Buf → Buf) (buf : ℕ → Buf) (prev : ℕ) (ps : List ℕ)
    → NotIn p ps
    → Linked buf prev ps
    → Linked (modify p f buf) prev ps
Linked-modify p f buf prev [] n l = tt
Linked-modify p f buf prev (q ∷ qs) (n, ns) (z, a, b, l) =
    let same : modify p f buf q ≡ buf q = modify_other f buf (λ (e : q ≡ p). n (sym e)) in
    (
      z,
      ap (λ (x : Buf). x.prev) same ∙ a,
      ap (λ (x : Buf). x.next) same ∙ b,
      Linked-modify p f buf q qs ns l,
    )

-- The last of the buffers `p ∷ ps`.
abbrev pub last : ℕ → List ℕ → ℕ
last p [] = p
last p (q ∷ qs) = last q qs

last_of_lem :
    (p : ℕ) (ps : List ℕ) (fuel prev : ℕ) (buf : ℕ → Buf)
    → Linked buf prev (p ∷ ps)
    → length ps < fuel
    → last_of fuel p buf ≡ ok (last p ps)
unfolding last_of
last_of_lem p ps zero prev buf l h = elim h [ ]
last_of_lem p [] (suc fuel) prev buf (z, a, b, l) h = rw (eq→== (buf p).next 0 b) refl
last_of_lem p (q ∷ qs) (suc fuel) prev buf (z, a, b, l) h =
    rw (ne→== (buf p).next 0 (λ e. l.0 (sym b ∙ e)))
      (ap (λ (x : ℕ). last_of fuel x buf) b ∙ last_of_lem q qs fuel p buf l (omega (arith, h)))

ne_last : (p q : ℕ) (qs : List ℕ) → NotIn p (q ∷ qs) → p ≢ last q qs
ne_last p q [] (n, _) = n
ne_last p q (r ∷ rs) (_, ns) = ne_last p r rs ns

abbrev to_prev : ℕ → Buf → Buf
to_prev p b = record b { prev = p }

abbrev to_next : ℕ → Buf → Buf
to_next p b = record b { next = p }

-- The memory after `q` is linked behind `header`.
abbrev linked_behind : ℕ → ℕ → (ℕ → Buf) → ℕ → Buf
linked_behind header q buf = modify q (to_prev header) (modify header (to_next q) buf)

behind_other :
    (header q r : ℕ) (buf : ℕ → Buf) → r ≢ q → r ≢ header → linked_behind header q buf r ≡ buf r
behind_other header q r buf n m =
    modify_other (to_prev header) (modify header (to_next q) buf) n ∙ modify_other (to_next q) buf m

behind_header :
    (header q : ℕ) (buf : ℕ → Buf)
    → header ≢ q
    → linked_behind header q buf header ≡ record (buf header) { next = q }
behind_header header q buf n =
    modify_other (to_prev header) (modify header (to_next q) buf) n
    ∙ modify_same header (to_next q) buf

behind_new :
    (header q : ℕ) (buf : ℕ → Buf)
    → q ≢ header
    → linked_behind header q buf q ≡ record (buf q) { prev = header }
behind_new header q buf n =
    modify_same q (to_prev header) (modify header (to_next q) buf)
    ∙ ap (to_prev header) (modify_other (to_next q) buf n)

Linked-snoc :
    (p : ℕ) (ps : List ℕ) (q prev : ℕ) (buf : ℕ → Buf)
    → Linked buf prev (p ∷ ps)
    → Distinct (p ∷ ps)
    → NotIn q (p ∷ ps)
    → q ≢ 0
    → (buf q).next ≡ 0
    → Linked (linked_behind (last p ps) q buf) prev (p ∷ ps ++ q ∷ [])
Linked-snoc p [] q prev buf (z, a, b, l) d (n, _) nz e =
    let header = behind_header p q buf (λ (x : p ≡ q). n (sym x)) in
    let new = behind_new p q buf n in
    (
      z,
      ap (λ (x : Buf). x.prev) header ∙ a,
      ap (λ (x : Buf). x.next) header,
      (nz, ap (λ (x : Buf). x.prev) new, ap (λ (x : Buf). x.next) new ∙ e, tt),
    )
Linked-snoc p (r ∷ rs) q prev buf (z, a, b, l) (dp, ds) (n, ns) nz e =
    let same = behind_other (last r rs) q p buf (λ (x : p ≡ q). n (sym x)) (ne_last p r rs dp) in
    (
      z,
      ap (λ (x : Buf). x.prev) same ∙ a,
      ap (λ (x : Buf). x.next) same ∙ b,
      Linked-snoc r rs q p buf l ds ns nz e,
    )

NotIn-snoc : (p q : ℕ) (ps : List ℕ) → NotIn p ps → p ≢ q → NotIn p (ps ++ q ∷ [])
NotIn-snoc p q [] n h = (h, tt)
NotIn-snoc p q (r ∷ rs) (n, ns) h = (n, NotIn-snoc p q rs ns h)

Distinct-snoc : (ps : List ℕ) (q : ℕ) → Distinct ps → NotIn q ps → Distinct (ps ++ q ∷ [])
Distinct-snoc [] q d n = (tt, tt)
Distinct-snoc (p ∷ ps) q (dp, ds) (n, ns) =
    (NotIn-snoc p q ps dp (λ (e : p ≡ q). n (sym e)), Distinct-snoc ps q ds ns)

length-snoc : (ps : List ℕ) (q : ℕ) → length (ps ++ q ∷ []) ≡ length ps + 1
length-snoc [] q = refl
length-snoc (p ∷ ps) q = omega (arith, length-snoc ps q)

put_first :
    (fuel q : ℕ) (s : BufQueue)
    → s.queue ≡ 0
    → put fuel q s ≡ ok (record s { queue = q; count = add32 s.count 1 })
unfolding put
put_first fuel q s e = rw (eq→== s.queue 0 e) refl

put_behind :
    (fuel q header : ℕ) (s : BufQueue)
    → s.queue ≢ 0
    → last_of fuel s.queue s.buf ≡ ok header
    → put fuel q s
      ≡ ok (record (set_prev q header (set_next header q s)) { count = add32 s.count 1 })
unfolding put
put_behind fuel q header s n e = rw (ne→== s.queue 0 n, e) refl

-- A request that is not yet in the queue, with its links clear, goes to the end of the queue, behind all
-- the requests in their order: the links run in both directions and the count is their number modulo 2^32. One round for
-- each request is enough.
pub put-Holds :
    (ps : List ℕ) (q fuel : ℕ) (s : BufQueue)
    → Holds s ps
    → NotIn q ps
    → q ≢ 0
    → (s.buf q).prev ≡ 0
    → (s.buf q).next ≡ 0
    → length ps ≤ fuel
    → (s' : BufQueue) × (put fuel q s ≡ ok s') × Holds s' (ps ++ q ∷ [])
put-Holds [] q fuel s h n nz a b f = (
  record s { queue = q; count = add32 s.count 1 },
  put_first fuel q s h.head,
  record {
    head = refl;
    linked = (nz, a, b, tt);
    distinct = (tt, tt);
    count = omega (arith, h.count);
  },
)
put-Holds (p ∷ ps) q fuel s h n nz a b f =
    let found : last_of fuel s.queue s.buf ≡ ok (last p ps) =
      ap (λ (x : ℕ). last_of fuel x s.buf) h.head
      ∙ last_of_lem p ps fuel 0 s.buf h.linked (omega (arith, f)) in
    (
      record (set_prev q (last p ps) (set_next (last p ps) q s)) { count = add32 s.count 1 },
      put_behind fuel q (last p ps) s (λ e. h.linked.0 (sym h.head ∙ e)) found,
      record {
        head = h.head;
        linked = Linked-snoc p ps q 0 s.buf h.linked h.distinct n nz b;
        distinct = Distinct-snoc (p ∷ ps) q h.distinct n;
        count = omega (arith, h.count, length-snoc (p ∷ ps) q);
      },
    )
