-- ===== src/Mm/Vmmgr/Alloc.antt =====
-- kvm_alloc_page (mm/vmmgr.c): first fit over the table.
use linda.Base.{
  ℕ, zero, suc, ◌+◌, ◌<◌, ◌≡◌, ◌≢◌, inl, inr, refl, Bool, true, false, not, ◌&&◌, List, [], ◌∷◌,
  some, arith, length, get_elem?, set, length-set, lt-length_of_some, get_elem?-set_self,
  get_elem?-set_ne, ℕ_discrete, sym, subst, ◌∙◌, Outcome, ok, panic, hang, overrun, ◌>>=◌,
  if◌then◌else◌, Bool-cases,
}
use linda.Mm.Vmmgr.{VmBlock, is_used, is_mapped, set_used, kvm_alloc_page}
use linda.Mm.Vmmgr.Table.{IsNumbered, IsNumbered-get_elem?, page_addr}

-- Mapped and not used: what kvm_alloc_page may hand out.
abbrev pub available : VmBlock → Bool
available b = is_mapped b.status && not (is_used b.status)

-- The number of such pages.
unfoldable pub available_count : List VmBlock → ℕ
available_count [] = 0
available_count (b ∷ bs) = (if available b then 1 else 0) + available_count bs

abbrev pub taken : VmBlock → VmBlock
taken b = record b { status = set_used b.status }

-- The page at index `i` was handed out: it was available, and so was no page before it; the new
-- table marks it used and is the same elsewhere.
pub record Allocated (bs : List VmBlock) (addr : ℕ) (bs' : List VmBlock) : Type 0 where
  pub index : ℕ
  pub block : VmBlock
  pub was : get_elem? bs index ≡ some block
  pub free : available block ≡ true
  pub first : (k : ℕ) (b : VmBlock) → k < index → get_elem? bs k ≡ some b → available b ≡ false
  pub address : block.address ≡ addr
  pub marks : bs' ≡ set bs index (taken block)
  pub fewer : available_count bs ≡ suc (available_count bs')

before_suc :
    (b : VmBlock) (bs : List VmBlock) (i : ℕ)
    → available b ≡ false
    → ((k : ℕ) (c : VmBlock) → k < i → get_elem? bs k ≡ some c → available c ≡ false)
    → (k : ℕ) (c : VmBlock) → k < suc i
    → get_elem? (b ∷ bs) k ≡ some c
    → available c ≡ false
before_suc b bs i no_b f zero c l e =
    let same : b ≡ c = cc e in subst (λ (x : VmBlock). available x ≡ false) same no_b
before_suc b bs i no_b f (suc k) c l e = f k c (omega arith) e

shift :
    {b : VmBlock} {bs : List VmBlock} {addr : ℕ} {bs' : List VmBlock}
    → available b ≡ false
    → Allocated bs addr bs'
    → Allocated (b ∷ bs) addr (b ∷ bs')
unfolding available_count
shift {b} {bs} no_b a = record {
  index = suc a.index;
  block = a.block;
  was = a.was;
  free = a.free;
  first = before_suc b bs a.index no_b a.first;
  address = a.address;
  marks = rw a.marks;
  fewer = rw no_b (omega (arith, a.fewer));
}

-- What kvm_alloc_page may answer on the table `bs`.
abbrev pub AllocSpec : List VmBlock → Outcome (ℕ × List VmBlock) → Type 0
AllocSpec bs (ok (addr, bs')) = Allocated bs addr bs'
AllocSpec bs panic = available_count bs ≡ 0
AllocSpec bs hang = ⊥
AllocSpec bs overrun = ⊥

here :
    (b : VmBlock) (bs : List VmBlock)
    → available b ≡ true
    → Allocated (b ∷ bs) b.address (taken b ∷ bs)
unfolding available_count
here b bs h = record {
  index = 0;
  block = b;
  was = refl;
  free = h;
  first = λ k c l e. absurd (omega arith);
  address = refl;
  marks = refl;
  fewer = ground arith;
}

skip :
    (b : VmBlock) (bs : List VmBlock) (r : Outcome (ℕ × List VmBlock))
    → available b ≡ false
    → AllocSpec bs r
    → AllocSpec (b ∷ bs) (r >>= λ (addr, bs'). ok (addr, b ∷ bs'))
unfolding available_count
skip b bs (ok (addr, bs')) no_b a = shift no_b a
skip b bs panic no_b a = rw no_b (omega arith)
skip b bs hang no_b a = a
skip b bs overrun no_b a = a

-- kvm_alloc_page hands out the first page that is mapped and not used, marks it used, changes no
-- other entry and leaves one available page less; it panics exactly if no page is available.
pub kvm_alloc_page_lem : (bs : List VmBlock) → AllocSpec bs (kvm_alloc_page bs)
unfolding kvm_alloc_page available_count
kvm_alloc_page_lem [] = refl
kvm_alloc_page_lem (b ∷ bs) = elim (Bool-cases (available b)) [
  | inl h ↦ rw h (here b bs h)
  | inr h ↦ rw h (skip b bs (kvm_alloc_page bs) h (kvm_alloc_page_lem bs))
]

pub kvm_alloc_page-Allocated :
    {bs : List VmBlock} {addr : ℕ} {bs' : List VmBlock}
    → kvm_alloc_page bs ≡ ok (addr, bs')
    → Allocated bs addr bs'
kvm_alloc_page-Allocated {bs} e = rw e at (kvm_alloc_page_lem bs)

IsNumbered-set :
    (bs : List VmBlock) (i k : ℕ) (b c : VmBlock)
    → get_elem? bs k ≡ some b
    → c.address ≡ b.address
    → IsNumbered i bs
    → IsNumbered i (set bs k c)
IsNumbered-set [] i k b c e a n = tt
IsNumbered-set (d ∷ bs) i zero b c e a n = (ground arith, n.1)
IsNumbered-set (d ∷ bs) i (suc k) b c e a n = (n.0, IsNumbered-set bs (suc i) k b c e a n.1)

-- What the rest of the kernel may know of the table after a page was handed out.
module _ {bs : List VmBlock} {addr : ℕ} {bs' : List VmBlock} (a : Allocated bs addr bs') where
  pub Allocated-IsNumbered : IsNumbered 0 bs → IsNumbered 0 bs'
  Allocated-IsNumbered n =
      rw a.marks (IsNumbered-set bs 0 a.index a.block (taken a.block) a.was refl n)

  pub Allocated-length : length bs' ≡ length bs
  Allocated-length = rw a.marks (length-set bs a.index (taken a.block))

  pub Allocated-page : IsNumbered 0 bs → addr ≡ page_addr a.index
  Allocated-page n = omega (arith, IsNumbered-get_elem? 0 bs a.index a.block n a.was, a.address)

  pub Allocated-in : a.index < length bs
  Allocated-in = lt-length_of_some bs a.index a.block a.was

  -- A page that is still available was so before, and is another page.
  pub Allocated-available :
      (k : ℕ) (b : VmBlock)
      → get_elem? bs' k ≡ some b
      → available b ≡ true
      → (a.index ≢ k) × (get_elem? bs k ≡ some b)
  Allocated-available k b e h = elim (ℕ_discrete a.index k) [
    | yes same ↦
        let got : get_elem? (set bs a.index (taken a.block)) a.index ≡ some (taken a.block) =
          get_elem?-set_self bs a.index (taken a.block) Allocated-in in
        let was : get_elem? (set bs a.index (taken a.block)) a.index ≡ some b =
          rw (← a.marks, same) e in
        absurd (ground (arith, got, was, h))
    | no ne ↦ (ne, sym (get_elem?-set_ne bs (taken a.block) ne) ∙ (rw (← a.marks) e))
  ]
