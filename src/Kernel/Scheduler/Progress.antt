-- ===== src/Kernel/Scheduler/Progress.antt =====
-- The scheduler (kernel/scheduler.c) finds the next process: it goes round the table from where it stands.
use linda.Base.{
  ℕ, zero, suc, ◌+◌, ◌≤◌, ◌<◌, ◌≡◌, refl, sym, ap, ◌∙◌, subst, true, false, List, Option, none,
  some, arith, Outcome, ok, ◌>>=◌, get_elem?, length, lt-length_of_some, length_le_of_none,
  Bool-cases, ◌⊎◌, inl, inr, ℕ_discrete,
}
use linda.Kernel.Process.{Process}
use linda.Kernel.Scheduler.{
  Place, Sched, Linked, scheduler_step, scheduler_at, visit, is_runable, with_lock,
}
use linda.Kernel.Scheduler.Invariant.{IsSched, Sound, Placed, Locked}
use linda.Kernel.Scheduler.Steps.{
  release_held, visit_lem, visit_skip, scheduler_step-Sound, started,
}

-- `n` steps of the scheduler.
unfoldable pub run : ℕ → Linked → Sched → Outcome Sched
run zero l s = ok s
run (suc n) l s = scheduler_step l s >>= run n l

-- No process from entry `a` on and before entry `b` can be chosen.
abbrev pub NoneRunable : ℕ → ℕ → List Process → Type 0
NoneRunable a b ps =
    (i : ℕ) (p : Process) → a ≤ i → i < b → get_elem? ps i ≡ some p → is_runable p.state ≡ false

-- The first process from entry `k` on that can be chosen is that of entry `j`.
abbrev pub First : ℕ → ℕ → List Process → Type 0
First k j ps =
    (k ≤ j)
    × ((p : Process) × (get_elem? ps j ≡ some p) × (is_runable p.state ≡ true))
    × NoneRunable k j ps

-- What a round from entry `k` on comes to: the first process that can be chosen, or the end.
abbrev pub Swept : ℕ → List Process → Sched → Type 0
Swept k ps t =
    ((j : ℕ) × First k j ps × (t.at ≡ Place.in_process j))
    ⊎ ((t.at ≡ Place.idle) × (t.table.process ≡ ps) × NoneRunable k (length ps) ps)

step_at :
    (l : Linked) (s : Sched) (k : ℕ)
    → s.at ≡ Place.looking k
    → scheduler_step l s ≡ visit l k s (get_elem? s.table.process k)
unfolding scheduler_step
step_at l s k e = ap (scheduler_at l s) e

pub run_first :
    (l : Linked) (n : ℕ) (s t : Sched) → scheduler_step l s ≡ ok t → run (suc n) l s ≡ run n l t
unfolding run
run_first l n s t e = ap (λ (o : Outcome Sched). o >>= run n l) e

pub Sound-step : (l : Linked) (s t : Sched) → IsSched l s → scheduler_step l s ≡ ok t → IsSched l t
Sound-step l s t i e = subst (Sound l) e (scheduler_step-Sound l s i)

-- At an entry that is not chosen, and that no process before it was.
NoneRunable-suc :
    (k b : ℕ) (ps : List Process) (p : Process)
    → get_elem? ps k ≡ some p
    → is_runable p.state ≡ false
    → NoneRunable (suc k) b ps
    → NoneRunable k b ps
NoneRunable-suc k b ps p e r n i q lo hi h = elim (ℕ_discrete i k) [
  | yes same ↦
      let eq : q ≡ p = cc (h, e, same) in
      subst (λ (x : Process). is_runable x.state ≡ false) (sym eq) r
  | no other ↦ n i q (omega (arith, other)) hi h
]

visit_end :
    (l : Linked) (k : ℕ) (s : Sched)
    → Locked s
    → visit l k s none
      ≡ ok
          (record (with_lock
            (
              record { locked = 0 },
              record { ncli = 0; intena = s.table.cpu.intena; iflag = s.table.cpu.intena },
            )
            s) { at = Place.idle })
unfolding visit
visit_end l k s (a, n, f) = rw (release_held s.table.lock s.table.cpu a n f) refl

-- A round from an entry on, and the number of steps that it takes.
abbrev pub Sweep : Linked → ℕ → Sched → Type 0
Sweep l k s = (n : ℕ) × ((t : Sched) × (run n l s ≡ ok t) × IsSched l t × Swept k s.table.process t)

Sweep-end :
    (l : Linked) (k : ℕ) (s : Sched)
    → IsSched l s
    → s.at ≡ Place.looking k
    → Locked s
    → get_elem? s.table.process k ≡ none
    → Sweep l k s
unfolding run
Sweep-end l k s i e lk g =
    let step = step_at l s k e ∙ ap (visit l k s) g ∙ visit_end l k s lk in
    (
      1,
      (
        _,
        run_first l 0 s _ step,
        Sound-step l s _ i step,
        inr (
          refl,
          refl,
          λ i' p lo hi h. absurd (omega (arith, lo, hi, length_le_of_none s.table.process k g)),
        ),
      ),
    )

Sweep-found :
    (l : Linked) (k : ℕ) (s : Sched) (p : Process)
    → IsSched l s
    → s.at ≡ Place.looking k
    → Locked s
    → get_elem? s.table.process k ≡ some p
    → is_runable p.state ≡ true
    → Sweep l k s
unfolding run started
Sweep-found l k s p i e lk g r =
    let (b, found) = visit_lem l k s p lk r (i.0 k p g r) in
    let step = step_at l s k e ∙ ap (visit l k s) g ∙ found in
    (
      1,
      (
        _,
        run_first l 0 s _ step,
        Sound-step l s _ i step,
        inl (k, (omega arith, (p, g, r), λ i' q lo hi h. absurd (omega (arith, lo, hi))), refl),
      ),
    )

Swept-suc :
    (k : ℕ) (ps : List Process) (p : Process) (t : Sched)
    → get_elem? ps k ≡ some p
    → is_runable p.state ≡ false
    → Swept (suc k) ps t
    → Swept k ps t
Swept-suc k ps p t g r (inl (j, (lo, found, none_before), at)) =
    inl (j, (omega (arith, lo), found, NoneRunable-suc k j ps p g r none_before), at)
Swept-suc k ps p t g r (inr (at, same, none_after)) =
    inr (at, same, NoneRunable-suc k (length ps) ps p g r none_after)

later :
    (l : Linked) (k : ℕ) (s s' : Sched) (p : Process)
    → scheduler_step l s ≡ ok s'
    → s'.table.process ≡ s.table.process
    → get_elem? s.table.process k ≡ some p
    → is_runable p.state ≡ false
    → Sweep l (suc k) s'
    → Sweep l k s
later l k s s' p step same g r (n, (t, e, i, w)) = (
  suc n,
  (
    t,
    run_first l n s s' step ∙ e,
    i,
    Swept-suc k s.table.process p t g r (subst (λ (ps : List Process). Swept (suc k) ps t) same w),
  ),
)

Sweep-next :
    (l : Linked) (k : ℕ) (s : Sched) (o : Option Process)
    → get_elem? s.table.process k ≡ o
    → IsSched l s
    → s.at ≡ Place.looking k
    → Locked s
    → ((p : Process)
        → get_elem? s.table.process k ≡ some p
        → Sweep l (suc k) (record s { at = Place.looking (suc k) }))
    → Sweep l k s
Sweep-next l k s none g i e lk next = Sweep-end l k s i e lk g
Sweep-next l k s (some p) g i e lk next = elim (Bool-cases (is_runable p.state)) [
  | inl r ↦ Sweep-found l k s p i e lk g r
  | inr r ↦
      later l k s (record s { at = Place.looking (suc k) }) p
        (step_at l s k e ∙ ap (visit l k s) g ∙ visit_skip l k s p r) refl g r (next p g)
]

pub sweep :
    (l : Linked) (d k : ℕ) (s : Sched)
    → length s.table.process ≤ k + d
    → IsSched l s
    → s.at ≡ Place.looking k
    → Sweep l k s
sweep l zero k s h i e =
    let (lk, ik) : Placed l s (Place.looking k) = subst (Placed l s) e i.1 in
    Sweep-next l k s (get_elem? s.table.process k) refl i e lk
      (λ p g. absurd (omega (arith, h, lt-length_of_some s.table.process k p g)))
sweep l (suc d) k s h i e =
    let (lk, ik) : Placed l s (Place.looking k) = subst (Placed l s) e i.1 in
    Sweep-next l k s (get_elem? s.table.process k) refl i e lk (λ p g.
      sweep l d (suc k) (record s { at = Place.looking (suc k) }) (omega (arith, h))
        (i.0, (lk, record { nobody = ik.nobody; space = ik.space })) refl)
