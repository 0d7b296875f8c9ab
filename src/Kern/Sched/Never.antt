-- ===== src/Kern/Sched/Never.antt =====
-- system/kern/kern_sched.c: the scheduler as it is made never finds a thread, since the macro
-- `sched_runnable` holds of the rings without a thread.
use rkernel.Base.{
  none, some, ◌∙◌, subst, refl, true, false, ap, ◌≡◌, [], List, ◌<◌, ℤ, ℕ, suc, arith,
}
use rkernel.Kern.Ring.Ends.{IsRing}
use rkernel.Kern.Ring.Pop.{linked_ring_empty-nil}
use rkernel.Kern.Sched.{
  Kernel, Next, Choice, sched_run_ring, sched_runnable, sched_schedule_next, take_from, after_pick,
  found, nothing, null_read, out_of_fuel, put_decay, pick_loop, sched_nrqs,
}
use rkernel.Kern.Sched.Lowest.{Picks, pick_loop-Picks}

-- The run rings are well formed, and no ring names itself as the entry of a thread.
pub record HasRings (sched : ℕ) (k : Kernel) : Type 0 where
  pub ring : (i : ℕ) → i < 32 → (xs : List ℕ) × IsRing k.links (sched_run_ring sched i) xs
  pub headless : (i : ℕ) → i < 32 → k.node_data (sched_run_ring sched i) ≡ 0

-- There is a run ring without a thread.
abbrev pub HasEmptyRing : ℕ → Kernel → Type 0
HasEmptyRing sched k = (i : ℕ) × (i < 32) × (IsRing k.links (sched_run_ring sched i) [])

abbrev pub FindsNone : ℕ → Kernel → Next → Type 0
FindsNone sched k (found t k') = ⊥
FindsNone sched k (nothing k') = ¬ (HasEmptyRing sched k)
FindsNone sched k null_read = HasEmptyRing sched k
FindsNone sched k out_of_fuel = ⊥

module _ (sched : ℕ) (k : Kernel) (h : HasRings sched k) where
  empty-IsRing :
      (i : ℕ)
      → i < 32
      → sched_runnable sched i k ≡ true
      → IsRing k.links (sched_run_ring sched i) []
  unfolding sched_runnable
  empty-IsRing i lt e =
      let (xs, r) = h.ring i lt in
      subst (IsRing k.links (sched_run_ring sched i))
        ((linked_ring_empty-nil k.links (sched_run_ring sched i) xs r).0 e) r

  no_empty_ring : ((i : ℕ) → i < 32 → sched_runnable sched i k ≡ false) → ¬ (HasEmptyRing sched k)
  unfolding sched_runnable
  no_empty_ring none_runs (i, lt, r) =
      ground (
        arith,
        none_runs i lt,
        (linked_ring_empty-nil k.links (sched_run_ring sched i) [] r).1 refl,
      )

  head_taken :
      (i : ℕ) (decay : ℕ → ℤ)
      → i < 32
      → IsRing k.links (sched_run_ring sched i) []
      → (take_from sched i decay k).0 ≡ 0
  unfolding take_from
  head_taken i decay lt r = ap k.node_data r.0.1 ∙ h.headless i lt

  after_pick-FindsNone :
      (restart : Kernel → Next) (decay : ℕ → ℤ) (out : (ℕ → ℤ) × Choice)
      → Picks (λ i. sched_runnable sched i k) decay out
      → FindsNone sched k (after_pick restart sched k out)
  unfolding after_pick
  after_pick-FindsNone restart _ (decay, none) p = no_empty_ring (λ i lt. (p i lt).0)
  after_pick-FindsNone restart _ (decay, some (m, d)) (lt, (runs, r)) =
      rw (head_taken m decay lt (empty-IsRing m lt runs)) (m, lt, empty-IsRing m lt runs)

  after_pick-nothing :
      (restart : Kernel → Next) (decay : ℕ → ℤ) (out : (ℕ → ℤ) × Choice)
      → ¬ (HasEmptyRing sched k)
      → Picks (λ i. sched_runnable sched i k) decay out
      → after_pick restart sched k out ≡ nothing (put_decay sched out.0 k)
  unfolding after_pick
  after_pick-nothing restart _ (decay, none) full p = refl
  after_pick-nothing restart _ (decay, some (m, d)) full (lt, (runs, r)) =
      absurd (full (m, lt, empty-IsRing m lt runs))

-- With well-formed rings, `sched_schedule_next` never returns a thread: it returns the null pointer
-- where each run ring holds a thread, and reads a thread at the null pointer where one is empty.
pub sched_schedule_next-FindsNone :
    (fuel sched : ℕ) (k : Kernel)
    → HasRings sched k
    → FindsNone sched k (sched_schedule_next (suc fuel) sched k)
unfolding sched_schedule_next
sched_schedule_next-FindsNone fuel sched k h =
    after_pick-FindsNone sched k h (sched_schedule_next fuel sched)
      (k.scheduler sched).sched_run_decay _
      (pick_loop-Picks (λ i. sched_runnable sched i k) (k.scheduler sched).sched_run_decay)

-- Where each run ring holds a thread, `sched_schedule_next` only changes the decays.
pub sched_schedule_next-nothing :
    (fuel sched : ℕ) (k : Kernel)
    → HasRings sched k
    → ¬ (HasEmptyRing sched k)
    → (decay : ℕ → ℤ) × (sched_schedule_next (suc fuel) sched k ≡ nothing (put_decay sched decay k))
unfolding sched_schedule_next
sched_schedule_next-nothing fuel sched k h full =
    let decays = (k.scheduler sched).sched_run_decay in
    let out = pick_loop (λ i. sched_runnable sched i k) sched_nrqs 0 decays none in
    (
      out.0,
      after_pick-nothing sched k h (sched_schedule_next fuel sched) decays out full
          (pick_loop-Picks (λ i. sched_runnable sched i k) decays),
    )
