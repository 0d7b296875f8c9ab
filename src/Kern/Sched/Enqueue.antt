-- ===== src/Kern/Sched/Enqueue.antt =====
-- system/kern/kern_sched.c: where `sched_reenqueue` puts a thread.
use rkernel.Base.{
  inr, All-mono, ne→==, sym, inl, subst, Bool-cases, false, arith, ◌≢◌, All-append, ◌++◌, [], ◌≡◌,
  ◌∷◌, All, ℕ, List,
}
use rkernel.Kern.Ring.{linked_ring_insert, link_between, Links}
use rkernel.Kern.Ring.Insert.{IsSegment-frame, IsSegment, IsFresh}
use rkernel.Kern.Ring.Ends.{linked_ring_insert-IsRing, both, IsRing}
use rkernel.Kern.Sched.{
  put_decay, sched_runnable, insert_elem, sched_reenqueue, Kernel, sched_run_ring,
  sched_is_suspended, queue_of,
}

-- No node is in both.
abbrev pub AreDisjoint : List ℕ → List ℕ → Type 0
AreDisjoint xs ys = All (λ x. IsFresh x ys) xs

first_or : ℕ → List ℕ → ℕ
first_or h [] = h
first_or h (x ∷ xs) = x

next-first : (s : Links) (h : ℕ) (xs : List ℕ) → IsRing s h xs → s.next h ≡ first_or h xs
unfolding first_or
next-first s h [] r = r.0.0
next-first s h (x ∷ xs) r = r.0.0.0

first_or-All : (P : ℕ → Type 0) (h : ℕ) (xs : List ℕ) → All P (h ∷ xs) → P (first_or h xs)
unfolding first_or
first_or-All P h [] a = a.0
first_or-All P h (x ∷ xs) a = a.1.0

-- Linking a node in behind the head `h` leaves a ring alone that shares no node with this one.
insert-IsRing_other :
    (s : Links) (h e g : ℕ) (xs ys : List ℕ)
    → IsRing s h xs
    → IsFresh e (g ∷ ys)
    → AreDisjoint (h ∷ xs) (g ∷ ys)
    → IsRing s g ys
    → IsRing (link_between h e (s.next h) s) g ys
insert-IsRing_other s h e g xs ys r fresh apart other = (
  subst (λ c. IsSegment (link_between h e c s) g ys g) (sym (next-first s h xs r))
      (IsSegment-frame s (link_between h e (first_or h xs) s) g g ys
        (All-mono _ _ (λ x n. next_kept x n.0 n.1) (g ∷ ys) (both _ _ (g ∷ ys) apart.0 fresh))
        (All-mono _ _ (λ x n. prev_kept x n.0 n.1) (ys ++ (g ∷ []))
          (turned (λ x. (x ≢ first_or h xs) × (x ≢ e))
            (both _ _ (g ∷ ys) (first_or-All (λ x. IsFresh x (g ∷ ys)) h xs apart) fresh)))
        other.0),
  other.1,
)
  where
    turned : (P : ℕ → Type 0) → All P (g ∷ ys) → All P (ys ++ (g ∷ []))
    turned P (a, rest) = All-append P ys (g ∷ []) rest (a, tt)

    next_kept : (x : ℕ) → x ≢ h → x ≢ e → (link_between h e (first_or h xs) s).next x ≡ s.next x
    next_kept x m n = ground arith

    prev_kept :
        (x : ℕ) → x ≢ first_or h xs → x ≢ e → (link_between h e (first_or h xs) s).prev x ≡ s.prev x
    prev_kept x m n = ground arith

-- The thread is the first one in the ring `h`, and the ring `g` is as before.
pub record Enqueues (h thread : ℕ) (xs : List ℕ) (g : ℕ) (ys : List ℕ) (k : Kernel) : Type 0 where
  pub queued : IsRing k.links h (thread ∷ xs)
  pub named : k.node_data thread ≡ thread
  pub others : IsRing k.links g ys

insert_elem-Enqueues :
    (h thread : ℕ) (k : Kernel) (xs : List ℕ) (g : ℕ) (ys : List ℕ)
    → IsRing k.links h xs
    → IsFresh thread (h ∷ xs)
    → IsRing k.links g ys
    → IsFresh thread (g ∷ ys)
    → AreDisjoint (h ∷ xs) (g ∷ ys)
    → Enqueues h thread xs g ys (insert_elem h thread 1 k)
unfolding insert_elem linked_ring_insert
insert_elem-Enqueues h thread k xs g ys ring fresh other other_fresh apart = record {
  queued = linked_ring_insert-IsRing k.links h thread 1 xs ring fresh;
  named = ground arith;
  others = insert-IsRing_other k.links h thread g xs ys ring other_fresh apart other;
}

-- A thread that is not the idle one and can run becomes the first in the ring of its priority, and
-- every ring that shares no node with that one stays as it is.
pub sched_reenqueue-Enqueues :
    (sched thread : ℕ) (k : Kernel) (xs : List ℕ) (g : ℕ) (ys : List ℕ)
    → (k.scheduler sched).sched_idle ≢ thread
    → sched_is_suspended thread k ≡ false
    → IsRing k.links (sched_run_ring sched (queue_of thread k)) xs
    → IsFresh thread (sched_run_ring sched (queue_of thread k) ∷ xs)
    → IsRing k.links g ys
    → IsFresh thread (g ∷ ys)
    → AreDisjoint (sched_run_ring sched (queue_of thread k) ∷ xs) (g ∷ ys)
    → Enqueues
        (sched_run_ring sched (queue_of thread k))
        thread
        xs
        g
        ys
        (sched_reenqueue sched thread k)
unfolding sched_reenqueue
sched_reenqueue-Enqueues sched thread k xs g ys awake runs ring fresh other other_fresh apart =
    elim (Bool-cases (sched_runnable sched (queue_of thread k) k)) [
      | inl e ↦
          rw (ne→== thread (k.scheduler sched).sched_idle (other_node awake), runs, e)
            (insert_elem-Enqueues (sched_run_ring sched (queue_of thread k)) thread k xs g ys ring
              fresh other other_fresh apart)
      | inr e ↦
          rw (ne→== thread (k.scheduler sched).sched_idle (other_node awake), runs, e)
            (insert_elem-Enqueues (sched_run_ring sched (queue_of thread k)) thread
              (put_decay sched _ k) xs g ys ring fresh other other_fresh apart)
    ]
  where
    other_node : {a b : ℕ} → a ≢ b → b ≢ a
    other_node n e = n (sym e)
