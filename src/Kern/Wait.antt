-- ===== src/Kern/Wait.antt =====
-- system/kern/kern_wait.c: queues of threads that wait. A queue is a ring of the entries of its
-- threads, and `wq_threads` the list of those behind its head; a thread enters it once.
pub mod Sleep
use rkernel.Base.{false, true, ◌++◌, some, none, Bool, ℕ, Option, List, [], ◌∷◌}

abbrev pub WaitQueue : Type 0
WaitQueue = List ℕ

unfoldable pub waitqueue_enter : WaitQueue → ℕ → Bool → WaitQueue
waitqueue_enter queue thread true = thread ∷ queue
waitqueue_enter queue thread false = queue ++ (thread ∷ [])

-- The last entry, at `head->prev`, and the queue without it.
unfoldable pub take_last : WaitQueue → Option (ℕ × WaitQueue)
take_last [] = none
take_last (x ∷ xs) = elim (take_last xs) [
  | none ↦ some (x, [])
  | some (last, rest) ↦ some (last, x ∷ rest)
]

-- The queue behind `waitqueue_get_first`, and the thread that it wakes, if there is one.
unfoldable pub waitqueue_get_first : WaitQueue → Option ℕ × WaitQueue
unfolding take_last
waitqueue_get_first queue = elim (take_last queue) [
  | none ↦ (none, queue)
  | some (last, rest) ↦ (some last, rest)
]
