-- ===== src/Vm/Init/Stuck.antt =====
-- system/vm/region_mapper.c: the static objects run out.
use rkernel.Base.{ℕ, ◌≡◌, ◌≤◌, none, some, true, false, refl, leb, arith}
use rkernel.Vm.Init.{Statics, rm_kalloc, n_rmos}

-- Once the four static objects are in use, `rm_kalloc` returns null but keeps the lock, so that the call
-- after it waits for good.
pub rm_kalloc_stuck :
    (rmodss : ℕ) (s : Statics)
    → s.locked ≡ false
    → n_rmos ≤ s.rmoi
    → (s' : Statics) × (rm_kalloc rmodss s ≡ some (none, s')) × (rm_kalloc rmodss s' ≡ none)
unfolding rm_kalloc
rm_kalloc_stuck rmodss s unlocked full =
    let e : leb n_rmos s.rmoi ≡ true = ground (arith, full) in
    (record s { locked = true }, rw (unlocked, e) refl, refl)
