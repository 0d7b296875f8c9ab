-- ===== src/Vm/Pager/Depth.antt =====
-- The loop of `rm_pagefault` ends where no region mapper holds itself, directly or through others.
use rkernel.Base.{
  inr, ◌∙◌, inl, sym, Option-cases, refl, zero, ◌^◌, some, arith, Option, ◌≢◌, none, ◌≡◌, ◌<◌, suc,
  ℕ,
}
use rkernel.Vm.Region.{
  Rmo, Rm, RmoType, undefined, dataspace, region_mapper, PageFault, Hit, rm_ll_lookup,
}
use rkernel.Vm.Region.Insert.{IsValid}
use rkernel.Vm.Region.Lookup.{Among, Finds, rm_ll_lookup-Finds}
use rkernel.Vm.Pager.{
  Pd, Objects, Dataspace, dataspace_map, domain_size, first_fault, Outcome, returned, crashed,
  out_of_fuel, done, again, crash, rm_dispatch_pagefault, pagefault_loop, rm_pagefault,
}

-- Every mapper has a rank, above the ranks of the mappers that it holds.
pub record IsWellFounded (os : Objects) (rank : ℕ → ℕ) : Type 0 where
  pub null : os.mapper 0 ≡ none
  pub valid : (m : ℕ) (rm : Rm) → os.mapper m ≡ some rm → IsValid rm
  pub small : (m : ℕ) (rm : Rm) → os.mapper m ≡ some rm → rm.size < 2 ^ 32
  pub falls :
      (m : ℕ) (rm : Rm) (o : Rmo)
      → os.mapper m ≡ some rm
      → Among o rm.childs
      → o.kind ≡ region_mapper
      → rank o.object < rank m

-- A loop at a dataspace or at nothing is over in one round.
dataspace_ends :
    (os : Objects) (fuel object : ℕ) (fault : PageFault)
    → pagefault_loop (suc fuel) os dataspace object fault ≢ out_of_fuel
unfolding pagefault_loop rm_dispatch_pagefault
dataspace_ends os fuel object fault e = split (os.space object) e
  where
    split :
        (s : Option Dataspace)
        → (elim (elim s as (λ x. rkernel.Vm.Pager.Round) [
          | none ↦ crash
          | some ds ↦
              done rkernel.Vm.Pager.vm_ok (dataspace_map ds fault.offset fault.size fault.kind)
        ])
            as (λ x. Outcome) [
              | done code entered ↦ returned code entered
              | again t o f ↦ pagefault_loop fuel os t o f
              | crash ↦ crashed
            ])
          ≡ out_of_fuel
        → ⊥
    split none e = cc
    split (some ds) e = cc

null_ends :
    (os : Objects) (fuel : ℕ) (fault : PageFault)
    → os.mapper 0 ≡ none
    → pagefault_loop (suc fuel) os region_mapper 0 fault ≡ crashed
unfolding pagefault_loop rm_dispatch_pagefault
null_ends os fuel fault e = rw (e, pagefault_loop, rm_dispatch_pagefault)

-- What one more round is known to do with a smaller rank.
abbrev Ends : Objects → (ℕ → ℕ) → ℕ → Type 0
Ends os rank fuel =
    (m : ℕ) (fault : PageFault)
    → rank m < fuel
    → pagefault_loop (suc fuel) os region_mapper m fault ≢ out_of_fuel

module _ (os : Objects) (rank : ℕ → ℕ) (w : IsWellFounded os rank) (fuel m : ℕ) (fault : PageFault)
    (low : rank m < suc fuel) (ends : Ends os rank fuel) where
  found_ends :
      (rm : Rm) (h : Hit)
      → os.mapper m ≡ some rm
      → Finds fault rm.childs (some h)
      → (k : RmoType) → h.kind ≡ k
      → pagefault_loop (suc fuel) os k h.object h.fault ≢ out_of_fuel
  found_ends rm h e f undefined k = absurd (f.5 k)
  found_ends rm h e f dataspace k = dataspace_ends os fuel h.object h.fault
  found_ends rm h e f region_mapper k =
      let fall : rank (f.0).object < rank m = w.falls m rm f.0 e f.1 (sym f.4 ∙ k) in
      ends h.object h.fault (rw f.3 (omega arith))

  lookup_ends :
      (rm : Rm)
      → os.mapper m ≡ some rm
      → (out : Option Hit) → rm_ll_lookup rm fault ≡ out
      → Finds fault rm.childs out
      → pagefault_loop (suc (suc fuel)) os region_mapper m fault ≢ out_of_fuel
  unfolding pagefault_loop rm_dispatch_pagefault
  lookup_ends rm e none l f =
      rw (e, l, pagefault_loop, rm_dispatch_pagefault, null_ends os fuel fault w.null) (λ x. cc)
  lookup_ends rm e (some h) l f =
      rw (e, l, pagefault_loop, rm_dispatch_pagefault) (found_ends rm h e f h.kind refl)

  mapper_round : pagefault_loop (suc (suc fuel)) os region_mapper m fault ≢ out_of_fuel
  unfolding pagefault_loop rm_dispatch_pagefault
  mapper_round = elim (Option-cases (os.mapper m)) [
    | inl e ↦ rw (e, pagefault_loop, rm_dispatch_pagefault) (λ x. cc)
    | inr (rm, e) ↦
        lookup_ends rm e (rm_ll_lookup rm fault) refl
          (rm_ll_lookup-Finds rm fault (w.valid m rm e) (w.small m rm e))
  ]

mapper-Ends : (os : Objects) (rank : ℕ → ℕ) → IsWellFounded os rank → (fuel : ℕ) → Ends os rank fuel
mapper-Ends os rank w zero m fault h = absurd (omega arith)
mapper-Ends os rank w (suc fuel) m fault h =
    mapper_round os rank w fuel m fault h (mapper-Ends os rank w fuel)

-- Where no mapper holds itself, the loop of `rm_pagefault` ends, whatever the fault: it goes round at
-- most twice more than the rank of the mapper that it starts from.
pub rm_pagefault-ends :
    (os : Objects) (rank : ℕ → ℕ) (pd : Pd) (root va prot : ℕ)
    → IsWellFounded os rank
    → rm_pagefault (suc (suc (rank root))) os pd root va prot ≢ out_of_fuel
unfolding rm_pagefault
rm_pagefault-ends os rank pd root va prot w =
    ground
      (arith, mapper-Ends os rank w (suc (rank root)) root (first_fault pd va prot) (omega arith))
