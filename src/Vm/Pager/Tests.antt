-- ===== src/Vm/Pager/Tests.antt =====
-- A domain with one dataspace in a mapper in a mapper, and the theorems at it.
use rkernel.Base.{
  inr, ◌∙◌, ◌^◌, Option, ◌<◌, sym, Bool-cases, ℕ, subst, ap, none, some, ◌==◌, refl, inl, get_elem?,
  [], ◌≢◌, ◌≡◌, ◌∷◌, true, if◌then◌else◌, arith, List,
}
use rkernel.Vm.Region.{Rmo, Rm, dataspace, region_mapper}
use rkernel.Vm.Region.Insert.{IsValid}
use rkernel.Vm.Region.Lookup.{Among}
use rkernel.Vm.Pager.{
  Dataspace, Pd, Objects, Enter, returned, crashed, out_of_fuel, vm_ok, rm_pagefault,
}
use rkernel.Vm.Pager.Faults.{IsDomain, page_at, rm_pagefault-Uncovered, rm_pagefault_backed}
use rkernel.Vm.Pager.Depth.{IsWellFounded, rm_pagefault-ends}

abbrev ds : Dataspace
ds = record { n_pages = 2; size = 0x2000; pages = 0x5000 ∷ 0x9000 ∷ [] }

abbrev member : Rmo
member = record { offset = 0x1000; size = 0x2000; object = 3; kind = dataspace; is_static = true }

abbrev rm : Rm
rm = record { childs = member ∷ []; size = 0x8000; refc = 1 }

abbrev pd : Pd
pd = record { begin = 0x10000; end = 0x17fff }

abbrev objects : Objects
objects = record {
  mapper = λ m. if m == 1 then some rm else none;
  space = λ m. if m == 3 then some ds else none;
}

pd-IsDomain : IsDomain pd rm
pd-IsDomain = record {
  aligned = refl;
  valid = record { placed = omega arith };
  fits = omega arith;
  small = omega arith;
}

rm_pagefault-Uncovered_example : rm_pagefault 2 objects pd 1 0x10800 4 ≡ crashed
rm_pagefault-Uncovered_example =
    rm_pagefault-Uncovered objects pd 1 rm 0x10800 4 0 refl refl pd-IsDomain (omega arith)
      (omega arith) (inl (omega arith), tt)

rm_pagefault_backed_example :
    (entered : List Enter) × (rm_pagefault 2 objects pd 1 0x12345 4 ≡ returned vm_ok entered)
    × (get_elem? entered 1 ≡ some (record { va = page_at 0x12345; pa = 0x9000; prot = 4 }))
rm_pagefault_backed_example =
    rm_pagefault_backed objects pd 1 rm member ds 0x12345 4 0 refl pd-IsDomain (omega arith)
      (inl refl) (omega arith) refl
      (record {
        kind = refl;
        size = omega arith;
        pages = omega arith;
        aligned_offset = refl;
        aligned_size = refl;
      })

only_rm : (m : ℕ) (r : Rm) → objects.mapper m ≡ some r → rm ≡ r
only_rm m r e = elim (Bool-cases (m == 1)) [
  | inl one ↦ let e' : ◌≡◌ {A = Option Rm} (some rm) (some r) = sym (rw one) ∙ e in cc
  | inr other ↦ let e' : ◌≡◌ {A = Option Rm} none (some r) = sym (rw other) ∙ e in cc
]

no_mapper : (o : Rmo) → Among o rm.childs → o.kind ≡ region_mapper → ⊥
no_mapper o (inl e) k =
    let e' : member.kind ≡ region_mapper = ap (λ (x : Rmo). x.kind) (sym e) ∙ k in cc
no_mapper o (inr e) k = absurd e

objects-IsWellFounded : IsWellFounded objects (λ m. m)
objects-IsWellFounded = record {
  null = refl;
  valid = λ m r e. subst IsValid (only_rm m r e) pd-IsDomain.valid;
  small = λ m r e. subst (λ (x : Rm). x.size < 2 ^ 32) (only_rm m r e) (omega arith);
  falls = λ m r o e a k.
      absurd (no_mapper o (subst (λ (x : Rm). Among o x.childs) (sym (only_rm m r e)) a) k);
}

rm_pagefault-ends_example : rm_pagefault 3 objects pd 1 0x12345 4 ≢ out_of_fuel
rm_pagefault-ends_example = rm_pagefault-ends objects (λ m. m) pd 1 0x12345 4 objects-IsWellFounded
