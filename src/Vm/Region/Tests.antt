-- ===== src/Vm/Region/Tests.antt =====
-- A small mapper, and the theorems at it.
use rkernel.Base.{refl, some, false, [], ◌≡◌, ◌∷◌, ℕ, arith}
use rkernel.Vm.Region.{Rmo, Rm, dataspace, PageFault, Hit, rm_insert, rm_ll_lookup, insert_loop}
use rkernel.Vm.Region.Insert.{IsValid, Inserts, rm_insert-Inserts}
use rkernel.Vm.Region.Lookup.{Finds, rm_ll_lookup-Finds}

abbrev space : ℕ → ℕ → Rmo
space at size = record { offset = at; size = size; object = 7; kind = dataspace; is_static = false }

-- A gap of 0x3000 bytes between two objects.
abbrev gapped : Rm
gapped = record { childs = space 0 0x1000 ∷ space 0x4000 0x1000 ∷ []; size = 0x8000; refc = 1 }

gapped-IsValid : IsValid gapped
gapped-IsValid = record { placed = omega arith }

fills_the_gap :
    rm_insert gapped (space 9 0x2000)
    ≡ some
        (record gapped { childs = space 0 0x1000 ∷ space 0x1000 0x2000 ∷ space 0x4000 0x1000 ∷ [] })
unfolding rm_insert insert_loop
fills_the_gap = refl

abbrev fault : PageFault
fault = record { offset = 0x10000; ptr = 0x4010; size = 0x8000; kind = 4 }

rm_insert-Inserts_example : Inserts gapped (space 9 0x2000) (rm_insert gapped (space 9 0x2000))
rm_insert-Inserts_example = rm_insert-Inserts gapped (space 9 0x2000) gapped-IsValid (omega arith)

rm_ll_lookup-Finds_example : Finds fault gapped.childs (rm_ll_lookup gapped fault)
rm_ll_lookup-Finds_example = rm_ll_lookup-Finds gapped fault gapped-IsValid (omega arith)

abbrev found : Hit
found = record {
  object = 7;
  kind = dataspace;
  fault = record { offset = 0x14000; ptr = 0x10; size = 0x1000; kind = 4 };
}
