-- ===== src/Vm/Pager/Faults.antt =====
-- What `rm_pagefault` of system/vm/rm_pager.c does with a fault on a mapper's own dataspace, and with
-- one that nothing covers.
use rkernel.Base.{
  refl, zero, ap, [], inr, ◌/◌, subst, inl, ◌∙◌, sym, get_or, get_elem?, arith, ◌∷◌, ◌^◌, ◌-◌, ◌*◌,
  suc, none, ◌≤◌, ◌<◌, ◌+◌, some, ◌≡◌, ◌%◌, ℕ, List,
}
use native.Mathlib.Nat.{zero-add}
use rkernel.Vm.Region.{
  Rmo, Rm, dataspace, region_mapper, PageFault, vadd, vsub, narrow, hit, lookup_loop, rm_ll_lookup,
}
use rkernel.Vm.Region.Insert.{Placed, Placed-le, IsValid}
use rkernel.Vm.Region.Lookup.{Covers, Among, Uncovered}
use rkernel.Vm.Pager.{
  Dataspace, Pd, Objects, Enter, page_size, enter_pages, dataspace_map, vm_ok, returned, crashed,
  rm_dispatch_pagefault, pagefault_loop, domain_size, first_fault, rm_pagefault,
}

Among-ge : (lo hi : ℕ) (o : Rmo) (os : List Rmo) → Placed lo hi os → Among o os → lo ≤ o.offset
Among-ge lo hi o [] p m = absurd m
Among-ge lo hi o (x ∷ os) p (inl e) = rw e (p.0)
Among-ge lo hi o (x ∷ os) p (inr m) = omega (arith, Among-ge (x.offset + x.size) hi o os p.1 m)

Among-le :
    (lo hi : ℕ) (o : Rmo) (os : List Rmo) → Placed lo hi os → Among o os → o.offset + o.size ≤ hi
Among-le lo hi o [] p m = absurd m
Among-le lo hi o (x ∷ os) p (inl e) = rw e (Placed-le (x.offset + x.size) hi os p.1)
Among-le lo hi o (x ∷ os) p (inr m) = Among-le (x.offset + x.size) hi o os p.1 m

-- The search stops at the object that holds the address.
lookup_loop-Covers :
    (fault : PageFault) (o : Rmo) (os : List Rmo) (lo hi : ℕ)
    → hi < 2 ^ 32
    → Placed lo hi os
    → Among o os
    → Covers fault.ptr o
    → lookup_loop fault os ≡ hit fault o
unfolding lookup_loop
lookup_loop-Covers fault o [] lo hi small p m c = absurd m
lookup_loop-Covers fault o (x ∷ os) lo hi small p (inl e) c =
    let room = Placed-le (x.offset + x.size) hi os p.1 in
    let c' : Covers fault.ptr x = subst (Covers fault.ptr) e c in rw e (ground (arith, c', room))
lookup_loop-Covers fault o (x ∷ os) lo hi small p (inr m) c =
    let room = Placed-le (x.offset + x.size) hi os p.1 in
    let past = Among-ge (x.offset + x.size) hi o os p.1 m in
    ground (arith, past, room, lookup_loop-Covers fault o os (x.offset + x.size) hi small p.1 m c)

-- The object is served by the dataspace: it is no longer than what the dataspace tells of.
pub record IsBackedBy (o : Rmo) (ds : Dataspace) : Type 0 where
  pub kind : o.kind ≡ dataspace
  pub size : o.size ≤ ds.size
  pub pages : o.size ≤ ds.n_pages * page_size
  pub aligned_offset : o.offset % page_size ≡ 0
  pub aligned_size : o.size % page_size ≡ 0

-- A domain and the mapper that serves it.
pub record IsDomain (pd : Pd) (rm : Rm) : Type 0 where
  pub aligned : pd.begin % page_size ≡ 0
  pub valid : IsValid rm
  pub fits : rm.size ≤ domain_size pd
  pub small : pd.begin + domain_size pd < 2 ^ 32

get_elem?-enter_pages :
    (n i : ℕ) (pages : List ℕ) (base prot k : ℕ)
    → k < n
    → base < 2 ^ 32
    → get_elem? (enter_pages n i pages base prot) k
      ≡ some (record { va = vadd base (k * page_size); pa = get_or pages (i + k) 0; prot = prot })
unfolding enter_pages
get_elem?-enter_pages zero i pages base prot k h b = absurd (omega arith)
get_elem?-enter_pages (suc n) i pages base prot zero h b =
    let first : vadd base (0 * page_size) ≡ base = omega arith in
    let index : i + 0 ≡ i = omega arith in rw (first, index)
get_elem?-enter_pages (suc n) i pages base prot (suc k) h b =
    let first : vadd (vadd base page_size) (k * page_size) ≡ vadd base (suc k * page_size) =
      omega arith in
    let index : i + 1 + k ≡ i + suc k = omega arith in
    get_elem?-enter_pages n (i + 1) pages (vadd base page_size) prot k (omega arith) (omega arith)
    ∙ rw (first, index)

module _ (os : Objects) (pd : Pd) (root : ℕ) (rm : Rm) (va prot fuel : ℕ)
    (at_root : os.mapper root ≡ some rm) (d : IsDomain pd rm) (above : pd.begin ≤ va)
    (within : va < pd.begin + domain_size pd) where
  down :
      rm_pagefault (suc fuel) os pd root va prot
      ≡ pagefault_loop (suc fuel) os region_mapper root (first_fault pd va prot)
  unfolding rm_pagefault
  down = ground (arith, d.small)

  in_range : vsub va pd.begin ≡ va - pd.begin
  in_range = omega (arith, d.small)

lookup_loop-Uncovered :
    (fault : PageFault) (os : List Rmo) (lo hi : ℕ)
    → hi < 2 ^ 32
    → Placed lo hi os
    → Uncovered fault.ptr os
    → lookup_loop fault os ≡ none
unfolding lookup_loop hit
lookup_loop-Uncovered fault [] lo hi small p u = refl
lookup_loop-Uncovered fault (o ∷ os) lo hi small p u =
    let room = Placed-le (o.offset + o.size) hi os p.1 in
    let rest = lookup_loop-Uncovered fault os (o.offset + o.size) hi small p.1 u.1 in
    elim (u.0) [
      | inl below ↦ ground arith
      | inr (inl past) ↦ ground (arith, room, rest)
      | inr (inr e) ↦ ground (arith, e, rest)
    ]

-- A fault in the domain at an address that no object with a type covers does not return a code: the
-- loop goes round once more, and reads through the null pointer that the lookup returned.
pub rm_pagefault-Uncovered :
    (os : Objects) (pd : Pd) (root : ℕ) (rm : Rm) (va prot fuel : ℕ)
    → os.mapper root ≡ some rm
    → os.mapper 0 ≡ none
    → IsDomain pd rm
    → pd.begin ≤ va
    → va < pd.begin + domain_size pd
    → Uncovered (va - pd.begin) rm.childs
    → rm_pagefault (suc (suc fuel)) os pd root va prot ≡ crashed
unfolding pagefault_loop rm_dispatch_pagefault rm_ll_lookup
rm_pagefault-Uncovered os pd root rm va prot fuel at_root null d above within bare =
    down os pd root rm va prot (suc fuel) at_root d above within
    ∙ rw (at_root, missed, null, pagefault_loop, rm_dispatch_pagefault, rm_ll_lookup)
  where
    ptr : va - pd.begin ≡ vsub va pd.begin
    ptr = sym (in_range os pd root rm va prot fuel at_root d above within)

    missed : lookup_loop (first_fault pd va prot) rm.childs ≡ none
    missed =
        lookup_loop-Uncovered (first_fault pd va prot) rm.childs 0 rm.size
          (omega (arith, d.small, d.fits)) d.valid.placed
          (subst (λ (x : ℕ). Uncovered x rm.childs) ptr bare)

get_elem?-dataspace_map :
    (ds : Dataspace) (base size prot k : ℕ)
    → suc k * page_size ≤ size
    → suc k * page_size ≤ ds.size
    → k < ds.n_pages
    → base < 2 ^ 32
    → get_elem? (dataspace_map ds base size prot) k
      ≡ some (record { va = vadd base (k * page_size); pa = get_or ds.pages k 0; prot = prot })
unfolding dataspace_map
get_elem?-dataspace_map ds base size prot k a b c small =
    get_elem?-enter_pages _ 0 ds.pages base prot k (ground arith) small ∙ rw (zero-add)

-- The page that holds an address.
abbrev pub page_at : ℕ → ℕ
page_at va = va / page_size * page_size

-- A fault in the domain at an address in an object that a dataspace backs returns `VM_OK`, and among
-- the pages entered is the page of that address, with the dataspace's page for it.
pub rm_pagefault_backed :
    (os : Objects) (pd : Pd) (root : ℕ) (rm : Rm) (o : Rmo) (ds : Dataspace) (va prot fuel : ℕ)
    → os.mapper root ≡ some rm
    → IsDomain pd rm
    → pd.begin ≤ va
    → Among o rm.childs
    → Covers (va - pd.begin) o
    → os.space o.object ≡ some ds
    → IsBackedBy o ds
    → let k = (va - pd.begin - o.offset) / page_size in
      (entered : List Enter) × (rm_pagefault (suc (suc fuel)) os pd root va prot
        ≡ returned vm_ok entered)
      × (get_elem? entered k
          ≡ some (record { va = page_at va; pa = get_or ds.pages k 0; prot = prot }))
unfolding pagefault_loop rm_dispatch_pagefault rm_ll_lookup
rm_pagefault_backed os pd root rm o ds va prot fuel at_root d above among covers space backed = (
  dataspace_map ds fault'.offset fault'.size prot,
  down os pd root rm va prot (suc fuel) at_root d above within
      ∙ (rw (at_root, found, space, pagefault_loop, rm_dispatch_pagefault, rm_ll_lookup))
      ∙ ap (λ (p : ℕ). returned vm_ok (dataspace_map ds fault'.offset fault'.size p)) same_prot,
  entered,
)
  where
    room : o.offset + o.size ≤ rm.size
    room = Among-le 0 rm.size o rm.childs d.valid.placed among

    within : va < pd.begin + domain_size pd
    within = omega (arith, d.fits, room, covers)

    ptr : va - pd.begin ≡ vsub va pd.begin
    ptr = sym (in_range os pd root rm va prot fuel at_root d above within)

    fault' : PageFault
    fault' = narrow (first_fault pd va prot) o

    found :
        lookup_loop (first_fault pd va prot) rm.childs
        ≡ some (record { object = o.object; kind = dataspace; fault = fault' })
    found =
        lookup_loop-Covers (first_fault pd va prot) o rm.childs 0 rm.size
          (omega (arith, d.small, d.fits)) d.valid.placed among
          (subst (λ (x : ℕ). Covers x o) ptr covers)
        ∙ unfold hit in rw (backed.kind)

    same_prot : fault'.kind ≡ prot
    same_prot = unfold narrow in refl

    whole : fault'.size ≡ o.size
    whole = unfold narrow in ground (arith, room, d.fits, d.small)

    start : fault'.offset ≡ pd.begin + o.offset
    start = unfold narrow in omega (arith, room, d.fits, d.small)

    entered :
        get_elem?
          (dataspace_map ds fault'.offset fault'.size prot)
          ((va - pd.begin - o.offset) / page_size)
        ≡ some (record {
          va = page_at va;
          pa = get_or ds.pages ((va - pd.begin - o.offset) / page_size) 0;
          prot = prot;
        })
    entered =
        get_elem?-dataspace_map ds fault'.offset fault'.size prot
          ((va - pd.begin - o.offset) / page_size) (omega (arith, whole, covers, backed))
          (omega (arith, covers, backed)) (omega (arith, covers, backed))
          (omega (arith, start, room, d.fits, d.small))
        ∙ ap
            (λ (x : ℕ). some (record {
              va = x;
              pa = get_or ds.pages ((va - pd.begin - o.offset) / page_size) 0;
              prot = prot;
            }))
            (omega (arith, start, covers, d.aligned, d.small, within, backed.aligned_offset))
