-- ===== src/Vm/Region/Lookup.antt =====
-- `rm_ll_lookup` of system/vm/region_mapper.c: the object that holds an address.
use rkernel.Base.{
  ltb, subst, Bool-cases, ◌^◌, ℕ, ◌+◌, ◌<◌, ◌≤◌, ◌≡◌, ◌≢◌, ◌⊎◌, refl, Option, none, some, List, [],
  ◌∷◌, arith, inl, inr, All,
}
use rkernel.Vm.Region.{
  vadd, rm_ll_lookup, lookup_loop, Rm, Rmo, RmoType, undefined, dataspace, region_mapper, PageFault,
  Hit, narrow, hit,
}
use rkernel.Vm.Region.Insert.{Placed-le, IsValid, Placed}

-- The address lies in the object.
abbrev pub Covers : ℕ → Rmo → Type 0
Covers ptr o = (o.offset ≤ ptr) × (ptr < o.offset + o.size)

-- The list has this object.
abbrev pub Among : Rmo → List Rmo → Type 0
Among o [] = ⊥
Among o (x ∷ xs) = (o ≡ x) ⊎ Among o xs

-- No object with a meaning holds the address.
abbrev pub Uncovered : ℕ → List Rmo → Type 0
Uncovered ptr =
    All (λ (o : Rmo). (ptr < o.offset) ⊎ (o.offset + o.size ≤ ptr) ⊎ (o.kind ≡ undefined))

-- What a lookup of the fault promises.
abbrev pub Finds : PageFault → List Rmo → Option Hit → Type 0
Finds fault os none = Uncovered fault.ptr os
Finds fault os (some h) =
    (o : Rmo) × Among o os
    × Covers fault.ptr o
    × (h.object ≡ o.object)
    × (h.kind ≡ o.kind)
    × (h.kind ≢ undefined)
    × (h.fault ≡ narrow fault o)

above-Uncovered : (ptr lo hi : ℕ) (os : List Rmo) → Placed lo hi os → ptr < lo → Uncovered ptr os
above-Uncovered ptr lo hi [] p below = tt
above-Uncovered ptr lo hi (o ∷ os) p below =
    (inl (omega arith), above-Uncovered ptr (o.offset + o.size) hi os p.1 (omega arith))

hit-Finds :
    (fault : PageFault) (o : Rmo) (os : List Rmo)
    → Covers fault.ptr o
    → Uncovered fault.ptr os
    → Finds fault (o ∷ os) (hit fault o)
unfolding hit
hit-Finds fault o os c rest = split (o.kind) refl
  where
    split :
        (k : RmoType)
        → o.kind ≡ k
        → Finds fault (o ∷ os) (elim k as (λ x. Option Hit) [
          | undefined ↦ none
          | dataspace ↦
              some (record { object = o.object; kind = dataspace; fault = narrow fault o })
          | region_mapper ↦
              some (record { object = o.object; kind = region_mapper; fault = narrow fault o })
        ])
    split undefined e = (inr (inr e), rest)
    split dataspace e = (o, inl refl, c, refl, rw e, (λ f. cc), refl)
    split region_mapper e = (o, inl refl, c, refl, rw e, (λ f. cc), refl)

lookup_loop-Finds :
    (fault : PageFault) (os : List Rmo) (lo hi : ℕ)
    → hi < 2 ^ 32
    → Placed lo hi os
    → Finds fault os (lookup_loop fault os)
unfolding lookup_loop
lookup_loop-Finds fault [] lo hi small p = tt
lookup_loop-Finds fault (o ∷ os) lo hi small p =
    let room = Placed-le (o.offset + o.size) hi os p.1 in
    elim (Bool-cases (ltb fault.ptr o.offset)) [
      | inl below ↦ rw below (
        inl (ground (arith, below)),
        above-Uncovered fault.ptr (o.offset + o.size) hi os p.1 (ground (arith, below)),
      )
      | inr above ↦ elim (Bool-cases (ltb fault.ptr (vadd o.offset o.size))) [
        | inl inside ↦
            rw (above, inside)
              (hit-Finds fault o os (ground (arith, above), ground (arith, inside))
                (above-Uncovered fault.ptr (o.offset + o.size) hi os p.1 (ground (arith, inside))))
        | inr past ↦
            rw (above, past)
              (later (lookup_loop fault os) (ground (arith, past))
                (lookup_loop-Finds fault os (o.offset + o.size) hi small p.1))
      ]
    ]
  where
    later :
        (out : Option Hit)
        → o.offset + o.size ≤ fault.ptr
        → Finds fault os out
        → Finds fault (o ∷ os) out
    later none past f = (inr (inl past), f)
    later (some h) past f = (f.0, inr f.1, f.2, f.3, f.4, f.5, f.6)

-- In a valid mapper of the 32-bit address space, `rm_ll_lookup` returns null exactly when no object
-- with a type holds the fault's address; else it returns the pointer and the type of an object of
-- the mapper that holds it, and the fault made relative to that object.
pub rm_ll_lookup-Finds :
    (rm : Rm) (fault : PageFault)
    → IsValid rm
    → rm.size < 2 ^ 32
    → Finds fault rm.childs (rm_ll_lookup rm fault)
unfolding rm_ll_lookup
rm_ll_lookup-Finds rm fault v small = lookup_loop-Finds fault rm.childs 0 rm.size small v.placed

-- The address that a fault stands for, which each step of the way down keeps.
abbrev pub address : PageFault → ℕ
address f = vadd f.offset f.ptr

narrow-address :
    (fault : PageFault) (o : Rmo)
    → Covers fault.ptr o
    → fault.ptr < 2 ^ 32
    → (address (narrow fault o) ≡ address fault)
      × ((narrow fault o).ptr < o.size)
      × ((narrow fault o).size ≤ o.size)
unfolding narrow
narrow-address fault o c small = ground arith

-- A lookup that finds an object keeps the address that the fault stands for, and leaves an offset
-- and a size that lie within an object of the mapper.
pub rm_ll_lookup-address :
    (rm : Rm) (fault : PageFault) {h : Hit}
    → IsValid rm
    → rm.size < 2 ^ 32
    → fault.ptr < 2 ^ 32
    → rm_ll_lookup rm fault ≡ some h
    → (address h.fault ≡ address fault)
      × ((o : Rmo) × Among o rm.childs × (h.fault.ptr < o.size) × (h.fault.size ≤ o.size))
rm_ll_lookup-address rm fault {h} v small low e =
    let f : Finds fault rm.childs (some h) =
      subst (Finds fault rm.childs) e (rm_ll_lookup-Finds rm fault v small) in
    let n = narrow-address fault f.0 f.2 low in (rw f.6 n.0, (f.0, f.1, rw f.6 n.1, rw f.6 n.2))
