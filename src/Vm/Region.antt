-- ===== src/Vm/Region.antt =====
-- system/vm/region_mapper.c: a region mapper places objects, at offsets of its own choice, in a
-- stretch of addresses. The ring `rm_childs` is the list of its objects; an object pointer
-- (`void *rmo_object`) is a number. `vaddr_t` is a 32-bit number.
pub mod Insert
pub mod Lookup
mod Tests
use rkernel.Base.{
  ℕ, ◌+◌, ◌-◌, ◌%◌, ◌^◌, Bool, true, false, Option, none, some, List, [], ◌∷◌, ltb, if◌then◌else◌,
}

-- `RMO_UNDEFINED`, `RMO_DATASPACE` and `RMO_REGION_MAPPER`.
pub data RmoType : Type 0 where
  undefined dataspace region_mapper : RmoType

-- `struct region_mapper_object`
pub record Rmo : Type 0 where
  pub offset : ℕ
  pub size : ℕ
  pub object : ℕ
  pub kind : RmoType
  pub is_static : Bool

-- `struct region_mapper`
pub record Rm : Type 0 where
  pub childs : List Rmo
  pub size : ℕ
  pub refc : ℕ

-- `struct page_fault`
pub record PageFault : Type 0 where
  pub offset : ℕ
  pub ptr : ℕ
  pub size : ℕ
  pub kind : ℕ

-- `vaddr_t` addition and subtraction.
abbrev pub vadd : ℕ → ℕ → ℕ
vadd a b = (a + b) % 2 ^ 32

abbrev pub vsub : ℕ → ℕ → ℕ
vsub a b = (a + 2 ^ 32 - b) % 2 ^ 32

unfoldable pub rm_construct : ℕ → Rm
rm_construct size = record { childs = []; size = size; refc = 1 }

-- The object pointer and the size are set by the caller afterwards.
unfoldable pub rmo_construct : Rmo → Rmo
rmo_construct rmo = record rmo { object = 0; kind = undefined; is_static = false }

-- The loop of `rm_insert` over the objects that are left; the result is those objects with the new
-- one among them, or `none` where the code returns 0.
unfoldable pub insert_loop : ℕ → Rmo → List Rmo → ℕ → Option (List Rmo)
insert_loop limit rmo [] begin =
    if ltb limit (vadd begin rmo.size) then none else some (record rmo { offset = begin } ∷ [])
insert_loop limit rmo (other ∷ rest) begin =
    let later = insert_loop limit rmo rest (vadd other.offset other.size) in
    if ltb other.offset (vadd begin rmo.size)
    then elim later [ none ↦ none | some childs ↦ some (other ∷ childs) ]
    else some (record rmo { offset = begin } ∷ (other ∷ rest))

unfoldable pub rm_insert : Rm → Rmo → Option Rm
rm_insert rm rmo = elim (insert_loop rm.size rmo rm.childs 0) [
  | none ↦ none
  | some childs ↦ some (record rm { childs = childs })
]

-- What a lookup returns: the object, what it stores in `*type`, and the fault as it rewrites it.
pub record Hit : Type 0 where
  pub object : ℕ
  pub kind : RmoType
  pub fault : PageFault

-- The rewriting of the fault, relative to the object that holds its address.
unfoldable pub narrow : PageFault → Rmo → PageFault
narrow fault object =
    let size = vsub fault.size object.offset in
    record fault {
      ptr = vsub fault.ptr object.offset;
      size = if ltb object.size size then object.size else size;
      offset = vadd fault.offset object.offset;
    }

unfoldable pub hit : PageFault → Rmo → Option Hit
hit fault o = elim (o.kind) [
  | undefined ↦ none
  | dataspace ↦ some (record { object = o.object; kind = dataspace; fault = narrow fault o })
  | region_mapper ↦
      some (record { object = o.object; kind = region_mapper; fault = narrow fault o })
]

unfoldable pub lookup_loop : PageFault → List Rmo → Option Hit
lookup_loop fault [] = none
lookup_loop fault (object ∷ rest) =
    let later = lookup_loop fault rest in
    if ltb fault.ptr object.offset
    then none
    else if ltb fault.ptr (vadd object.offset object.size)
    then hit fault object
    else later

-- `none` where the code returns the null pointer; `*type` and `*fault` are then as they were.
unfoldable pub rm_ll_lookup : Rm → PageFault → Option Hit
rm_ll_lookup rm fault = lookup_loop fault rm.childs
