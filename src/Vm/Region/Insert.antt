-- ===== src/Vm/Region/Insert.antt =====
-- `rm_insert` of system/vm/region_mapper.c: where it places an object, and what it keeps.
use rkernel.Base.{
  ℕ, ◌+◌, ◌^◌, ◌<◌, ◌≤◌, ◌≡◌, ◌⊎◌, refl, Option, none, some, List, [], ◌∷◌, ltb, if◌then◌else◌,
  arith, inl, inr, Bool-cases,
}
use rkernel.Vm.Region.{Rmo, Rm, vadd, insert_loop, rm_insert}

-- The objects lie between `lo` and `hi` in the order of the list, and do not overlap.
abbrev pub Placed : ℕ → ℕ → List Rmo → Type 0
Placed lo hi [] = lo ≤ hi
Placed lo hi (o ∷ os) = (lo ≤ o.offset) × Placed (o.offset + o.size) hi os

pub record IsValid (rm : Rm) : Type 0 where
  pub placed : Placed 0 rm.size rm.childs

pub Placed-le : (lo hi : ℕ) (os : List Rmo) → Placed lo hi os → lo ≤ hi
Placed-le lo hi [] h = h
Placed-le lo hi (o ∷ os) h = omega (arith, Placed-le (o.offset + o.size) hi os h.1)

-- No stretch of `size` addresses is free, from `lo` to `hi`, before, between or behind the objects.
abbrev pub NoRoom : ℕ → ℕ → ℕ → List Rmo → Type 0
NoRoom size lo hi [] = hi < lo + size
NoRoom size lo hi (o ∷ os) = (o.offset < lo + size) × NoRoom size (o.offset + o.size) hi os

-- The new object stands among the old ones at the lowest address that has room for it.
abbrev pub FirstFit : Rmo → ℕ → ℕ → List Rmo → List Rmo → Type 0
FirstFit rmo lo hi [] out = (out ≡ record rmo { offset = lo } ∷ []) × (lo + rmo.size ≤ hi)
FirstFit rmo lo hi (o ∷ os) out =
    ((out ≡ record rmo { offset = lo } ∷ (o ∷ os)) × (lo + rmo.size ≤ o.offset))
    ⊎ ((o.offset < lo + rmo.size)
        × ((rest : List Rmo) × (out ≡ o ∷ rest) × FirstFit rmo (o.offset + o.size) hi os rest))

-- What `rm_insert` does with the list of objects.
abbrev pub Fits : Rmo → ℕ → ℕ → List Rmo → Option (List Rmo) → Type 0
Fits rmo lo hi os none = NoRoom rmo.size lo hi os
Fits rmo lo hi os (some out) = FirstFit rmo lo hi os out × Placed lo hi out

insert_loop-Fits :
    (hi : ℕ) (rmo : Rmo) (os : List Rmo) (lo : ℕ)
    → hi + rmo.size < 2 ^ 32
    → Placed lo hi os
    → Fits rmo lo hi os (insert_loop hi rmo os lo)
unfolding insert_loop
insert_loop-Fits hi rmo [] lo small p = elim (Bool-cases (ltb hi (vadd lo rmo.size))) [
  | inl over ↦ rw over (ground (arith, over))
  | inr fits ↦ rw fits ((refl, ground (arith, fits)), (omega arith, ground (arith, fits)))
]
insert_loop-Fits hi rmo (o ∷ os) lo small p =
    let room = Placed-le (o.offset + o.size) hi os p.1 in
    let end : vadd o.offset o.size ≡ o.offset + o.size = omega arith in
    step (insert_loop hi rmo os (vadd o.offset o.size))
      (rw end (insert_loop-Fits hi rmo os (o.offset + o.size) small p.1)) room
  where
    step :
        (later : Option (List Rmo))
        → Fits rmo (o.offset + o.size) hi os later
        → o.offset + o.size ≤ hi
        → Fits rmo lo hi (o ∷ os) (
            if ltb o.offset (vadd lo rmo.size)
            then elim later as (λ x. Option (List Rmo)) [
              | none ↦ none
              | some childs ↦ some (o ∷ childs)
            ]
            else some (record rmo { offset = lo } ∷ (o ∷ os)))
    step later f room = elim (Bool-cases (ltb o.offset (vadd lo rmo.size))) [
      | inl touches ↦ rw touches (further later f (ground (arith, touches)))
      | inr clear ↦
          rw clear (inl (refl, ground (arith, clear)), (omega arith, (ground (arith, clear), p.1)))
    ]
      where
        further :
            (later : Option (List Rmo))
            → Fits rmo (o.offset + o.size) hi os later
            → o.offset < lo + rmo.size
            → Fits rmo lo hi (o ∷ os) (elim later as (λ x. Option (List Rmo)) [
              | none ↦ none
              | some childs ↦ some (o ∷ childs)
            ])
        further none f t = (t, f)
        further (some out) f t = (inr (t, (out, refl, f.0)), (p.0, f.1))

-- What `rm_insert` does with a mapper.
abbrev pub Inserts : Rm → Rmo → Option Rm → Type 0
Inserts rm rmo none = NoRoom rmo.size 0 rm.size rm.childs
Inserts rm rmo (some rm') =
    FirstFit rmo 0 rm.size rm.childs rm'.childs
    × IsValid rm'
    × (rm'.size ≡ rm.size)
    × (rm'.refc ≡ rm.refc)

-- In a valid mapper, and where no address computed on the way wraps, `rm_insert` fails exactly when
-- no free stretch is long enough. Otherwise it puts the object at the lowest offset with room for
-- it, moves no other object, and leaves the mapper valid.
pub rm_insert-Inserts :
    (rm : Rm) (rmo : Rmo)
    → IsValid rm
    → rm.size + rmo.size < 2 ^ 32
    → Inserts rm rmo (rm_insert rm rmo)
unfolding rm_insert
rm_insert-Inserts rm rmo v small =
    step (insert_loop rm.size rmo rm.childs 0)
      (insert_loop-Fits rm.size rmo rm.childs 0 small v.placed)
  where
    step :
        (o : Option (List Rmo))
        → Fits rmo 0 rm.size rm.childs o
        → Inserts rm rmo
            (elim o [ none ↦ none | some childs ↦ some (record rm { childs = childs }) ])
    step none f = f
    step (some childs) f = (f.0, record { placed = f.1 }, refl, refl)
