-- ===== src/Vm/Kmem/Grow.antt =====
-- What growing the kernel's memory takes from the physical allocator, and what it hands out.
use rkernel.Base.{
  false, ◌∙◌, leb, eq→==, true, if◌then◌else◌, subst, Option-cases, inr, inl, ◌==◌, none, some,
  Bool-cases, zero, refl, append_assoc, ◌^◌, arith, ◌<◌, append-nil, ◌*◌, sym, suc, set, length,
  ◌+◌, ◌++◌, [], ◌≤◌, ◌≡◌, ◌∷◌, map, ℕ, List,
}
use rkernel.Vm.Region.{Rmo, RmoType, undefined, dataspace, region_mapper, vadd}
use rkernel.Vm.Pager.{Dataspace, Enter, page_size}
use rkernel.Physmem.Alloc.{Bmaset, vm_phys_alloc}
use rkernel.Physmem.Alloc.Free.{free_pages, IsValid}
use rkernel.Physmem.Alloc.Take.{Allocates, vm_phys_alloc-Allocates}
use rkernel.Vm.Kmem.{
  KernelVm, prot_kmem, first_empty, Growing, put_page, grow_loop, set_space, Grown, grow_from,
  grow_first, grow_childs, grow_critical, pages_for, vm_kalloc_ll,
}

-- The pages of physical memory that a list of calls of `pd_enter` maps.
abbrev pub frames : List Enter → List ℕ
frames = map (λ (e : Enter). e.pa)

-- The calls that map these pages, one after the other from an address on.
unfoldable pub calls : ℕ → List ℕ → List Enter
calls va [] = []
calls va (page ∷ pages) =
    record { va = va; pa = page; prot = prot_kmem } ∷ calls (vadd va page_size) pages

-- A list with the elements of another one written over it from an index on.
unfoldable pub write_from : ℕ → List ℕ → List ℕ → List ℕ
write_from i [] xs = xs
write_from i (y ∷ ys) xs = write_from (i + 1) ys (set xs i y)

-- What the loop has done: it took the pages `taken` from the head of the free ones, wrote them into
-- the dataspace from `i` on and entered them from `va` on.
pub record Took (n i va : ℕ) (g : Growing) (out : Growing) (taken : List ℕ) : Type 0 where
  pub valid : IsValid out.bmas
  pub free : free_pages g.bmas ≡ taken ++ free_pages out.bmas
  pub pages : out.ds.pages ≡ write_from i taken g.ds.pages
  pub n_pages : out.ds.n_pages ≡ g.ds.n_pages
  pub entered : out.entered ≡ g.entered ++ calls va taken
  pub sr : out.sr ≡ g.sr + length taken * page_size
  pub count : length taken ≤ n
  pub room : i + length taken ≤ g.ds.n_pages

put-Took :
    (n i va page : ℕ) (g : Growing) (bmas : Bmaset) (out : Growing) (taken : List ℕ)
    → free_pages g.bmas ≡ page ∷ free_pages bmas
    → g.sr + suc n * page_size < 2 ^ 32
    → Took n (i + 1) (vadd va page_size) (put_page i va page bmas g) out taken
    → Took (suc n) i va g out (page ∷ taken)
unfolding put_page write_from calls
put-Took n i va page g bmas out taken e small t = record {
  valid = t.valid;
  free = rw (e, t.free);
  pages = t.pages;
  n_pages = t.n_pages;
  entered = rw (t.entered) (append_assoc g.entered _ _);
  sr = omega (arith, t.sr);
  count = omega (arith, t.count);
  room = omega (arith, t.room);
}

nothing-Took : (n i va : ℕ) (g : Growing) → IsValid g.bmas → i ≤ g.ds.n_pages → Took n i va g g []
unfolding write_from calls
nothing-Took n i va g v room = record {
  valid = v;
  free = refl;
  pages = refl;
  n_pages = refl;
  entered = sym (append-nil g.entered);
  sr = omega arith;
  count = omega arith;
  room = omega arith;
}

pub grow_loop-Took :
    (n i va : ℕ) (g : Growing)
    → IsValid g.bmas
    → i ≤ g.ds.n_pages
    → g.sr + n * page_size < 2 ^ 32
    → (taken : List ℕ) × Took n i va g (grow_loop n i va g) taken
unfolding grow_loop
grow_loop-Took zero i va g v room small = ([], nothing-Took zero i va g v room)
grow_loop-Took (suc n) i va g v room small = elim (Bool-cases (i == g.ds.n_pages)) [
  | inl full ↦ rw (full, grow_loop) ([], nothing-Took (suc n) i va g v room)
  | inr more ↦ elim (Option-cases (vm_phys_alloc g.bmas)) [
    | inl e ↦ rw (more, e, grow_loop) ([], nothing-Took (suc n) i va g v room)
    | inr ((page, bmas), e) ↦
        let a : Allocates g.bmas (some (page, bmas)) =
          subst (Allocates g.bmas) e (vm_phys_alloc-Allocates g.bmas v) in
        let rest =
          grow_loop-Took n (i + 1) (vadd va page_size) (put_page i va page bmas g)
            (unfold put_page in a.2) (unfold put_page in ground (arith, more, room))
            (unfold put_page in omega arith) in
        rw (more, e, grow_loop)
          (page ∷ rest.0, put-Took n i va page g bmas _ rest.0 a.0 small rest.1)
  ]
]

pub pages_for-small : (size : ℕ) → pages_for size * page_size < 2 ^ 32
pages_for-small size = omega arith

-- What an allocation of kernel memory promises: the pages `taken` come off the head of the free
-- ones, as many as the size handed back tells, at least one and no more than were asked for, and
-- they are entered one after the other from the address handed back on. Where it fails, no page was
-- taken and nothing entered.
abbrev pub Grows : KernelVm → ℕ → Grown → List ℕ → Type 0
Grows k n (none, k') taken =
    (taken ≡ [])
    × (free_pages k'.bmas ≡ free_pages k.bmas)
    × (k'.entered ≡ k.entered)
    × IsValid k'.bmas
Grows k n (some (addr, size), k') taken =
    (free_pages k.bmas ≡ taken ++ free_pages k'.bmas)
    × (k'.entered ≡ k.entered ++ calls addr taken)
    × (size ≡ length taken * page_size)
    × (0 < length taken)
    × (length taken ≤ n)
    × IsValid k'.bmas

-- The memory of the kernel with what the loop changed.
abbrev pub grown : KernelVm → Rmo → ℕ → Growing → Grown
grown k rmo va g = (
  if g.sr == 0 then none else some (va, g.sr),
  record k { space = set_space k.space rmo.object g.ds; bmas = g.bmas; entered = g.entered },
)

abbrev pub growing : KernelVm → Rmo → Growing
growing k rmo = record { ds = k.space rmo.object; bmas = k.bmas; entered = k.entered; sr = 0 }

grown-Grows :
    (k : KernelVm) (rmo : Rmo) (n i va : ℕ) (g : Growing) (taken : List ℕ)
    → Took n i va (growing k rmo) g taken
    → Grows k n (grown k rmo va g) taken
unfolding calls
grown-Grows k rmo n i va g [] t =
    let e : (g.sr == 0) ≡ true = eq→== g.sr 0 (omega (arith, t.sr)) in
    rw e (refl, sym t.free, t.entered ∙ append-nil k.entered, t.valid)
grown-Grows k rmo n i va g (page ∷ taken) t =
    let e : (g.sr == 0) ≡ false = ground (arith, t.sr) in
    rw e (t.free, t.entered, omega (arith, t.sr), omega arith, t.count, t.valid)

grow_from-Grows :
    (k : KernelVm) (rmo : Rmo) (n i : ℕ)
    → IsValid k.bmas
    → i ≤ (k.space rmo.object).n_pages
    → n * page_size < 2 ^ 32
    → (taken : List ℕ) × Grows k n (grow_from k rmo n i) taken
unfolding grow_from
grow_from-Grows k rmo n i v room small =
    let va = vadd (vadd k.pd_begin rmo.offset) (i * page_size) in
    let t = grow_loop-Took n i va (growing k rmo) v room (omega arith) in
    (t.0, grown-Grows k rmo n i va (grow_loop n i va (growing k rmo)) t.0 t.1)

-- What an early return leaves.
unchanged : (k : KernelVm) (n : ℕ) → IsValid k.bmas → (taken : List ℕ) × Grows k n (none, k) taken
unchanged k n v = ([], (refl, refl, refl, v))

grow_first-Grows :
    (k : KernelVm) (n : ℕ) (rmo : Rmo)
    → IsValid k.bmas
    → n * page_size < 2 ^ 32
    → (taken : List ℕ) × Grows k n (grow_first k n rmo) taken
unfolding grow_first
grow_first-Grows k n rmo v small = split (rmo.kind)
  where
    ds : Dataspace
    ds = k.space rmo.object

    i : ℕ
    i = first_empty ds.n_pages 0 ds.pages

    split :
        (kind : RmoType)
        → (taken : List ℕ) × Grows k n
            (elim kind as (λ x. Grown) [
              | undefined ↦ (none, k)
              | dataspace ↦ if leb ds.n_pages i then (none, k) else grow_from k rmo n i
              | region_mapper ↦ (none, k)
            ])
            taken
    split undefined = unchanged k n v
    split region_mapper = unchanged k n v
    split dataspace = elim (Bool-cases (leb ds.n_pages i)) [
      | inl full ↦ rw full (unchanged k n v)
      | inr room ↦ rw room (grow_from-Grows k rmo n i v (ground (arith, room)) small)
    ]

grow_childs-Grows :
    (k : KernelVm) (n : ℕ) (childs : List Rmo)
    → IsValid k.bmas
    → n * page_size < 2 ^ 32
    → (taken : List ℕ) × Grows k n (grow_childs k n childs) taken
unfolding grow_childs
grow_childs-Grows k n [] v small = unchanged k n v
grow_childs-Grows k n (rmo ∷ rest) v small = grow_first-Grows k n rmo v small

-- Over a valid physical allocator, `vm_kalloc_ll` hands out an address and a size whose pages come
-- off the head of the free ones and are entered one after the other from that address on: as many
-- as the size tells, at least one and no more than the size asked for takes. Where it fails it has
-- taken no page and entered none.
pub vm_kalloc_ll-Grows :
    (k : KernelVm) (size : ℕ)
    → IsValid k.bmas
    → (taken : List ℕ) × Grows k (pages_for size) (vm_kalloc_ll k size) taken
unfolding vm_kalloc_ll grow_critical
vm_kalloc_ll-Grows k size v =
    grow_childs-Grows k (pages_for size) k.rm.childs v (pages_for-small size)
