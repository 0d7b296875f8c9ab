-- ===== src/Kern/Stacks/Free.antt =====
-- system/kern/kern_stacks.c: the free stacks as a list.
use rkernel.Base.{subst, ◌∙◌, sym, eq→==, ne→==, [], ◌≢◌, ◌≡◌, ◌∷◌, ℕ, List, Bool, refl, All}
use rkernel.Kern.Stacks.{kernel_stack_allocate, kernel_stack_release, set_field, Stacks}

abbrev pub IsList : (ℕ → ℕ) → ℕ → List ℕ → Type 0
IsList tail p [] = p ≡ 0
IsList tail p (k ∷ ks) = (p ≡ k) × ((k ≢ 0) × IsList tail (tail k) ks)

-- The free stacks, in the order in which they are taken.
abbrev pub AreFree : Stacks → List ℕ → Type 0
AreFree s ks = IsList s.st_tail s.stacks ks

IsList-set :
    (tail : ℕ → ℕ) (k v p : ℕ) (ks : List ℕ)
    → All (λ (x : ℕ). x ≢ k) ks
    → IsList tail p ks
    → IsList (set_field tail k v) p ks
IsList-set tail k v p [] apart list = list
IsList-set tail k v p (x ∷ xs) (ne, apart) (e, (nonzero, rest)) =
    (e, (nonzero, rw (ne→== x k ne) (IsList-set tail k v (tail x) xs apart rest)))

kernel_stack_release-pushes :
    (k : ℕ) (s : Stacks)
    → k ≢ 0
    → kernel_stack_release k s ≡ (record s { st_tail = set_field s.st_tail k s.stacks; stacks = k })
unfolding kernel_stack_release
kernel_stack_release-pushes k s nonzero = rw (ne→== k 0 nonzero) refl

-- A stack that is not free becomes the first free one.
pub kernel_stack_release-AreFree :
    (k : ℕ) (s : Stacks) (ks : List ℕ)
    → k ≢ 0
    → All (λ (x : ℕ). x ≢ k) ks
    → AreFree s ks
    → AreFree (kernel_stack_release k s) (k ∷ ks)
kernel_stack_release-AreFree k s ks nonzero apart free =
    subst (λ (t : Stacks). AreFree t (k ∷ ks)) (sym (kernel_stack_release-pushes k s nonzero))
      (
        refl,
        (nonzero, rw (eq→== k k refl) (IsList-set s.st_tail k s.stacks s.stacks ks apart free)),
      )

-- The first free stack is taken, if there is one.
pub kernel_stack_allocate-AreFree :
    (down : Bool) (k : ℕ) (s : Stacks) (ks : List ℕ)
    → AreFree s (k ∷ ks)
    → ((kernel_stack_allocate down s).0 ≡ k) × AreFree (kernel_stack_allocate down s).1 ks
unfolding kernel_stack_allocate
kernel_stack_allocate-AreFree down k s ks (e, (nonzero, rest)) =
    rw (ne→== s.stacks 0 (λ z. nonzero (sym e ∙ z)))
      (e, subst (λ (p : ℕ). IsList s.st_tail (s.st_tail p) ks) (sym e) rest)
