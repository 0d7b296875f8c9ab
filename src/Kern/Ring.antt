-- ===== src/Kern/Ring.antt =====
-- system/kern/kern_ring.c and system/include/utils/list.h: rings of nodes that point to the next and
-- the previous one. The pointers are two functions of the node's address.
pub mod Insert
pub mod Ends
pub mod Pop
mod Tests
use rkernel.Base.{◌||◌, ◌&&◌, ◌==◌, not, if◌then◌else◌, Bool, ℕ}

pub record Links : Type 0 where
  pub next : ℕ → ℕ
  pub prev : ℕ → ℕ

abbrev pub write : (ℕ → ℕ) → ℕ → ℕ → ℕ → ℕ
write f p v q = if q == p then v else f q

-- `a->b->c` and `a<-b<-c`, the four writes in their order.
abbrev pub link_between : ℕ → ℕ → ℕ → Links → Links
link_between a b c s = record {
  next = write (write s.next a b) b c;
  prev = write (write s.prev c b) b a;
}

-- `a <-> c`
abbrev pub link : ℕ → ℕ → Links → Links
link a c s = record { next = write s.next a c; prev = write s.prev c a }

unfoldable pub linked_ring_insert : ℕ → ℕ → ℕ → Links → Links
linked_ring_insert list elem after s =
    if after == 0
    then link_between (s.prev list) elem list s
    else link_between list elem (s.next list) s

unfoldable pub linked_ring_remove : ℕ → Links → Links
linked_ring_remove elem s = link (s.prev elem) (s.next elem) s

unfoldable pub linked_ring_empty : ℕ → Links → Bool
linked_ring_empty list s = s.next list == list

unfoldable pub linked_ring_init : ℕ → Links → Links
linked_ring_init list s = record { next = write s.next list list; prev = write s.prev list list }

unfoldable pub list_init : ℕ → Links → Links
list_init lst s = record { next = write s.next lst lst; prev = write s.prev lst lst }

unfoldable pub list_clear : ℕ → Links → Links
list_clear lst s = record { next = write s.next lst 0; prev = write s.prev lst 0 }

unfoldable pub list_is_in_list : ℕ → Links → Bool
list_is_in_list node s = not (s.prev node == 0) && not (s.next node == 0)

unfoldable pub list_add_after : ℕ → ℕ → Links → Links
list_add_after a b s = link_between a b (s.next a) s

unfoldable pub list_add_before : ℕ → ℕ → Links → Links
list_add_before c b s = link_between (s.prev c) b c s

unfoldable pub list_item_remove : ℕ → Links → Links
list_item_remove elem s = link (s.prev elem) (s.next elem) s

unfoldable pub list_pop_tail : ℕ → Links → ℕ × Links
list_pop_tail list s =
    let ret = s.prev list in
    if ret == list || ret == 0 then (0, s) else (ret, list_item_remove ret s)

unfoldable pub list_pop_head : ℕ → Links → ℕ × Links
list_pop_head list s =
    let ret = s.next list in
    if ret == list || ret == 0 then (0, s) else (ret, list_item_remove ret s)
