-- ===== src/Moderation/Queue/Order.antt =====
-- The order of the queue.
use mathlib.Core.Path.{subst}
use reasonbridge.Prelude.{
  ap, ◌⊎◌, ℕ, suc, ◌+◌, ◌≤◌, ◌≡◌, refl, sym, Bool, true, false, Option, List, [], ◌∷◌, arith, count,
  take, All, All-imp, Bool-cases, inl, inr, if◌then◌else◌,
}
use reasonbridge.Moderation.Queue.{
  ItemType, Priority, QueueItem, Pending, priority_order, parse_duration, compare_items,
  insert_item, sort_queue_items, queue_items, get_queue,
}

abbrev pub Before : QueueItem → QueueItem → Type 0
Before x y = compare_items x y ≡ true

abbrev pub IsOrdered : List QueueItem → Type 0
IsOrdered [] = Unit
IsOrdered (x ∷ xs) = All (Before x) xs × IsOrdered xs

Before-total : (x y : QueueItem) → compare_items x y ≡ false → Before y x
unfolding compare_items
Before-total x y h = ground arith

Before-trans : (x y z : QueueItem) → Before x y → Before y z → Before x z
unfolding compare_items
Before-trans x y z h k = ground arith

insert-All :
    (P : QueueItem → Type 0) (x : QueueItem) (ys : List QueueItem)
    → P x
    → All P ys
    → All P (insert_item x ys)
insert-All P x [] p h = (p, tt)
insert-All P x (y ∷ ys) p (q, h) = elim (Bool-cases (compare_items x y)) [
  | inl t ↦ rw t (p, (q, h))
  | inr t ↦ rw t (q, insert-All P x ys p h)
]

insert-IsOrdered :
    (x : QueueItem) (ys : List QueueItem) → IsOrdered ys → IsOrdered (insert_item x ys)
insert-IsOrdered x [] h = (tt, tt)
insert-IsOrdered x (y ∷ ys) (l, h) = elim (Bool-cases (compare_items x y)) [
  | inl t ↦ rw t ((t, All-imp ys (λ z k. Before-trans x y z t k) l), (l, h))
  | inr t ↦ rw t (insert-All (Before y) x ys (Before-total x y t) l, insert-IsOrdered x ys h)
]

count-insert :
    (p : QueueItem → Bool) (x : QueueItem) (ys : List QueueItem)
    → count p (insert_item x ys) ≡ (if p x then 1 else 0) + count p ys
count-insert p x [] = refl
count-insert p x (y ∷ ys) = elim (Bool-cases (compare_items x y)) [
  | inl t ↦ rw t refl
  | inr t ↦ rw t (omega (arith, count-insert p x ys))
]

-- The queue is sorted by priority, and by the wait time within a priority, the shortest first; it has
-- the same items as before, each as often.
pub sort_queue_items-IsOrdered :
    (xs : List QueueItem)
    → IsOrdered (sort_queue_items xs)
      × ((p : QueueItem → Bool) → count p (sort_queue_items xs) ≡ count p xs)
unfolding sort_queue_items
sort_queue_items-IsOrdered [] = (tt, λ p. refl)
sort_queue_items-IsOrdered (x ∷ xs) =
    let (ordered, counts) = sort_queue_items-IsOrdered xs in
    (
      insert-IsOrdered x (sort_queue_items xs) ordered,
      λ p. omega (arith, count-insert p x (sort_queue_items xs), counts p),
    )

from_insert :
    (P : QueueItem → Type 0) (x : QueueItem) (ys : List QueueItem)
    → All P (insert_item x ys)
    → P x × All P ys
from_insert P x [] (p, _) = (p, tt)
from_insert P x (y ∷ ys) h = elim (Bool-cases (compare_items x y)) [
  | inl t ↦ rw t at h
  | inr t ↦ let (q, k) = rw t at h in let (p, l) = from_insert P x ys k in (p, (q, l))
]

from_sort : (P : QueueItem → Type 0) (xs : List QueueItem) → All P (sort_queue_items xs) → All P xs
unfolding sort_queue_items
from_sort P [] h = tt
from_sort P (x ∷ xs) h =
    let (p, k) = from_insert P x (sort_queue_items xs) h in (p, from_sort P xs k)

List-cases :
    (xs : List QueueItem) → (xs ≡ []) ⊎ ((y : QueueItem) × (ys : List QueueItem) × (xs ≡ y ∷ ys))
List-cases [] = inl refl
List-cases (y ∷ ys) = inr (y, ys, refl)

-- Nothing goes before the item: no higher priority, nor a shorter wait within its priority.
abbrev pub Precedes : QueueItem → QueueItem → Type 0
Precedes x y =
    (priority_order x.priority ≤ priority_order y.priority)
    × (x.priority ≡ y.priority → parse_duration x.wait_time ≤ parse_duration y.wait_time)

Before-Precedes : (x y : QueueItem) → Before x y → Precedes x y
unfolding compare_items
Before-Precedes x y h = (
  ground arith,
  λ e.
      let same : priority_order x.priority ≡ priority_order y.priority =
        ap (λ (q : Priority). priority_order q) e in
      ground arith,
)

head-Precedes :
    (x : QueueItem) (xs ys : List QueueItem) → sort_queue_items xs ≡ x ∷ ys → All (Precedes x) xs
head-Precedes x xs ys e =
    let (ordered, _) = sort_queue_items-IsOrdered xs in
    let (first, _) = subst IsOrdered e ordered in
    from_sort (Precedes x) xs (
      subst (All (Precedes x)) (sym e)
        ((omega arith, λ _. omega arith), All-imp ys (λ y. Before-Precedes x y) first))

-- The first item that a moderator is shown is, of all fetched items of its priority, one that has
-- waited least, and no fetched item has a higher priority.
pub first_waits_least :
    (type : Option ItemType) (priority : Option Priority) (size now : ℕ) (p : Pending)
    (x : QueueItem) (rest : List QueueItem)
    → (get_queue type priority (suc size) now p).items ≡ x ∷ rest
    → All (Precedes x) (queue_items type now p)
unfolding get_queue
first_waits_least type priority size now p x rest h =
    elim (List-cases (sort_queue_items (queue_items type now p))) [
      | inl e ↦ absurd (let clash : [] ≡ x ∷ rest = rw e at h in ground arith)
      | inr (y, ys, e) ↦
          let shown : y ∷ take size ys ≡ x ∷ rest = rw e at h in
          let same : y ≡ x = ground arith in
          head-Precedes x (queue_items type now p) ys (rw (← same) e)
    ]
