-- ===== src/Runtime/Queue/Refine.antt =====
-- The ring buffer implements the bounded list.
use code_rag.Common.{
  ℕ, suc, ◌+◌, ◌≤◌, ◌<◌, true, false, none, some, List, [], ◌∷◌, ◌++◌, ◌≡◌, ◌≢◌, refl, sym, inl,
  inr, arith, ap, length, set, get_or, get_or-set_self, length-set, Bool-cases, ◌==◌, ==_iff,
}
use code_rag.Runtime.Queue.{
  EventQueue, ObservationEvent, no_event, next, add_one, sub_one, int64_values, dequeue_one, put,
}
use code_rag.Runtime.Queue.Ring.{
  steps, window, next_lt, steps_cases, steps-suc, window-snoc, window-set, tail_outside,
  head_outside,
}

abbrev pub size : EventQueue → ℕ
size q = length q.events

-- The positions are inside the ring, and the tail is `count` steps after the head.
pub record IsQueue (q : EventQueue) : Type 0 where
  pub head_lt : q.head < size q
  pub count_lt : q.count < size q
  pub tail_at : q.tail ≡ steps (size q) q.head q.count
  pub size_lt : size q < int64_values

-- The events that wait, oldest first.
unfoldable pub contents : EventQueue → List ObservationEvent
contents q = window (size q) q.events q.head q.count

tail_lt : (q : EventQueue) → IsQueue q → q.tail < size q
tail_lt q v = elim (steps_cases (size q) q.head q.count v.head_lt (ground (arith, v.count_lt))) [
  | inl s ↦ ground (arith, v.tail_at)
  | inr s ↦ ground (arith, v.tail_at, v.head_lt, v.count_lt)
]

after_tail :
    (q : EventQueue) → IsQueue q → next (size q) q.tail ≡ steps (size q) q.head (suc q.count)
after_tail q v = ground (arith, v.tail_at, steps-suc (size q) q.head q.count)

-- The next tail meets the head exactly when one place is left.
pub full_iff :
    (q : EventQueue)
    → IsQueue q
    → ((next (size q) q.tail == q.head) ≡ true → q.count + 1 ≡ size q)
      × ((next (size q) q.tail == q.head) ≡ false → q.count + 1 < size q)
full_iff q v =
    let bound : suc q.count ≤ size q = ground (arith, v.count_lt) in
    let meets = ==_iff (next (size q) q.tail) q.head in
    elim (steps_cases (size q) q.head (suc q.count) v.head_lt bound) [
      | inl s ↦ ground (arith, after_tail q v, meets)
      | inr s ↦ ground (arith, after_tail q v, meets)
    ]

empty_iff :
    (q : EventQueue)
    → IsQueue q
    → ((q.head == q.tail) ≡ true → q.count ≡ 0) × ((q.head == q.tail) ≡ false → q.count ≢ 0)
unfolding steps
empty_iff q v =
    let bound : q.count ≤ size q = ground (arith, v.count_lt) in
    let meets = ==_iff q.head q.tail in
    elim (steps_cases (size q) q.head q.count v.head_lt bound) [
      | inl s ↦ ground (arith, v.tail_at, v.count_lt, meets)
      | inr s ↦ ground (arith, v.tail_at, v.count_lt, meets)
    ]

add_one_eq : (n : ℕ) → suc n < int64_values → add_one n ≡ suc n
unfolding add_one
add_one_eq n l = omega arith

sub_one_eq : (n : ℕ) → suc n < int64_values → sub_one (suc n) ≡ n
unfolding sub_one
sub_one_eq n l = omega arith

-- A write at the tail appends.
pub put-IsQueue :
    (e : ObservationEvent) (q : EventQueue)
    → IsQueue q
    → q.count + 1 < size q
    → IsQueue (put e q.tail q).1 × (contents (put e q.tail q).1 ≡ contents q ++ e ∷ [])
unfolding put contents
put-IsQueue e q v room = (
  record {
    head_lt = rw same_size v.head_lt;
    count_lt = rw (same_size, counted) (omega (arith, room));
    tail_at = rw (same_size, counted) (after_tail q v);
    size_lt = rw same_size v.size_lt;
  },
  rw (same_size, counted) grown,
)
  where
    same_size : length (set q.events q.tail e) ≡ size q
    same_size = length-set q.events q.tail e

    counted : add_one q.count ≡ suc q.count
    counted = add_one_eq q.count (ground (arith, v.size_lt))

    old :
        window (size q) (set q.events q.tail e) q.head q.count
        ≡ window (size q) q.events q.head q.count
    old =
        window-set (size q) q.events q.tail e q.head q.count
          (λ i c. rw v.tail_at (tail_outside (size q) q.head q.count v.head_lt v.count_lt i c))

    new : get_or (set q.events q.tail e) (steps (size q) q.head q.count) no_event ≡ e
    new = rw (← v.tail_at) (get_or-set_self q.events q.tail e no_event (tail_lt q v))

    grown :
        window (size q) (set q.events q.tail e) q.head (suc q.count)
        ≡ window (size q) q.events q.head q.count ++ e ∷ []
    grown = rw (window-snoc (size q) (set q.events q.tail e) q.head q.count, old, new)

-- The event at the head is the oldest.
pub dequeue_one-eq-some :
    (q : EventQueue) (k : ℕ)
    → IsQueue q
    → q.count ≡ suc k
    → (e : ObservationEvent) × (q' : EventQueue) × (dequeue_one q ≡ (some e, q'))
      × IsQueue q'
      × (contents q ≡ e ∷ contents q')
      × (q'.count ≡ k)
      × (size q' ≡ size q)
      × (q'.closed ≡ q.closed)
      × (q'.tail ≡ q.tail)
      × (q'.cfg ≡ q.cfg)
unfolding dequeue_one contents steps window
dequeue_one-eq-some q k v c = (
  get_or q.events q.head no_event,
  q',
  rw occupied,
  record {
    head_lt = rw same_size (next_lt (size q) q.head v.head_lt);
    count_lt = rw (same_size, counted) (ground (arith, v.count_lt));
    tail_at = rw (same_size, counted) (rw c at v.tail_at);
    size_lt = rw same_size v.size_lt;
  },
  rw (same_size, counted, c) (ap (◌∷◌ (get_or q.events q.head no_event)) (sym cleared)),
  counted,
  same_size,
  refl,
  refl,
  refl,
)
  where
    q' : EventQueue
    q' = record q {
      events = set q.events q.head no_event;
      head = next (size q) q.head;
      count = sub_one q.count;
    }

    same_size : length (set q.events q.head no_event) ≡ size q
    same_size = length-set q.events q.head no_event

    counted : sub_one q.count ≡ k
    counted = rw c (sub_one_eq k (ground (arith, v.count_lt, v.size_lt)))

    occupied : (q.head == q.tail) ≡ false
    occupied = elim (Bool-cases (q.head == q.tail)) [
      | inl e ↦ absurd (ground (arith, (empty_iff q v).0 e))
      | inr e ↦ e
    ]

    cleared :
        window (size q) (set q.events q.head no_event) (next (size q) q.head) k
        ≡ window (size q) q.events (next (size q) q.head) k
    cleared =
        window-set (size q) q.events q.head no_event (next (size q) q.head) k
          (head_outside (size q) q.head k v.head_lt (ground (arith, v.count_lt)))

pub dequeue_one-eq-none : (q : EventQueue) → IsQueue q → q.count ≡ 0 → dequeue_one q ≡ (none, q)
unfolding dequeue_one steps
dequeue_one-eq-none q v c =
    let together : q.tail ≡ q.head = rw c at v.tail_at in
    rw ((==_iff q.head q.tail).1 (sym together)) refl
