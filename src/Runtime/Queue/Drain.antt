-- ===== src/Runtime/Queue/Drain.antt =====
-- DequeueAll drains the queue, and any sequence of commands gives the outputs of the bounded list.
use code_rag.Common.{
  ℕ, zero, suc, ◌≤◌, ◌<◌, String, none, List, [], ◌∷◌, ◌≡◌, refl, sym, ◌∙◌, ◌⊎◌, inl, inr, arith,
  ap, length, Bool-cases, ltb,
}
use code_rag.Runtime.Queue.{
  EventQueue, ObservationEvent, dequeue_one, enqueue, dequeue_loop, dequeue_all,
}
use code_rag.Runtime.Queue.Spec.{
  Command, send, receive_all, Output, accepted, received, spec_step, spec_run,
}
use code_rag.Runtime.Queue.Ring.{window}
use code_rag.Runtime.Queue.Refine.{
  size, IsQueue, contents, dequeue_one-eq-some, dequeue_one-eq-none,
}
use code_rag.Runtime.Queue.Fifo.{IsPolicy, Serves, enqueue-Serves}

zero_or_suc : (n : ℕ) → (n ≡ 0) ⊎ ((k : ℕ) × (n ≡ suc k))
zero_or_suc zero = inl refl
zero_or_suc (suc k) = inr (k, refl)

no_contents : (q : EventQueue) → q.count ≡ 0 → contents q ≡ []
unfolding contents window
no_contents q none_left = rw none_left refl

dequeue_loop-IsQueue :
    (fuel : ℕ) (q : EventQueue)
    → IsQueue q
    → q.count < fuel
    → ((dequeue_loop fuel q).0 ≡ contents q)
      × IsQueue (dequeue_loop fuel q).1
      × ((dequeue_loop fuel q).1.count ≡ 0)
      × (size (dequeue_loop fuel q).1 ≡ size q)
      × ((dequeue_loop fuel q).1.closed ≡ q.closed)
      × ((dequeue_loop fuel q).1.cfg ≡ q.cfg)
unfolding dequeue_loop
dequeue_loop-IsQueue zero q v l = absurd (omega (arith, l))
dequeue_loop-IsQueue (suc fuel) q v l = elim (zero_or_suc q.count) [
  | inl none_left ↦
      let nothing = dequeue_one-eq-none q v none_left in
      rw (dequeue_loop, nothing, nothing)
        (sym (no_contents q none_left), v, none_left, refl, refl, refl)
  | inr (k, some_left) ↦
      let (e, q', out, queue, split, counted, sized, closed, tail, cfg) =
        dequeue_one-eq-some q k v some_left in
      let (rest, queue', drained, sized', closed', cfg') =
        dequeue_loop-IsQueue fuel q' queue (omega (arith, l, some_left, counted)) in
      rw (dequeue_loop, out, out, split)
        (ap (◌∷◌ e) rest, queue', drained, sized' ∙ sized, closed' ∙ closed, cfg' ∙ cfg)
]

dequeue_all-drained :
    (q : EventQueue)
    → IsQueue q
    → ((dequeue_all q).0 ≡ contents q)
      × IsQueue (dequeue_all q).1
      × ((dequeue_all q).1.count ≡ 0)
      × (size (dequeue_all q).1 ≡ size q)
      × ((dequeue_all q).1.closed ≡ q.closed)
      × ((dequeue_all q).1.cfg ≡ q.cfg)
unfolding dequeue_all
dequeue_all-drained q v =
    let (all, queue, drained, sized, closed, cfg) = dequeue_loop-IsQueue (size q) q v v.count_lt in
    elim (Bool-cases (ltb 0 (length (dequeue_loop (size q) q).0))) [
      | inl got ↦ rw got (
        all,
        record {
          head_lt = queue.head_lt;
          count_lt = queue.count_lt;
          tail_at = queue.tail_at;
          size_lt = queue.size_lt;
        },
        drained,
        sized,
        closed,
        cfg,
      )
      | inr nothing ↦ rw nothing (all, queue, drained, sized, closed, cfg)
    ]

-- DequeueAll on a well-formed queue returns the waiting events, oldest first, and leaves a
-- well-formed queue from which nothing can be taken: its loop ends within as many rounds as the ring
-- has places.
pub dequeue_all-IsQueue :
    (q : EventQueue)
    → IsQueue q
    → ((dequeue_all q).0 ≡ contents q)
      × IsQueue (dequeue_all q).1
      × (contents (dequeue_all q).1 ≡ [])
      × (dequeue_one (dequeue_all q).1 ≡ (none, (dequeue_all q).1))
dequeue_all-IsQueue q v =
    let (all, queue, drained, _, _, _) = dequeue_all-drained q v in
    (all, queue, no_contents _ drained, dequeue_one-eq-none _ queue drained)

-- A command on the ring buffer.
unfoldable pub step : Command ObservationEvent → EventQueue → Output ObservationEvent × EventQueue
step (send e) q = let (b, q') = enqueue e q in (accepted b, q')
step receive_all q = let (events, q') = dequeue_all q in (received events, q')

unfoldable pub run : List (Command ObservationEvent) → EventQueue → List (Output ObservationEvent)
run [] q = []
run (c ∷ cs) q = let (o, q') = step c q in o ∷ run cs q'

step-Serves :
    (room : ℕ) (policy : String) (c : Command ObservationEvent) (q : EventQueue)
    → 1 ≤ room
    → IsPolicy policy
    → Serves room policy q
    → Serves room policy (step c q).1
      × ((step c q).0 ≡ (spec_step room policy c (contents q)).0)
      × (contents (step c q).1 ≡ (spec_step room policy c (contents q)).1)
unfolding step spec_step
step-Serves room policy (send e) q some_room known v =
    let (served, (same, kept)) = enqueue-Serves room policy e q v some_room known in
    (served, ap accepted same, kept)
step-Serves room policy receive_all q some_room known v =
    let (all, queue, drained, sized, closed, cfg) = dequeue_all-drained q v.queue in
    (
      record {
        queue = queue;
        opened = closed ∙ v.opened;
        sized = sized ∙ v.sized;
        ruled = ap (λ c. c.drop_policy) cfg ∙ v.ruled;
      },
      ap received all,
      no_contents _ drained,
    )

-- Any sequence of Enqueue and DequeueAll on an open queue gives the outputs of the bounded first-in
-- first-out list of `capacity - 1` events with the same policy, for a capacity of at least two and
-- each of the three policies.
pub run-refines :
    (room : ℕ) (policy : String) (cs : List (Command ObservationEvent)) (q : EventQueue)
    → 1 ≤ room
    → IsPolicy policy
    → Serves room policy q
    → run cs q ≡ spec_run room policy cs (contents q)
unfolding run spec_run
run-refines room policy [] q some_room known v = refl
run-refines room policy (c ∷ cs) q some_room known v =
    let (served, same, kept) = step-Serves room policy c q some_room known v in
    rw (same, ← kept)
      (ap (◌∷◌ (spec_step room policy c (contents q)).0)
        (run-refines room policy cs (step c q).1 some_room known served))
