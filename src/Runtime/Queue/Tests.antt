-- ===== src/Runtime/Queue/Tests.antt =====
-- Runs of the event queue.
use code_rag.Common.{String, true, false, none, List, [], ◌∷◌, ◌≡◌, refl, arith, pos, inr}
use code_rag.Runtime.Queue.{
  EventQueue, ObservationEvent, QueueConfig, no_event, new_event_queue, enqueue, dequeue_one,
  dequeue_all, dequeue_loop, put, when_full, next, add_one, capacity_or_default,
}
use code_rag.Runtime.Queue.Spec.{
  push, Command, send, receive_all, accepted, received, spec_run, spec_step,
}
use code_rag.Runtime.Queue.Ring.{steps}
use code_rag.Runtime.Queue.Refine.{IsQueue, contents}
use code_rag.Runtime.Queue.Fifo.{Serves, Matches, enqueue-Serves}
use code_rag.Runtime.Queue.Drain.{dequeue_all-IsQueue, run, run-refines}

abbrev oldest_config : QueueConfig
oldest_config = record { capacity = pos 3; drop_policy = "oldest"; metrics_enabled = false }

-- An empty queue with three places, of which two hold events.
abbrev three : EventQueue
three = record {
  cfg = oldest_config;
  events = no_event ∷ no_event ∷ no_event ∷ [];
  head = 0;
  tail = 0;
  count = 0;
  dropped = 0;
  not_empty = false;
  closed = false;
}

three_is_new : new_event_queue oldest_config ≡ three
unfolding new_event_queue capacity_or_default
three_is_new = refl

three-Serves : Serves 2 "oldest" three
unfolding steps
three-Serves = record {
  queue = record {
    head_lt = omega arith;
    count_lt = omega arith;
    tail_at = refl;
    size_lt = omega arith;
  };
  opened = refl;
  sized = refl;
  ruled = refl;
}

abbrev named : String → ObservationEvent
named id = record no_event { id = id }

enqueue-Serves_example :
    Serves 2 "oldest" (enqueue (named "a") three).1
    × Matches (enqueue (named "a") three) (push 2 "oldest" (named "a") (contents three))
enqueue-Serves_example =
    enqueue-Serves 2 "oldest" (named "a") three three-Serves (omega arith) (inr (inr refl))

abbrev two_waiting : EventQueue
two_waiting = (enqueue (named "b") (enqueue (named "a") three).1).1

two_waiting-IsQueue : IsQueue two_waiting
two_waiting-IsQueue =
    (enqueue-Serves 2 "oldest" (named "b") (enqueue (named "a") three).1 enqueue-Serves_example.0
      (omega arith) (inr (inr refl))).0.queue

dequeue_all-IsQueue_example :
    ((dequeue_all two_waiting).0 ≡ contents two_waiting)
    × IsQueue (dequeue_all two_waiting).1
    × (contents (dequeue_all two_waiting).1 ≡ [])
    × (dequeue_one (dequeue_all two_waiting).1 ≡ (none, (dequeue_all two_waiting).1))
dequeue_all-IsQueue_example = dequeue_all-IsQueue two_waiting two_waiting-IsQueue

abbrev commands : List (Command ObservationEvent)
commands =
    send (named "a")
    ∷ send (named "b")
    ∷ send (named "c")
    ∷ receive_all
    ∷ send (named "d")
    ∷ receive_all
    ∷ []

run-refines_example : run commands three ≡ spec_run 2 "oldest" commands (contents three)
run-refines_example =
    run-refines 2 "oldest" commands three (omega arith) (inr (inr refl)) three-Serves

-- The oldest of three events gave way.
oldest_goes :
    spec_run 2 "oldest" commands []
    ≡ accepted true
      ∷ accepted true
      ∷ accepted true
      ∷ received (named "b" ∷ named "c" ∷ [])
      ∷ accepted true
      ∷ received (named "d" ∷ [])
      ∷ []
unfolding spec_run spec_step push
oldest_goes = refl

-- With one place the event is written, counted, and never found.
one_place_loses :
    let q : EventQueue = new_event_queue (record oldest_config { capacity = pos 1 }) in
    ((enqueue (named "a") q).0 ≡ true)
    × ((enqueue (named "a") q).1.count ≡ 1)
    × ((dequeue_all (enqueue (named "a") q).1).0 ≡ [])
unfolding new_event_queue capacity_or_default enqueue when_full put next add_one dequeue_all
    dequeue_loop dequeue_one
one_place_loses = (refl, refl, refl)
