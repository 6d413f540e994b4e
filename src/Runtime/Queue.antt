-- ===== src/Runtime/Queue.antt =====
-- EventQueue of internal/runtime/queue.go, as one goroutine sees it: the atomic counters are fields,
-- and the channel `notEmpty` of capacity one is a flag. DequeueBlocking polls a clock and is left out.
pub mod Spec
pub mod Ring
pub mod Refine
pub mod Fifo
pub mod Drain
pub mod Tests
use code_rag.Common.{
  ℕ, zero, suc, ◌+◌, ◌%◌, ◌^◌, String, Bool, true, false, Option, none, some, List, [], ◌∷◌, ◌==◌,
  ltb, ℤ, pos, pos_part, str_eq, length, get_or, set, replicate, if◌then◌else◌,
}

pub record QueueConfig : Type 0 where
  pub capacity : ℤ
  pub drop_policy : String
  pub metrics_enabled : Bool

-- `timestamp` is in nanoseconds, and `raw_text` a list of bytes.
pub record ObservationEvent : Type 0 where
  pub id : String
  pub project_id : String
  pub session_id : String
  pub process_id : String
  pub source : String
  pub stream : String
  pub timestamp : ℤ
  pub raw_text : List ℕ
  pub metadata : List (String × String)

-- ObservationEvent{}
abbrev pub no_event : ObservationEvent
no_event = record {
  id = "";
  project_id = "";
  session_id = "";
  process_id = "";
  source = "";
  stream = "";
  timestamp = pos 0;
  raw_text = [];
  metadata = [];
}

pub record EventQueue : Type 0 where
  pub cfg : QueueConfig
  pub events : List ObservationEvent
  pub head : ℕ
  pub tail : ℕ
  pub count : ℕ
  pub dropped : ℕ
  pub not_empty : Bool
  pub closed : Bool

pub record QueueStats : Type 0 where
  pub count : ℕ
  pub capacity : ℕ
  pub dropped : ℕ
  pub is_closed : Bool

-- how many values an int64 has: the counters wrap around there
abbrev pub int64_values : ℕ
int64_values = 2 ^ 64

-- Add(1) and Add(-1)
unfoldable pub add_one : ℕ → ℕ
add_one n = (n + 1) % int64_values

unfoldable pub sub_one : ℕ → ℕ
sub_one n = (n + 18446744073709551615) % int64_values

-- (i + 1) % int64(len(q.events))
unfoldable pub next : ℕ → ℕ → ℕ
next size i = (i + 1) % size

unfoldable pub capacity_or_default : ℤ → ℕ
capacity_or_default capacity = if pos_part capacity == 0 then 10000 else pos_part capacity

unfoldable pub new_event_queue : QueueConfig → EventQueue
new_event_queue cfg =
    let capacity = capacity_or_default cfg.capacity in
    let policy = if str_eq cfg.drop_policy "" then "drop" else cfg.drop_policy in
    record {
      cfg = record cfg { capacity = pos capacity; drop_policy = policy };
      events = replicate capacity no_event;
      head = 0;
      tail = 0;
      count = 0;
      dropped = 0;
      not_empty = false;
      closed = false;
    }

unfoldable pub dequeue_one : EventQueue → Option ObservationEvent × EventQueue
dequeue_one q =
    let taken = record q {
      events = set q.events q.head no_event;
      head = next (length q.events) q.head;
      count = sub_one q.count;
    } in
    if q.head == q.tail then (none, q) else (some (get_or q.events q.head no_event), taken)

-- the end of Enqueue, at the tail that it read at its start
unfoldable pub put : ObservationEvent → ℕ → EventQueue → Bool × EventQueue
put event tail q = (
  true,
  record q {
    events = set q.events tail event;
    tail = next (length q.events) tail;
    count = add_one q.count;
    not_empty = true;
  },
)

-- q.dropped.Add(1)
abbrev pub count_dropped : EventQueue → EventQueue
count_dropped q = record q { dropped = add_one q.dropped }

-- the switch on a full queue; a policy with another name goes on to the write
unfoldable pub when_full : ObservationEvent → EventQueue → Bool × EventQueue
when_full event q =
    if str_eq q.cfg.drop_policy "block"
    then (false, q)
    else if str_eq q.cfg.drop_policy "drop"
    then (false, count_dropped q)
    else if str_eq q.cfg.drop_policy "oldest"
    then put event q.tail (dequeue_one (count_dropped q)).1
    else put event q.tail q

unfoldable pub enqueue : ObservationEvent → EventQueue → Bool × EventQueue
enqueue event q =
    if q.closed
    then (false, q)
    else if next (length q.events) q.tail == q.head
    then when_full event q
    else put event q.tail q

-- the loop of DequeueAll, for at most `fuel` rounds
unfoldable pub dequeue_loop : ℕ → EventQueue → List ObservationEvent × EventQueue
dequeue_loop zero q = ([], q)
dequeue_loop (suc fuel) q =
    let (event, q') = dequeue_one q in
    let (events, q'') = dequeue_loop fuel q' in
    elim event [ none ↦ ([], q') | some e ↦ (e ∷ events, q'') ]

unfoldable pub dequeue_all : EventQueue → List ObservationEvent × EventQueue
dequeue_all q =
    let (events, q') = dequeue_loop (length q.events) q in
    (events, if ltb 0 (length events) then record q' { not_empty = false } else q')

-- close(q.notEmpty) panics the second time
unfoldable pub close : EventQueue → Option EventQueue
close q = if q.closed then none else some (record q { closed = true })

unfoldable pub stats : EventQueue → QueueStats
stats q = record {
  count = q.count;
  capacity = length q.events;
  dropped = q.dropped;
  is_closed = q.closed;
}

unfoldable pub is_empty : EventQueue → Bool
is_empty q = q.count == 0
