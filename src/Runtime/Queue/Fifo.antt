-- ===== src/Runtime/Queue/Fifo.antt =====
-- Enqueue on an open queue is the append of the bounded first-in first-out list, with its policy.
use code_rag.Common.{
  ℕ, suc, ◌-◌, ◌≤◌, ◌<◌, String, Bool, true, false, List, [], ◌∷◌, ◌++◌, ◌≡◌, refl, sym, ◌∙◌, ◌⊎◌,
  inl, inr, arith, ap, length, Bool-cases, ◌==◌, str_eq, str_eq_iff, if◌then◌else◌, drop, subst,
  length-set,
}
use code_rag.Runtime.Queue.{
  EventQueue, ObservationEvent, next, dequeue_one, put, count_dropped, when_full, enqueue,
}
use code_rag.Runtime.Queue.Spec.{push}
use code_rag.Runtime.Queue.Ring.{length-window}
use code_rag.Runtime.Queue.Refine.{
  size, IsQueue, contents, full_iff, put-IsQueue, dequeue_one-eq-some,
}

abbrev pub IsPolicy : String → Type 0
IsPolicy p = (p ≡ "block") ⊎ (p ≡ "drop") ⊎ (p ≡ "oldest")

-- An open queue that holds up to `room` events.
pub record Serves (room : ℕ) (policy : String) (q : EventQueue) : Type 0 where
  pub queue : IsQueue q
  pub opened : q.closed ≡ false
  pub sized : size q ≡ suc room
  pub ruled : q.cfg.drop_policy ≡ policy

-- A result of the code matches one of the list.
abbrev pub Matches : Bool × EventQueue → Bool × List ObservationEvent → Type 0
Matches r s = (r.0 ≡ s.0) × (contents r.1 ≡ s.1)

same_contents : (q : EventQueue) → contents (count_dropped q) ≡ contents q
unfolding contents
same_contents q = refl

length-contents : (q : EventQueue) → length (contents q) ≡ q.count
unfolding contents
length-contents q = length-window (size q) q.events q.head q.count

size-put : (e : ObservationEvent) (q : EventQueue) → size (put e q.tail q).1 ≡ size q
unfolding put
size-put e q = length-set q.events q.tail e

put_same :
    (e : ObservationEvent) (q : EventQueue)
    → ((put e q.tail q).0 ≡ true)
      × ((put e q.tail q).1.closed ≡ q.closed)
      × ((put e q.tail q).1.cfg.drop_policy ≡ q.cfg.drop_policy)
unfolding put
put_same e q = (refl, refl, refl)

when_full_cases :
    (e : ObservationEvent) (q : EventQueue)
    → (q.cfg.drop_policy ≡ "block" → when_full e q ≡ (false, q))
      × (q.cfg.drop_policy ≡ "drop" → when_full e q ≡ (false, count_dropped q))
      × (q.cfg.drop_policy ≡ "oldest"
          → when_full e q ≡ put e q.tail (dequeue_one (count_dropped q)).1)
unfolding when_full
when_full_cases e q = (
  λ p. let here = (str_eq_iff q.cfg.drop_policy "block").1 p in rw here,
  λ p.
      subst
        (λ t.
          (if str_eq t "block"
            then (false, q)
            else if str_eq t "drop"
            then (false, count_dropped q)
            else if str_eq t "oldest"
            then put e q.tail (dequeue_one (count_dropped q)).1
            else put e q.tail q)
          ≡ (false, count_dropped q))
        (sym p) refl,
  λ p.
      subst
        (λ t.
          (if str_eq t "block"
            then (false, q)
            else if str_eq t "drop"
            then (false, count_dropped q)
            else if str_eq t "oldest"
            then put e q.tail (dequeue_one (count_dropped q)).1
            else put e q.tail q)
          ≡ put e q.tail (dequeue_one (count_dropped q)).1)
        (sym p) refl,
)

push_full :
    (room : ℕ) (policy : String) (e : ObservationEvent) (xs : List ObservationEvent)
    → length xs ≡ room
    → push room policy e xs
      ≡ (if str_eq policy "oldest" then (true, drop 1 xs ++ e ∷ []) else (false, xs))
unfolding push
push_full room policy e xs full = ground arith

push_roomy :
    (room : ℕ) (policy : String) (e : ObservationEvent) (xs : List ObservationEvent)
    → length xs < room
    → push room policy e xs ≡ (true, xs ++ e ∷ [])
unfolding push
push_roomy room policy e xs free = ground arith

module _ (room : ℕ) (policy : String) where
  put-Serves :
      (e : ObservationEvent) (q : EventQueue)
      → Serves room policy q
      → q.count < room
      → Serves room policy (put e q.tail q).1
        × Matches (put e q.tail q) (true, contents q ++ e ∷ [])
  put-Serves e q v free =
      let (queue, grown) = put-IsQueue e q v.queue (ground (arith, v.sized)) in
      (
        record { queue = queue; opened = opened; sized = size-put e q ∙ v.sized; ruled = ruled },
        ((put_same e q).0, grown),
      )
    where
      ruled : (put e q.tail q).1.cfg.drop_policy ≡ policy
      ruled = (put_same e q).2 ∙ v.ruled

      opened : (put e q.tail q).1.closed ≡ false
      opened = (put_same e q).1 ∙ v.opened

  count_dropped-Serves :
      (q : EventQueue) → Serves room policy q → Serves room policy (count_dropped q)
  count_dropped-Serves q v = record {
    queue = record {
      head_lt = v.queue.head_lt;
      count_lt = v.queue.count_lt;
      tail_at = v.queue.tail_at;
      size_lt = v.queue.size_lt;
    };
    opened = v.opened;
    sized = v.sized;
    ruled = v.ruled;
  }

  -- The oldest event makes room for the new one.
  replace-Serves :
      (e : ObservationEvent) (q : EventQueue)
      → Serves room policy q
      → 1 ≤ room
      → q.count ≡ room
      → Serves room policy (put e q.tail (dequeue_one q).1).1
        × Matches (put e q.tail (dequeue_one q).1) (true, drop 1 (contents q) ++ e ∷ [])
  replace-Serves e q v some_room full =
      let (o, q', out, queue, split, counted, sized, closed, tail, cfg) =
        dequeue_one-eq-some q (room - 1) v.queue (ground arith) in
      let v' : Serves room policy q' = record {
        queue = queue;
        opened = closed ∙ v.opened;
        sized = sized ∙ v.sized;
        ruled = ap (λ c. c.drop_policy) cfg ∙ v.ruled;
      } in
      let (served, matched) = put-Serves e q' v' (ground arith) in
      rw (out, split, ← tail) (served, matched)

  -- What an open queue does when it is full.
  full-Serves :
      (e : ObservationEvent) (q : EventQueue)
      → Serves room policy q
      → 1 ≤ room
      → q.count ≡ room
      → IsPolicy policy
      → Serves room policy (when_full e q).1
        × Matches (when_full e q) (push room policy e (contents q))
  full-Serves e q v some_room full known = elim known [
    | inl block ↦
        rw
          (
            push_full room policy e (contents q) (length-contents q ∙ full),
            block,
            (when_full_cases e q).0 (v.ruled ∙ block),
          )
          (subst (λ p. Serves room p q) block v, (refl, refl))
    | inr (inl is_drop) ↦
        rw
          (
            push_full room policy e (contents q) (length-contents q ∙ full),
            is_drop,
            (when_full_cases e q).1 (v.ruled ∙ is_drop),
          )
          (
            subst (λ p. Serves room p (count_dropped q)) is_drop (count_dropped-Serves q v),
            (refl, same_contents q),
          )
    | inr (inr oldest) ↦
        rw
          (
            push_full room policy e (contents q) (length-contents q ∙ full),
            oldest,
            (when_full_cases e q).2 (v.ruled ∙ oldest),
          )
          (subst
            (λ p.
              Serves room p (put e q.tail (dequeue_one (count_dropped q)).1).1
              × Matches (put e q.tail (dequeue_one (count_dropped q)).1)
                  (true, drop 1 (contents q) ++ e ∷ []))
            oldest
            (rw (same_contents q) at
              (replace-Serves e (count_dropped q) (count_dropped-Serves q v) some_room full)))
  ]

  enqueue_open :
      (e : ObservationEvent) (q : EventQueue)
      → q.closed ≡ false
      → enqueue e q ≡ (if next (size q) q.tail == q.head then when_full e q else put e q.tail q)
  unfolding enqueue
  enqueue_open e q o = rw o refl

  -- Enqueue on an open queue does what the bounded list does: it appends the event while one of the
  -- `capacity - 1` places is free, and else follows the policy. It keeps the queue well formed.
  pub enqueue-Serves :
      (e : ObservationEvent) (q : EventQueue)
      → Serves room policy q
      → 1 ≤ room
      → IsPolicy policy
      → Serves room policy (enqueue e q).1 × Matches (enqueue e q) (push room policy e (contents q))
  enqueue-Serves e q v some_room known = elim (Bool-cases (next (size q) q.tail == q.head)) [
    | inl met ↦
        rw (enqueue_open e q v.opened, met)
          (full-Serves e q v some_room (ground (arith, (full_iff q v.queue).0 met, v.sized)) known)
    | inr apart ↦
        let free : q.count < room = ground (arith, (full_iff q v.queue).1 apart, v.sized) in
        rw (enqueue_open e q v.opened, apart, push_free e q free) (put-Serves e q v free)
  ]
    where
      push_free :
          (e : ObservationEvent) (q : EventQueue)
          → q.count < room
          → push room policy e (contents q) ≡ (true, contents q ++ e ∷ [])
      push_free e q free = push_roomy room policy e (contents q) (ground (arith, length-contents q))
