-- ===== src/Dpdk/Events.antt =====
-- rte_event: a device that holds events and gives them out again, in any order.
use dpdk_code.Base.{ℕ, ◌+◌, ◌≤◌, ◌≡◌, Option, some, List, [], ◌∷◌, length, take, map, count}

-- `queue_id` and `event_ptr` of an event; its schedule type and flow are the same in all.
pub record Event : Type 0 where
  pub queue_id : ℕ
  pub event_ptr : ℕ

-- `enqueue_burst` returns how many it took. `dequeue` takes out one event, if it gives one.
pub record EventOps (E : Type 0) : Type 0 where
  pub enqueue_burst : E → List Event → ℕ × E
  pub dequeue : E → Option (Event × E)
  pub inside : E → List Event

abbrev pub pointers : List Event → List ℕ
pointers evs = map (λ (ev : Event). ev.event_ptr) evs

-- The device takes the first ones of a burst, and loses and doubles nothing.
pub record EventLaws {E : Type 0} (dev : EventOps E) : Type 0 where
  pub enqueue-le : (e : E) (evs : List Event) → (dev.enqueue_burst e evs).0 ≤ length evs
  pub inside-enqueue :
      (e : E) (evs : List Event) (m : ℕ)
      → count m (pointers (dev.inside (dev.enqueue_burst e evs).1))
        ≡ count m (pointers (dev.inside e))
          + count m (pointers (take (dev.enqueue_burst e evs).0 evs))
  pub inside-dequeue :
      (e e' : E) (ev : Event) (m : ℕ)
      → dev.dequeue e ≡ some (ev, e')
      → count m (pointers (dev.inside e))
        ≡ count m (ev.event_ptr ∷ []) + count m (pointers (dev.inside e'))
