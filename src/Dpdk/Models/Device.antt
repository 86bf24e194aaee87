-- ===== src/Dpdk/Models/Device.antt =====
-- An event device that gives the oldest event first. When it holds `n` events it takes at most
-- `room n` more.
use dpdk_code.Base.{
  ℕ, ◌+◌, ◌≡◌, Option, none, some, List, [], ◌∷◌, ◌++◌, length, take, min, arith, count,
}
use dpdk_code.Dpdk.Events.{Event, EventOps, EventLaws, pointers}

abbrev first : List Event → Option (Event × List Event)
first [] = none
first (ev ∷ evs) = some (ev, evs)

abbrev pub device : (ℕ → ℕ) → EventOps (List Event)
device room = record {
  enqueue_burst = λ q evs. let n = min (room (length q)) (length evs) in (n, q ++ take n evs);
  dequeue = first;
  inside = λ q. q;
}

count-pointers :
    (m : ℕ) (xs ys : List Event)
    → count m (pointers (xs ++ ys)) ≡ count m (pointers xs) + count m (pointers ys)
count-pointers m [] ys = omega arith
count-pointers m (x ∷ xs) ys = ground (arith, count-pointers m xs ys)

count-first :
    (q q' : List Event) (ev : Event) (m : ℕ)
    → first q ≡ some (ev, q')
    → count m (pointers q) ≡ count m (ev.event_ptr ∷ []) + count m (pointers q')
count-first [] q' ev m e = absurd (ground arith)
count-first (x ∷ q) q' ev m e = ground arith

pub device_laws : (room : ℕ → ℕ) → EventLaws (device room)
device_laws room = record {
  enqueue-le = λ q evs. omega arith;
  inside-enqueue = λ q evs m. count-pointers m q (take (min (room (length q)) (length evs)) evs);
  inside-dequeue = λ q q' ev m e. count-first q q' ev m e;
}
