-- ===== src/Eventdev/Conservation.antt =====
-- Eventdev/Parsing/main.c: where each packet is, and when one is leaked.
use dpdk_code.Base.{
  ℕ, zero, suc, ◌+◌, ◌≤◌, ◌≡◌, refl, ap, sym, subst, ◌∙◌, none, some, List, [], ◌∷◌, ◌++◌, length,
  take, count, count-append, arith, ◌==◌, Option-cases, Bool-cases, inl, inr,
}
use dpdk_code.Dpdk.Events.{Event, EventOps, EventLaws, pointers}
use dpdk_code.Threaded.{unsent}
use dpdk_code.Threaded.Conservation.{count-unsent}
use dpdk_code.Eventdev.{
  State, burst_size, rx_q, tx_q, rx_events, refused, accepted, rx_loop, work, worker_loop,
}

-- The cores in any order. The card takes at most the one packet that it is given.
pub data Step {E : Type 0} (dev : EventOps E) (s : State E) : State E → Type 0 where
  receive : (pkts : List ℕ) → length pkts ≤ burst_size → Step dev s (rx_loop dev s pkts)
  serve : (nb_tx : ℕ) → nb_tx ≤ 1 → Step dev s (worker_loop dev s nb_tx)

pub data Reach {E : Type 0} (dev : EventOps E) (s : State E) : State E → Type 0 where
  here : Reach dev s s
  next : {t u : State E} → Reach dev s t → Step dev t u → Reach dev s u

pub record IsStart {E : Type 0} (dev : EventOps E) (s : State E) : Type 0 where
  pub device : dev.inside s.device ≡ []
  pub received : s.received ≡ []
  pub sent : s.sent ≡ []
  pub freed : s.freed ≡ []
  pub leaked : s.leaked ≡ []

pointers-rx_events : (n : ℕ) (pkts : List ℕ) → pointers (take n (rx_events pkts)) ≡ take n pkts
pointers-rx_events zero pkts = refl
pointers-rx_events (suc n) [] = refl
pointers-rx_events (suc n) (m ∷ pkts) = ap (◌∷◌ m) (pointers-rx_events n pkts)

length-rx_events : (pkts : List ℕ) → length (rx_events pkts) ≡ length pkts
length-rx_events [] = refl
length-rx_events (m ∷ pkts) = ap suc (length-rx_events pkts)

count-refused :
    (m n q x : ℕ)
    → n ≤ 1
    → count m (pointers (take n ((record { queue_id = q; event_ptr = x }) ∷ [])))
        + count m (refused n x)
      ≡ count m (x ∷ [])
count-refused m zero q x small = ground arith
count-refused m (suc zero) q x small = ground arith
count-refused m (suc (suc n)) q x small = absurd (omega arith)

count-accepted : (m n x : ℕ) → count m (accepted n x) + count m (refused n x) ≡ count m (x ∷ [])
count-accepted m n x = ground arith

module _ {E : Type 0} (dev : EventOps E) (laws : EventLaws dev) where
  abbrev pub whereabouts : ℕ → State E → ℕ
  whereabouts m s =
      count m s.sent + count m s.freed + count m s.leaked + count m (pointers (dev.inside s.device))

  abbrev pub IsAccounted : State E → Type 0
  IsAccounted s = (m : ℕ) → count m s.received ≡ whereabouts m s

  rx_loop-IsAccounted :
      (s : State E) (pkts : List ℕ) → IsAccounted s → IsAccounted (rx_loop dev s pkts)
  unfolding rx_loop
  rx_loop-IsAccounted s pkts v m =
      let n = (dev.enqueue_burst s.device (rx_events pkts)).0 in
      omega (
        arith,
        v m,
        laws.inside-enqueue s.device (rx_events pkts) m,
        ap (count m) (pointers-rx_events n pkts),
        count-append m s.received pkts,
        count-append m s.freed (unsent n pkts),
        count-unsent m n pkts
            (omega (arith, laws.enqueue-le s.device (rx_events pkts), length-rx_events pkts)),
      )

  work-IsAccounted :
      (s : State E) (ev : Event) (nb_tx m : ℕ)
      → count m s.received ≡ whereabouts m s + count m (ev.event_ptr ∷ [])
      → count m (work dev s ev nb_tx).received ≡ whereabouts m (work dev s ev nb_tx)
  unfolding work
  work-IsAccounted s ev nb_tx m v = elim (Bool-cases (ev.queue_id == rx_q)) [
    | inl first ↦
        let evs = (record { queue_id = tx_q; event_ptr = ev.event_ptr }) ∷ [] in
        let n = (dev.enqueue_burst s.device evs).0 in
        rw first (
          omega (
            arith,
            v,
            laws.inside-enqueue s.device evs m,
            count-append m s.leaked (refused n ev.event_ptr),
            count-refused m n tx_q ev.event_ptr (laws.enqueue-le s.device evs),
          ))
    | inr second ↦ rw second (
        omega (
          arith,
          v,
          count-append m s.sent (accepted nb_tx ev.event_ptr),
          count-append m s.leaked (refused nb_tx ev.event_ptr),
          count-accepted m nb_tx ev.event_ptr,
        ))
  ]

  worker_empty :
      (s : State E) (nb_tx : ℕ) → dev.dequeue s.device ≡ none → worker_loop dev s nb_tx ≡ s
  unfolding worker_loop
  worker_empty s nb_tx empty = rw (empty, worker_loop)

  worker_event :
      (s : State E) (nb_tx : ℕ) (ev : Event) (device' : E)
      → dev.dequeue s.device ≡ some (ev, device')
      → worker_loop dev s nb_tx ≡ work dev (record s { device = device' }) ev nb_tx
  unfolding worker_loop
  worker_event s nb_tx ev device' out = rw (out, worker_loop)

  worker_loop-IsAccounted :
      (s : State E) (nb_tx : ℕ) → IsAccounted s → IsAccounted (worker_loop dev s nb_tx)
  worker_loop-IsAccounted s nb_tx v = elim (Option-cases (dev.dequeue s.device)) [
    | inl empty ↦ subst IsAccounted (sym (worker_empty s nb_tx empty)) v
    | inr ((ev, device'), out) ↦ subst IsAccounted (sym (worker_event s nb_tx ev device' out)) (λ m.
        work-IsAccounted (record s { device = device' }) ev nb_tx m
          (omega (arith, v m, laws.inside-dequeue s.device device' ev m out)))
  ]

  -- In every state that the cores of Eventdev/Parsing/main.c reach, from the start and in any
  -- order of their calls, each packet that came in is, as often as it came in, in exactly one
  -- place: sent, freed, in the event device, or leaked by a worker whose call did not take it. The
  -- device takes the first events of a burst and loses and doubles none.
  pub Reach-IsAccounted : {s t : State E} → IsStart dev s → Reach dev s t → IsAccounted t
  Reach-IsAccounted {s} x here m = ground (arith, x.device, x.received, x.sent, x.freed, x.leaked)
  Reach-IsAccounted x (next {t} r (receive pkts small)) m =
      rx_loop-IsAccounted t pkts (Reach-IsAccounted x r) m
  Reach-IsAccounted x (next {t} r (serve nb_tx small)) m =
      worker_loop-IsAccounted t nb_tx (Reach-IsAccounted x r) m

  -- Nobody has the packet any more.
  pub record IsLeaked (m : ℕ) (s : State E) : Type 0 where
    pub sent : count m s.sent ≡ 0
    pub freed : count m s.freed ≡ 0
    pub device : count m (pointers (dev.inside s.device)) ≡ 0

  work_refused :
      (s : State E) (m nb_tx : ℕ)
      → (dev.enqueue_burst s.device ((record { queue_id = tx_q; event_ptr = m }) ∷ [])).0 ≡ 0
      → ((work dev s (record { queue_id = rx_q; event_ptr = m }) nb_tx).received ≡ s.received)
        × ((work dev s (record { queue_id = rx_q; event_ptr = m }) nb_tx).leaked
            ≡ s.leaked ++ (m ∷ []))
  unfolding work
  work_refused s m nb_tx full = (refl, rw full refl)

  -- In a state that the cores reach and in which a packet came in once, a worker that takes the
  -- packet from RX_Q while the device refuses it for TX_Q leaves it nowhere: it is neither sent,
  -- nor freed, nor in the device.
  pub full_device_leaks :
      {s t : State E} (e' : E) (m nb_tx : ℕ)
      → IsStart dev s
      → Reach dev s t
      → nb_tx ≤ 1
      → count m t.received ≡ 1
      → dev.dequeue t.device ≡ some (record { queue_id = rx_q; event_ptr = m }, e')
      → (dev.enqueue_burst e' ((record { queue_id = tx_q; event_ptr = m }) ∷ [])).0 ≡ 0
      → IsLeaked m (worker_loop dev t nb_tx)
  full_device_leaks {s} {t} e' m nb_tx x r small once out full =
      let ev : Event = record { queue_id = rx_q; event_ptr = m } in
      let t' : State E = record t { device = e' } in
      let sum = worker_loop-IsAccounted t nb_tx (Reach-IsAccounted x r) m in
      let same = worker_event t nb_tx ev e' out in
      let (received, leaked) = work_refused t' m nb_tx full in
      let sum' = subst (λ (u : State E). count m u.received ≡ whereabouts m u) same sum in
      let found : count m (work dev t' ev nb_tx).leaked ≡ count m t.leaked + count m (m ∷ []) =
        ap (count m) leaked ∙ count-append m t.leaked (m ∷ []) in
      let one : count m (m ∷ []) ≡ 1 = ground arith in
      subst (IsLeaked m) (sym same) (record {
        sent = omega (arith, sum', found, one, ap (count m) received, once);
        freed = omega (arith, sum', found, one, ap (count m) received, once);
        device = omega (arith, sum', found, one, ap (count m) received, once);
      })
