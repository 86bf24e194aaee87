-- ===== src/Nat/TwoTables/Run/Fresh.antt =====
-- Histories of NAT/NAT_twoTables/main.c that are too short for `next_port` to wrap.
use dpdk_code.Base.{
  ℕ, suc, ◌+◌, ◌^◌, ◌≤◌, ◌<◌, ◌≡◌, refl, Option, none, some, List, [], ◌∷◌, Option-cases, inl, inr,
  arith, subst, some_unique, ap,
}
use dpdk_code.Nat.TwoTables.{
  Services, ServiceLaws, State, Block, Packet, fwd_key, rev_key, process_egress, process_ingress,
  timer_manage, refresh_timer, run_callbacks, flow_timeout_cb, find_or_create, create_mapping,
}
use dpdk_code.Nat.TwoTables.Invariant.{IsValid}
use dpdk_code.Nat.TwoTables.Egress.{Slot}
use dpdk_code.Nat.TwoTables.Expiry.{timer_manage-IsValid}
use dpdk_code.Nat.TwoTables.Ports.{PortsBelow, next_port_free, process_egress-PortsBelow}
use dpdk_code.Nat.TwoTables.Run.{Event, egress, ingress, tick, step, run, step-IsValid, Ready}

-- How many packets go out.
abbrev pub outgoing : List Event → ℕ
outgoing [] = 0
outgoing (egress now mem pkt ∷ evs) = suc (outgoing evs)
outgoing (ingress now pkt ∷ evs) = outgoing evs
outgoing (tick now ∷ evs) = outgoing evs

-- A new flow finds memory and room in the tables.
abbrev pub Fits : {F R T : Type 0} → Services F R T → State F R T → Event → Type 0
Fits sv s (egress now mem pkt) =
    sv.fwd.lookup s.fwd_table (fwd_key pkt) ≡ none → (b : Block) × (mem ≡ some b) × Slot sv s pkt b
Fits sv s (ingress now pkt) = Unit
Fits sv s (tick now) = Unit

abbrev pub AllFit : {F R T : Type 0} → Services F R T → State F R T → List Event → Type 0
AllFit sv s [] = Unit
AllFit {F} {R} {T} sv s (ev ∷ evs) =
    Fits sv s ev × ((s' : State F R T) → step sv s ev ≡ some s' → AllFit sv s' evs)

module _ {F R T : Type 0} (sv : Services F R T) (laws : ServiceLaws sv) where
  next_port-find_or_create :
      (s s' : State F R T) (mem : Option Block) (pkt : Packet) (p : ℕ)
      → find_or_create sv s mem (fwd_key pkt) pkt ≡ some (p, s')
      → s.next_port + 1 < 2 ^ 16
      → s'.next_port ≤ s.next_port + 1
  unfolding find_or_create create_mapping
  next_port-find_or_create s s' none pkt p h room = ground arith
  next_port-find_or_create s s' (some a) pkt p h room = ground arith

  next_port-process_egress :
      (s s' : State F R T) (now : ℕ) (mem : Option Block) (pkt out : Packet)
      → process_egress sv s now mem pkt ≡ some (s', out)
      → s.next_port + 1 < 2 ^ 16
      → s'.next_port ≤ s.next_port + 1
  unfolding process_egress refresh_timer
  next_port-process_egress s s' now mem pkt out h room =
      elim (Option-cases (find_or_create sv s mem (fwd_key pkt) pkt)) [
        | inl failed ↦ absurd (ground arith)
        | inr (found, kept) ↦ elim (Option-cases (found.1.heap found.0)) [
          | inl missing ↦ absurd (ground arith)
          | inr (e, live) ↦
              ground (arith, next_port-find_or_create s found.1 mem pkt found.0 kept room)
        ]
      ]

  process_ingress_keeps :
      (s s' : State F R T) (now : ℕ) (pkt : Packet) (out : Option Packet)
      → process_ingress sv s now pkt ≡ some (s', out)
      → (s'.heap ≡ s.heap) × (s'.next_port ≡ s.next_port)
  unfolding process_ingress refresh_timer
  process_ingress_keeps s s' now pkt out h =
      elim (Option-cases (sv.rev.lookup s.rev_table (rev_key pkt))) [
        | inl miss ↦ ground arith
        | inr (p, hit) ↦ elim (Option-cases (s.heap p)) [
          | inl missing ↦ absurd (ground arith)
          | inr (e, live) ↦ ground arith
        ]
      ]

  next_port-run_callbacks :
      (ps : List ℕ) (s s' : State F R T)
      → run_callbacks sv s ps ≡ some s'
      → s'.next_port ≡ s.next_port
  unfolding run_callbacks flow_timeout_cb
  next_port-run_callbacks [] s s' h = ground arith
  next_port-run_callbacks (p ∷ ps) s s' h = elim (Option-cases (s.heap p)) [
    | inl missing ↦ absurd (ground arith)
    | inr (e, live) ↦ next_port-run_callbacks ps _ s' (rw live at h)
  ]

  Fits-Ready :
      (s : State F R T) (ev : Event) → IsValid sv s → PortsBelow s → Fits sv s ev → Ready sv s ev
  Fits-Ready s (egress now mem pkt) v below fits = λ miss.
      let (b, given, r) = fits miss in
      (b, given, record { slot = r; port_free = next_port_free sv laws s below })
  Fits-Ready s (ingress now pkt) v below fits = tt
  Fits-Ready s (tick now) v below fits = tt

  tick_below :
      (s s' : State F R T) (now : ℕ)
      → IsValid sv s
      → PortsBelow s
      → timer_manage sv s now ≡ some s'
      → PortsBelow s' × (s'.next_port ≡ s.next_port)
  unfolding timer_manage
  tick_below s s' now v below h =
      let (t, ran, w, gone) = timer_manage-IsValid sv laws s now v in
      let same = next_port-run_callbacks _ _ s' h in
      (
        λ p e live. ground (
          arith,
          below p e,
          gone p,
          some_unique ran h,
          ap (λ (u : State F R T). u.heap p) (some_unique ran h),
          same,
        ),
        same,
      )

  step_below :
      (s s' : State F R T) (ev : Event)
      → IsValid sv s
      → PortsBelow s
      → s.next_port + outgoing (ev ∷ []) < 2 ^ 16
      → Fits sv s ev
      → step sv s ev ≡ some s'
      → PortsBelow s' × (s'.next_port ≤ s.next_port + outgoing (ev ∷ []))
  unfolding step
  step_below s s' (egress now mem pkt) v below room fits h =
      elim (Option-cases (process_egress sv s now mem pkt)) [
        | inl failed ↦ absurd (ground arith)
        | inr (r, ran) ↦
            let ends : step sv s (egress now mem pkt) ≡ some r.0 = rw ran refl in
            subst (λ (u : State F R T). PortsBelow u × (u.next_port ≤ s.next_port + 1))
              (some_unique ends h)
              (
                (process_egress-PortsBelow sv laws s r.0 now mem pkt r.1 v below room fits ran).1,
                next_port-process_egress s r.0 now mem pkt r.1 ran room,
              )
      ]
  step_below s s' (ingress now pkt) v below room fits h =
      elim (Option-cases (process_ingress sv s now pkt)) [
        | inl failed ↦ absurd (ground arith)
        | inr (r, ran) ↦
            let ends : step sv s (ingress now pkt) ≡ some r.0 = rw ran refl in
            let (heap, port) = process_ingress_keeps s r.0 now pkt r.1 ran in
            subst (λ (u : State F R T). PortsBelow u × (u.next_port ≤ s.next_port + 0))
              (some_unique ends h) (λ p e live. ground (arith, below p e, heap, port), omega arith)
      ]
  step_below s s' (tick now) v below room fits h =
      let (b, same) = tick_below s s' now v below h in (b, omega arith)

  outgoing_cons :
      (ev : Event) (evs : List Event) → outgoing (ev ∷ evs) ≡ outgoing (ev ∷ []) + outgoing evs
  outgoing_cons (egress now mem pkt) evs = omega arith
  outgoing_cons (ingress now pkt) evs = omega arith
  outgoing_cons (tick now) evs = omega arith

  -- Take a valid state whose live flows all have ports below next_port, and any sequence of
  -- outgoing packets, incoming packets and rounds of the timer loop, in which each new flow finds
  -- memory and room in the tables. While next_port plus the number of outgoing packets fits in 16
  -- bits, no port that is handed out is in use: the sequence runs to its end without touching
  -- freed or null memory, the state stays valid, its live flows have ports below next_port again,
  -- and next_port has grown by at most the number of outgoing packets. The tables and the timers
  -- keep the documented laws of rte_hash and rte_timer.
  pub run-PortsBelow :
      (evs : List Event) (s : State F R T)
      → IsValid sv s
      → PortsBelow s
      → s.next_port + outgoing evs < 2 ^ 16
      → AllFit sv s evs
      → (s' : State F R T) × (run sv s evs ≡ some s')
        × IsValid sv s'
        × PortsBelow s'
        × (s'.next_port ≤ s.next_port + outgoing evs)
  unfolding run
  run-PortsBelow [] s v below room fits = (s, refl, v, below, omega arith)
  run-PortsBelow (ev ∷ evs) s v below room fits =
      let all = outgoing_cons ev evs in
      let (t, ran, w) = step-IsValid sv laws s ev v (Fits-Ready s ev v below fits.0) in
      let (b, few) = step_below s t ev v below (omega (arith, all)) fits.0 ran in
      let (s', rest, x, below', few') =
        run-PortsBelow evs t w b (omega (arith, all)) (fits.1 t ran) in
      (s', rw ran rest, x, below', omega (arith, all))
