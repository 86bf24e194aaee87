-- ===== src/Nat/TwoTables/Run.antt =====
-- Histories of NAT/NAT_twoTables/main.c: packets from both sides and rounds of the timer loop, in
-- any order.
pub mod Fresh
use dpdk_code.Base.{
  ℕ, ◌≡◌, refl, Option, none, some, List, [], ◌∷◌, ◌>>=◌, Option-cases, inl, inr, arith,
}
use dpdk_code.Nat.TwoTables.{
  Services, ServiceLaws, State, Block, Packet, rev_key, process_egress, process_ingress,
  timer_manage, refresh_timer,
}
use dpdk_code.Nat.TwoTables.Invariant.{IsValid}
use dpdk_code.Nat.TwoTables.Egress.{refresh-IsValid}
use dpdk_code.Nat.TwoTables.Traffic.{Admits, process_egress_serves}
use dpdk_code.Nat.TwoTables.Expiry.{timer_manage-IsValid}

-- A packet comes with the time of its call, and an outgoing one with what rte_malloc would return.
pub data Event : Type 0 where
  egress : ℕ → Option Block → Packet → Event
  ingress : ℕ → Packet → Event
  tick : ℕ → Event

module _ {F R T : Type 0} (sv : Services F R T) where
  pub step : State F R T → Event → Option (State F R T)
  step s (egress now mem pkt) = do (s', out) ← process_egress sv s now mem pkt; some s'
  step s (ingress now pkt) = do (s', out) ← process_ingress sv s now pkt; some s'
  step s (tick now) = timer_manage sv s now

  pub run : State F R T → List Event → Option (State F R T)
  run s [] = some s
  run s (ev ∷ evs) = do s' ← step s ev; run s' evs

  abbrev pub Ready : State F R T → Event → Type 0
  Ready s (egress now mem pkt) = Admits sv s mem pkt
  Ready s (ingress now pkt) = Unit
  Ready s (tick now) = Unit

  -- Each new flow of the history finds memory, room in the tables and a free port.
  abbrev pub AllReady : State F R T → List Event → Type 0
  AllReady s [] = Unit
  AllReady s (ev ∷ evs) = Ready s ev × ((s' : State F R T) → step s ev ≡ some s' → AllReady s' evs)

module _ {F R T : Type 0} (sv : Services F R T) (laws : ServiceLaws sv) where
  process_ingress-IsValid :
      (s : State F R T) (now : ℕ) (pkt : Packet)
      → IsValid sv s
      → (s' : State F R T) × (out : Option Packet) × (process_ingress sv s now pkt ≡ some (s', out))
        × IsValid sv s'
  unfolding process_ingress
  process_ingress-IsValid s now pkt v =
      elim (Option-cases (sv.rev.lookup s.rev_table (rev_key pkt))) [
        | inl miss ↦ (s, none, rw (miss, process_ingress), v)
        | inr (p, hit) ↦
            let (e, live, keyed) = v.rev.live (rev_key pkt) p hit in
            (
              refresh_timer sv s now p,
              some (record pkt { dst_ip = e.private_ip; dst_port = e.private_port }),
              ground (arith, hit, live),
              refresh-IsValid sv laws s now p e live v,
            )
      ]

  pub step-IsValid :
      (s : State F R T) (ev : Event)
      → IsValid sv s
      → Ready sv s ev
      → (s' : State F R T) × (step sv s ev ≡ some s') × IsValid sv s'
  unfolding step
  step-IsValid s (egress now mem pkt) v ready =
      let (s', out, ran, served) = process_egress_serves sv laws s now mem pkt v ready in
      (s', rw ran, served.valid)
  step-IsValid s (ingress now pkt) v ready =
      let (s', out, ran, w) = process_ingress-IsValid s now pkt v in (s', rw ran, w)
  step-IsValid s (tick now) v ready =
      let (s', ran, w, gone) = timer_manage-IsValid sv laws s now v in (s', ran, w)

  -- Any sequence of outgoing packets, incoming packets and rounds of the timer loop, in which each
  -- new flow finds memory, room in the tables and a free port, runs from a valid state without
  -- touching freed or null memory, and ends in a valid state.
  pub run-IsValid :
      (evs : List Event) (s : State F R T)
      → IsValid sv s
      → AllReady sv s evs
      → (s' : State F R T) × (run sv s evs ≡ some s') × IsValid sv s'
  unfolding run
  run-IsValid [] s v ready = (s, refl, v)
  run-IsValid (ev ∷ evs) s v ready =
      let (t, ran, w) = step-IsValid s ev v ready.0 in
      let (s', rest, x) = run-IsValid evs t w (ready.1 t ran) in (s', rw ran rest, x)
