-- ===== src/Nat/Timed/Run.antt =====
-- Histories of NAT/Nat_with_TIMER/nwt.c: packets from both sides and rounds of the loop of `main`.
use dpdk_code.Base.{
  ℕ, ◌+◌, ◌*◌, ◌^◌, ◌≤◌, ◌<◌, ◌≡◌, ◌≢◌, refl, Option, some, List, [], ◌∷◌, ◌>>=◌, inl, inr,
  ℕ_discrete,
}
use dpdk_code.Nat.Timed.{
  Services, ServiceLaws, State, Packet, nat_key, seen, refresh_timer, process_packet, idle_round,
}
use dpdk_code.Nat.Timed.Invariant.{IsValid}
use dpdk_code.Nat.Timed.Packets.{Admits, seen-IsValid, refresh-IsValid, process_packet_egress}
use dpdk_code.Nat.Timed.Answers.{process_packet_ingress}
use dpdk_code.Nat.Timed.Idle.{idle_round_exact}

-- A packet comes with the times when it was seen and when its timer is armed, with what rte_malloc
-- would return and what the stack held; a round with the times of its two calls.
pub data Event : Type 0 where
  packet : ℕ → ℕ → Option ℕ → ℕ → Packet → Event
  idle : ℕ → ℕ → Event

module _ {T C : Type 0} (sv : Services T C) (slack : ℕ) where
  unfoldable pub step : State T C → Event → Option (State T C)
  step s (packet now at mem stack pkt) = do
    (s', out) ← process_packet sv s now at mem stack pkt
    some s'
  step s (idle t now) = idle_round sv s t now

  pub run : State T C → List Event → Option (State T C)
  run s [] = some s
  run s (ev ∷ evs) = do s' ← step s ev; run s' evs

  -- Time does not run backwards, a timer is armed at most `slack` after its packet was seen, and
  -- less than five seconds, by `slack`, lie between the two calls of a round.
  abbrev pub Ready : State T C → Event → Type 0
  Ready s (packet now at mem stack pkt) =
      (s.global_last_pkt ≤ now)
      × (at ≤ now + slack)
      × (pkt.is_ingress ≡ 0 → Admits sv s mem (nat_key stack pkt))
  Ready s (idle t now) =
      (s.global_last_pkt ≤ now)
      × (now < 2 ^ 64)
      × (10 * s.hz < 2 ^ 64)
      × (now + slack ≤ t + 5 * s.hz)

  abbrev pub AllReady : State T C → List Event → Type 0
  AllReady s [] = Unit
  AllReady s (ev ∷ evs) = Ready s ev × ((s' : State T C) → step s ev ≡ some s' → AllReady s' evs)

module _ {T C : Type 0} (sv : Services T C) (laws : ServiceLaws sv) (slack : ℕ) where
  ingress-IsValid :
      (s : State T C) (now at : ℕ) (mem : Option ℕ) (stack : ℕ) (pkt : Packet)
      → IsValid sv slack s
      → s.global_last_pkt ≤ now
      → at ≤ now + slack
      → pkt.is_ingress ≢ 0
      → (s' : State T C) × (out : Packet) × (process_packet sv s now at mem stack pkt
          ≡ some (s', out))
        × IsValid sv slack s'
  ingress-IsValid s now at mem stack pkt v later prompt inward =
      let w = seen-IsValid sv laws slack s now later v in
      elim (process_packet_ingress sv laws slack s now at mem stack pkt v inward) [
        | inl (p, e, live, ip, port, ran) ↦ (
          refresh_timer sv (seen s now) at p,
          record pkt { dst_ip = e.private_ip; dst_port = e.private_port },
          ran,
          refresh-IsValid sv laws slack (seen s now) at p e live prompt w,
        )
        | inr (nobody, ran) ↦ (seen s now, pkt, ran, w)
      ]

  step-IsValid :
      (s : State T C) (ev : Event)
      → IsValid sv slack s
      → Ready sv slack s ev
      → (s' : State T C) × (step sv slack s ev ≡ some s') × IsValid sv slack s'
  unfolding step
  step-IsValid s (packet now at mem stack pkt) v (later, prompt, room) =
      elim (ℕ_discrete pkt.is_ingress 0) [
        | yes outward ↦
            let (s', out, e, ran, leaves, kept) =
              process_packet_egress sv laws slack s now at mem stack pkt v later prompt
                (room outward) outward in
            (s', rw ran, kept.valid)
        | no inward ↦
            let (s', out, ran, w) = ingress-IsValid s now at mem stack pkt v later prompt inward in
            (s', rw ran, w)
      ]
  step-IsValid s (idle t now) v (after, small, fits, prompt) =
      let (s', ran, w, gone, lookups) =
        idle_round_exact sv laws slack s t now v after small fits prompt in
      (s', ran, w)

  -- Any sequence of packets from both sides and rounds of the loop of `main` runs from a valid
  -- state without touching freed or null memory and ends in a valid state, provided that each new
  -- flow finds memory, room and a free port, time does not run backwards, each timer is armed
  -- within `slack` of its packet, and in each round less than five seconds, by `slack`, lie
  -- between rte_timer_manage and check_global_idle. The table and the timers keep the documented
  -- laws of rte_hash and rte_timer.
  pub history-IsValid :
      (evs : List Event) (s : State T C)
      → IsValid sv slack s
      → AllReady sv slack s evs
      → (s' : State T C) × (run sv slack s evs ≡ some s') × IsValid sv slack s'
  unfolding run
  history-IsValid [] s v ready = (s, refl, v)
  history-IsValid (ev ∷ evs) s v ready =
      let (t, ran, w) = step-IsValid s ev v ready.0 in
      let (s', rest, x) = history-IsValid evs t w (ready.1 t ran) in (s', rw ran rest, x)
