-- ===== src/Nat/SingleTable/Run.antt =====
-- Histories of NAT/main.c: packets from both sides and cleanups, in any order.
use dpdk_code.Base.{ℕ, ◌≡◌, refl, Option, some, List, [], ◌∷◌, ◌>>=◌, inl, inr}
use dpdk_code.Dpdk.Hash.{IterOps, IterLaws}
use dpdk_code.Nat.SingleTable.{State, NatKey, Packet, nat_key, nat_callback, nat_cleanup}
use dpdk_code.Nat.SingleTable.Invariant.{IsValid}
use dpdk_code.Nat.SingleTable.Egress.{Admits, touched-IsValid}
use dpdk_code.Nat.SingleTable.Ingress.{nat_callback_exact}
use dpdk_code.Nat.SingleTable.Cleanup.{nat_cleanup_exact}

-- A packet comes with the time of its call, what rte_malloc would return for it, and what the
-- stack holds in the padding of its key.
pub data Event : Type 0 where
  packet : (now : ℕ) → (mem : Option ℕ) → (stack : ℕ) → (pkt : Packet) → Event
  cleanup : (now : ℕ) → Event

module _ {T : Type 0} (it : IterOps T NatKey ℕ) where
  unfoldable pub step : State T → Event → Option (State T)
  step s (packet now mem stack pkt) = do
    (s', out, verdict) ← nat_callback it s now mem stack pkt
    some s'
  step s (cleanup now) = nat_cleanup it s now

  unfoldable pub run : State T → List Event → Option (State T)
  run s [] = some s
  run s (ev ∷ evs) = do s' ← step s ev; run s' evs

  abbrev pub Ready : State T → Event → Type 0
  Ready s (packet now mem stack pkt) = pkt.is_ingress ≡ 0 → Admits it s mem (nat_key stack pkt)
  Ready s (cleanup now) = Unit

  -- Each new flow of the history finds memory, room in the table and a free port.
  abbrev pub AllReady : State T → List Event → Type 0
  AllReady s [] = Unit
  AllReady s (ev ∷ evs) = Ready s ev × ((s' : State T) → step s ev ≡ some s' → AllReady s' evs)

module _ {T : Type 0} (it : IterOps T NatKey ℕ) (laws : IterLaws it) where
  step-IsValid :
      (s : State T) (ev : Event)
      → IsValid it s
      → Ready it s ev
      → (s' : State T) × (step it s ev ≡ some s') × IsValid it s'
  unfolding step
  step-IsValid s (packet now mem stack pkt) v ready =
      elim (nat_callback_exact it laws s now mem stack pkt v ready) [
        | inl (outward, s', out, ran, served) ↦ (s', rw ran refl, served.valid)
        | inr (inward, inl (p, e, live, ip, port, ran)) ↦
            (_, rw ran refl, touched-IsValid it s now p e live v)
        | inr (inward, inr (missing, ran)) ↦ (s, rw ran refl, v)
      ]
  step-IsValid s (cleanup now) v ready =
      let (s', ran, w, flows, keys) = nat_cleanup_exact it laws s now v in (s', ran, w)

  -- Any sequence of packets from both sides and cleanups, in which each new flow finds memory,
  -- room in the table and a free port, runs from a valid state without touching freed or null
  -- memory and ends in a valid state. The table keeps the documented laws of rte_hash.
  pub calls-IsValid :
      (evs : List Event) (s : State T)
      → IsValid it s
      → AllReady it s evs
      → (s' : State T) × (run it s evs ≡ some s') × IsValid it s'
  unfolding run
  calls-IsValid [] s v ready = (s, refl, v)
  calls-IsValid (ev ∷ evs) s v ready =
      let (t, ran, w) = step-IsValid s ev v ready.0 in
      let (s', rest, x) = calls-IsValid evs t w (ready.1 t ran) in (s', rw ran rest, x)
