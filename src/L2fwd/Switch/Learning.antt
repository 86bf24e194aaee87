-- ===== src/L2fwd/Switch/Learning.antt =====
-- l2fwd/veth_peer/main.c sends each frame to the port where its destination was last seen.

use dpdk_code.Base.{
  ℕ, ◌%◌, ◌^◌, ◌≤◌, ◌<◌, ◌≡◌, refl, ap, some, List, [], ◌∷◌, ◌++◌, length, ◌==◌, is_some-eq_some,
  arith, Option-cases, Bool-cases, inl, inr,
}
use dpdk_code.Dpdk.Hash.{HashOps, HashLaws}
use dpdk_code.Parsing.{bytes_at}
use dpdk_code.Parsing.Reads.{is_some-bytes_at}
use dpdk_code.L2fwd.Switch.History.{
  Mac-discrete, History, last_port, best_port, history_frame, history_frames, history_loop,
}
use dpdk_code.L2fwd.Switch.{
  State, Frame, Burst, learn, out_port, switch_frame, switch_frames, switch_loop,
}

module _ {T : Type 0} (h : HashOps T (List ℕ) ℕ) where
  -- The table knows of each address the port where it was last seen.
  pub record Refines (s : State T) (a : History) : Type 0 where
    pub table : (mac : List ℕ) → h.lookup s.l2_hash mac ≡ last_port a.seen mac
    pub ports : (mac : List ℕ) (p : ℕ) → last_port a.seen mac ≡ some p → p < 2 ^ 16
    pub sent : s.sent ≡ a.sent
    pub freed : s.freed ≡ a.freed

  -- The frame has its two addresses, and the table has room for the source.
  abbrev pub FrameReady : State T → ℕ → Frame → Type 0
  FrameReady s port f =
      (12 ≤ length f.bytes)
      × ((mac : List ℕ)
          → bytes_at f.bytes 6 6 ≡ some mac
          → (t : T) × (h.add s.l2_hash mac port ≡ some t))

  abbrev pub FramesReady : State T → ℕ → List Frame → Type 0
  FramesReady s port [] = Unit
  FramesReady s port (f ∷ fs) =
      FrameReady s port f
      × ((s' : State T) → switch_frame h s port f ≡ some s' → FramesReady s' port fs)

  abbrev pub AllReady : State T → List Burst → Type 0
  AllReady s [] = Unit
  AllReady s (b ∷ bs) =
      (b.port < 2 ^ 16)
      × FramesReady s b.port b.frames
      × ((s' : State T) → switch_frames h s b.port b.frames ≡ some s' → AllReady s' bs)

module _ {T : Type 0} (h : HashOps T (List ℕ) ℕ) (laws : HashLaws h) where
  learn-last_port :
      (t t' : T) (seen : List (List ℕ × ℕ)) (port : ℕ) (src mac : List ℕ)
      → h.add t src port ≡ some t'
      → h.lookup t mac ≡ last_port seen mac
      → h.lookup t' mac ≡ last_port ((src, port) ∷ seen) mac
  unfolding last_port
  learn-last_port t t' seen port src mac added before = elim (Mac-discrete mac src) [
    | yes same ↦ ground (arith, laws.lookup-add_self t t' src port added)
    | no other ↦ ground (arith, laws.lookup-add_ne t t' src mac port added other)
  ]

  out_port-best_port :
      (t : T) (seen : List (List ℕ × ℕ)) (port : ℕ) (mac : List ℕ)
      → h.lookup t mac ≡ last_port seen mac
      → ((p : ℕ) → last_port seen mac ≡ some p → p < 2 ^ 16)
      → out_port h t port mac ≡ best_port seen port mac
  unfolding out_port best_port
  out_port-best_port t seen port mac same small = elim (Option-cases (last_port seen mac)) [
    | inl never ↦ ground (arith, same)
    | inr (p, at) ↦
        let fits : p % 2 ^ 16 ≡ p = omega (arith, small p at) in ground (arith, fits, same)
  ]

  ports-last_port :
      (seen : List (List ℕ × ℕ)) (port : ℕ) (src : List ℕ)
      → port < 2 ^ 16
      → ((mac : List ℕ) (p : ℕ) → last_port seen mac ≡ some p → p < 2 ^ 16)
      → (mac : List ℕ) (p : ℕ) → last_port ((src, port) ∷ seen) mac ≡ some p
      → p < 2 ^ 16
  unfolding last_port
  ports-last_port seen port src small before mac p at = elim (Mac-discrete mac src) [
    | yes same ↦ ground arith
    | no other ↦ before mac p (ground arith)
  ]

  module _ (s : State T) (a : History) (port : ℕ) (f : Frame) (x : Refines h s a)
      (small : port < 2 ^ 16) (src dst : List ℕ) (t : T) (at_src : bytes_at f.bytes 6 6 ≡ some src)
      (at_dst : bytes_at f.bytes 0 6 ≡ some dst) (added : h.add s.l2_hash src port ≡ some t) where
    abbrev sent_on : State T
    sent_on = record s { l2_hash = t; sent = s.sent ++ ((out_port h t port dst, f.mbuf) ∷ []) }

    abbrev sent_on' : History
    sent_on' = record a {
      seen = (src, port) ∷ a.seen;
      sent = a.sent ++ ((best_port ((src, port) ∷ a.seen) port dst, f.mbuf) ∷ []);
    }

    abbrev kept_back : State T
    kept_back = record s { l2_hash = t; freed = s.freed ++ (f.mbuf ∷ []) }

    abbrev kept_back' : History
    kept_back' = record a { seen = (src, port) ∷ a.seen; freed = a.freed ++ (f.mbuf ∷ []) }

    knows : (mac : List ℕ) → h.lookup t mac ≡ last_port ((src, port) ∷ a.seen) mac
    knows mac = learn-last_port s.l2_hash t a.seen port src mac added (x.table mac)

    frame-Refines :
        (s' : State T) × (a' : History) × (switch_frame h s port f ≡ some s')
        × (history_frame a port f ≡ some a')
        × Refines h s' a'
    unfolding switch_frame history_frame learn
    frame-Refines =
        let ports = ports-last_port a.seen port src small x.ports in
        elim (Bool-cases (f.nb_tx == 0)) [
          | inl refused ↦ (
            kept_back,
            kept_back',
            ground arith,
            ground arith,
            record {
              table = knows;
              ports = ports;
              sent = x.sent;
              freed = ap (λ l. l ++ (f.mbuf ∷ [])) x.freed;
            },
          )
          | inr taken ↦ (
            sent_on,
            sent_on',
            ground arith,
            ground arith,
            record {
              table = knows;
              ports = ports;
              sent = rw (
                x.sent,
                out_port-best_port t ((src, port) ∷ a.seen) port dst (knows dst) (ports dst),
              );
              freed = x.freed;
            },
          )
        ]

  switch_frame-Refines :
      (s : State T) (a : History) (port : ℕ) (f : Frame)
      → Refines h s a
      → port < 2 ^ 16
      → FrameReady h s port f
      → (s' : State T) × (a' : History) × (switch_frame h s port f ≡ some s')
        × (history_frame a port f ≡ some a')
        × Refines h s' a'
  switch_frame-Refines s a port f x small (long, room) =
      let (src, at_src) =
        is_some-eq_some (bytes_at f.bytes 6 6) (ground (arith, is_some-bytes_at f.bytes 6 5)) in
      let (dst, at_dst) =
        is_some-eq_some (bytes_at f.bytes 0 6) (ground (arith, is_some-bytes_at f.bytes 0 5)) in
      let (t, added) = room src at_src in
      frame-Refines s a port f x small src dst t at_src at_dst added

  switch_frames-Refines :
      (fs : List Frame) (s : State T) (a : History) (port : ℕ)
      → Refines h s a
      → port < 2 ^ 16
      → FramesReady h s port fs
      → (s' : State T) × (a' : History) × (switch_frames h s port fs ≡ some s')
        × (history_frames a port fs ≡ some a')
        × Refines h s' a'
  unfolding switch_frames history_frames
  switch_frames-Refines [] s a port x small ready = (s, a, refl, refl, x)
  switch_frames-Refines (f ∷ fs) s a port x small ready =
      let (s1, a1, ran, ran', y) = switch_frame-Refines s a port f x small ready.0 in
      let (s', a', rest, rest', z) = switch_frames-Refines fs s1 a1 port y small (ready.1 s1 ran) in
      (s', a', rw ran rest, rw ran' rest', z)

  -- The loop of l2fwd/veth_peer/main.c refines a specification that knows the source and port of
  -- every earlier frame: a frame is sent to the port where its destination was last seen, and to
  -- the other of the two ports if it never was, and is freed if the card refuses it. The
  -- conditions are that frames have their two addresses, ports are below 2^16, the table has room
  -- for each source, and it keeps the documented laws of rte_hash.
  pub switch_loop-Refines :
      (bs : List Burst) (s : State T) (a : History)
      → Refines h s a
      → AllReady h s bs
      → (s' : State T) × (a' : History) × (switch_loop h s bs ≡ some s')
        × (history_loop a bs ≡ some a')
        × Refines h s' a'
  unfolding switch_loop history_loop
  switch_loop-Refines [] s a x ready = (s, a, refl, refl, x)
  switch_loop-Refines (b ∷ bs) s a x (small, first, later) =
      let (s1, a1, ran, ran', y) = switch_frames-Refines b.frames s a b.port x small first in
      let (s', a', rest, rest', z) = switch_loop-Refines bs s1 a1 y (later s1 ran) in
      (s', a', rw ran rest, rw ran' rest', z)
