-- ===== src/L2fwd/Switch/Conservation.antt =====
-- l2fwd/veth_peer/main.c sends or frees each frame once.
use dpdk_code.Base.{
  ℕ, ◌+◌, ◌≡◌, some, List, [], ◌∷◌, ◌++◌, map, count, count-append, arith, Option-cases, inl, inr,
}
use dpdk_code.Dpdk.Hash.{HashOps, HashLaws}
use dpdk_code.Parsing.{bytes_at}
use dpdk_code.L2fwd.Switch.{
  State, Frame, Burst, learn, out_port, switch_frame, switch_frames, switch_loop,
}
use dpdk_code.L2fwd.Switch.History.{History, history_loop}
use dpdk_code.L2fwd.Switch.Learning.{Refines, AllReady, switch_loop-Refines}

-- The mbufs of what was sent, of a burst, and of several.
abbrev pub sent_mbufs : List (ℕ × ℕ) → List ℕ
sent_mbufs xs = map (λ (x : ℕ × ℕ). x.1) xs

abbrev pub frame_mbufs : List Frame → List ℕ
frame_mbufs fs = map (λ (f : Frame). f.mbuf) fs

abbrev pub burst_mbufs : List Burst → List ℕ
burst_mbufs [] = []
burst_mbufs (b ∷ bs) = frame_mbufs b.frames ++ burst_mbufs bs

abbrev pub handled : {T : Type 0} → ℕ → State T → ℕ
handled p s = count p (sent_mbufs s.sent) + count p s.freed

count-sent_mbufs :
    (p : ℕ) (xs : List (ℕ × ℕ)) (o m : ℕ)
    → count p (sent_mbufs (xs ++ ((o, m) ∷ []))) ≡ count p (sent_mbufs xs) + count p (m ∷ [])
count-sent_mbufs p [] o m = ground arith
count-sent_mbufs p (x ∷ xs) o m = ground (arith, count-sent_mbufs p xs o m)

module _ {T : Type 0} (h : HashOps T (List ℕ) ℕ) (p : ℕ) where
  handled-frame :
      (s s' : State T) (port : ℕ) (f : Frame)
      → switch_frame h s port f ≡ some s'
      → handled p s' ≡ handled p s + count p (f.mbuf ∷ [])
  unfolding switch_frame
  handled-frame s s' port f ran = elim (Option-cases (bytes_at f.bytes 6 6)) [
    | inl short ↦ absurd (ground arith)
    | inr (src, at_src) ↦ elim (Option-cases (bytes_at f.bytes 0 6)) [
      | inl short ↦ absurd (ground arith)
      | inr (dst, at_dst) ↦ ground (
        arith,
        count-append p s.freed (f.mbuf ∷ []),
        count-sent_mbufs p s.sent (out_port h (learn h s.l2_hash port src) port dst) f.mbuf,
      )
    ]
  ]

  handled-frames :
      (fs : List Frame) (s s' : State T) (port : ℕ)
      → switch_frames h s port fs ≡ some s'
      → handled p s' ≡ handled p s + count p (frame_mbufs fs)
  unfolding switch_frames
  handled-frames [] s s' port ran = ground arith
  handled-frames (f ∷ fs) s s' port ran = elim (Option-cases (switch_frame h s port f)) [
    | inl fault ↦ absurd (ground arith)
    | inr (s1, ran1) ↦ ground (arith, handled-frame s s1 port f ran1, handled-frames fs s1 s' port)
  ]

  handled-loop :
      (bs : List Burst) (s s' : State T)
      → switch_loop h s bs ≡ some s'
      → handled p s' ≡ handled p s + count p (burst_mbufs bs)
  unfolding switch_loop
  handled-loop [] s s' ran = ground arith
  handled-loop (b ∷ bs) s s' ran = elim (Option-cases (switch_frames h s b.port b.frames)) [
    | inl fault ↦ absurd (ground arith)
    | inr (s1, ran1) ↦ ground (
      arith,
      handled-frames b.frames s s1 b.port ran1,
      handled-loop bs s1 s',
      count-append p (frame_mbufs b.frames) (burst_mbufs bs),
    )
  ]

-- From a state that agrees with a history of earlier frames, when frames have their two addresses,
-- ports are below 2^16, and the table has room for each source, the loop of l2fwd/veth_peer/main.c
-- returns without a fault and does what the specification does: each frame goes to the port where
-- its destination was last seen as a source, this frame included, and else to the other port,
-- unless the card does not take it and it is freed; afterwards the state agrees with the longer
-- history. Each mbuf is sent or freed as often as it came in. The table keeps the documented laws
-- of rte_hash.
pub switch_loop_exact :
    {T : Type 0} (h : HashOps T (List ℕ) ℕ) (laws : HashLaws h) (s : State T) (a : History)
    (bs : List Burst)
    → Refines h s a
    → AllReady h s bs
    → (s' : State T) × (a' : History) × (switch_loop h s bs ≡ some s')
      × (history_loop a bs ≡ some a')
      × Refines h s' a'
      × ((p : ℕ) → handled p s' ≡ handled p s + count p (burst_mbufs bs))
switch_loop_exact h laws s a bs x ready =
    let (s', a', ran, ran', y) = switch_loop-Refines h laws bs s a x ready in
    (s', a', ran, ran', y, λ p. handled-loop h p bs s s' ran)
