-- ===== src/Nat/Wire/Round.antt =====
-- The loop of `main` in NAT/NWT_actualPkts/main.c.
use mathlib.Core.List.{append-nil}
use dpdk_code.Base.{
  ℕ, ◌+◌, ◌*◌, ◌^◌, ◌≤◌, ◌<◌, ◌≡◌, refl, sym, ◌∙◌, none, some, List, [], ◌∷◌, ◌++◌, map, arith,
  if◌then◌else◌,
}
use dpdk_code.Dpdk.Timers.{is_due}
use dpdk_code.Nat.Timed.{Services, ServiceLaws, seen, idle_round}
use dpdk_code.Nat.Timed.Invariant.{IsValid}
use dpdk_code.Nat.Timed.Packets.{seen-IsValid}
use dpdk_code.Nat.Timed.Idle.{idle_round_exact}
use dpdk_code.Nat.Wire.{Frame, Running, rx_burst, main_round}
use dpdk_code.Nat.Wire.Burst.{AllReady, Received, rx_frames-Received}

-- A burst that is not empty counts as traffic.
abbrev pub seen_burst : {T C : Type 0} → Running T C → ℕ → List Frame → Running T C
seen_burst r now [] = r
seen_burst r now (f ∷ fs) = record r { nat = seen r.nat now }

record SeenBurst {T C : Type 0} (r : Running T C) (now : ℕ) (r' : Running T C) : Type 0 where
  hz : r'.nat.hz ≡ r.nat.hz
  last : r'.nat.global_last_pkt ≤ now
  freed : r'.freed ≡ r.freed

start-SeenBurst :
    {T C : Type 0} (r : Running T C) (now : ℕ) (fs : List Frame)
    → r.nat.global_last_pkt ≤ now
    → SeenBurst r now (seen_burst r now fs)
start-SeenBurst r now [] later = record { hz = refl; last = later; freed = refl }
start-SeenBurst r now (f ∷ fs) later = record { hz = refl; last = omega arith; freed = refl }

module _ {T C : Type 0} (sv : Services T C) (laws : ServiceLaws sv) (slack : ℕ) where
  pub rx_burst-Received :
      (r : Running T C) (now : ℕ) (fs : List Frame)
      → IsValid sv slack r.nat
      → r.nat.global_last_pkt ≤ now
      → AllReady sv slack (seen_burst r now fs) fs
      → (r' : Running T C) × (rx_burst sv r now fs ≡ some r')
        × Received sv laws slack (seen_burst r now fs) r' fs
  unfolding rx_burst
  rx_burst-Received r now [] v later ready = (
    r,
    refl,
    record {
      valid = v;
      last = refl;
      flag = refl;
      hz = refl;
      freed = sym (append-nil r.freed);
      grows = λ k p found. found;
      flows = tt;
    },
  )
  rx_burst-Received r now (f ∷ fs) v later ready =
      rx_frames-Received sv laws slack (f ∷ fs) (seen_burst r now (f ∷ fs))
        (seen-IsValid sv laws slack r.nat now later v) refl ready

  -- A round of the loop of `main` on a valid state returns without a fault. After its burst every
  -- IPv4 frame has its flow in the table, the flows that were there are still there, and every
  -- mbuf was freed once, in order. At its end the state is valid, and of the entries after the
  -- burst exactly those are gone whose timers were due when the timers were managed. The
  -- conditions: each frame has an Ethernet header and each IPv4 frame the 38 bytes up to its
  -- ports, each timer is armed within `slack` of the last traffic, each new flow finds memory,
  -- room and a free port, time does not run backwards, 10 * hz and the clock fit into 64 bits, and
  -- less than five seconds, by `slack`, lie between rte_timer_manage and check_global_idle. The
  -- table and the timers keep the documented laws of rte_hash and rte_timer.
  pub main_round_exact :
      (r : Running T C) (now t last : ℕ) (fs : List Frame)
      → IsValid sv slack r.nat
      → r.nat.global_last_pkt ≤ now
      → AllReady sv slack (seen_burst r now fs) fs
      → now ≤ last
      → last < 2 ^ 64
      → 10 * r.nat.hz < 2 ^ 64
      → last + slack ≤ t + 5 * r.nat.hz
      → (r1 r' : Running T C) × (rx_burst sv r now fs ≡ some r1)
        × Received sv laws slack (seen_burst r now fs) r1 fs
        × (main_round sv r now fs t last ≡ some r')
        × IsValid sv slack r'.nat
        × (r'.freed ≡ r.freed ++ map (λ (f : Frame). f.mbuf) fs)
        × ((q : ℕ)
            → r'.nat.heap q
              ≡ (if is_due (sv.timer.deadline r1.nat.timers q) t then none else r1.nat.heap q))
  unfolding main_round idle_round
  main_round_exact r now t last fs v later ready after small fits prompt =
      let (r1, ran, x) = rx_burst-Received r now fs v later ready in
      let y = start-SeenBurst r now fs later in
      let hz : r1.nat.hz ≡ r.nat.hz = x.hz ∙ y.hz in
      let end : r1.nat.global_last_pkt ≤ last = omega (arith, x.last, y.last) in
      let (s', round, w, gone, lookups) =
        idle_round_exact sv laws slack r1.nat t last x.valid end small (omega (arith, hz, fits))
          (omega (arith, hz, prompt)) in
      (
        r1,
        record r1 { nat = s' },
        ran,
        x,
        ground (arith, ran, round),
        w,
        rw y.freed at x.freed,
        gone,
      )
