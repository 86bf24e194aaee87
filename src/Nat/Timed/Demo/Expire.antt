-- ===== src/Nat/Timed/Demo/Expire.antt =====
-- The run of the test traffic of main in NAT/Nat_with_TIMER/nwt.c, and what its third packet does.
use dpdk_code.Base.{ap, ◌%◌, ℕ, ◌+◌, ◌*◌, ◌^◌, ◌≤◌, ◌≡◌, refl, ◌∙◌, none, some, arith}
use dpdk_code.Nat.Timed.{
  Services, ServiceLaws, State, Packet, NatKey, Entry, public_ip, nat_key, timer_manage,
}
use dpdk_code.Nat.Timed.Invariant.{IsValid}
use dpdk_code.Nat.Timed.Demo.{
  p1, p2, Call, call, main_traffic, Fits, quiet_expires, call-ne, call_lem,
}

module _ {T C : Type 0} (sv : Services T C) (laws : ServiceLaws sv) (slack : ℕ) where
  -- The flow of the first packet and that of the third are two, and the third packet has not armed
  -- the timer of the first flow again.
  abbrev pub Apart : Call → Call → ℕ → State T C → Type 0
  Apart c1 c3 hz s3 =
      (p q : ℕ) × (e f : Entry) × (s3.heap p ≡ some e)
      × (s3.heap q ≡ some f)
      × (e.key ≡ nat_key c1.stack p1)
      × (f.key.ip ≡ public_ip)
      × (f.key.port ≡ e.public_port)
      × (sv.timer.deadline s3.timers p ≡ some (c1.at + 5 * hz % 2 ^ 64))
      × (sv.timer.deadline s3.timers q ≡ some (c3.at + 5 * hz % 2 ^ 64))

  -- The test traffic of main runs from any valid state in which its three packets can be served:
  -- time does not run backwards, the timers are armed within `slack` ticks of the reading of the
  -- clock, and a new flow finds memory, room in the table and a free port. The third call is given
  -- the first packet as it was translated, so that it refreshes nothing: afterwards the flow of
  -- the first packet still has the timer that the first call armed, and the third packet has an
  -- entry of its own, whose key has the public address and the public port of the first flow. If
  -- `slack` is at most a second and rte_timer_manage runs six seconds after the third packet or
  -- later, it leaves no entry on the heap and no key in the table. The table and the timers keep
  -- the documented laws of rte_hash and rte_timer.
  pub demo_flows_expire :
      (s : State T C) (c1 c2 c3 : Call) (t : ℕ)
      → IsValid sv slack s
      → Fits sv laws slack s c1 p1
      → ((s1 : State T C) (out1 : Packet)
          → call sv s c1 p1 ≡ some (s1, out1)
          → Fits sv laws slack s1 c2 p2)
      → ((s1 s2 : State T C) (out1 out2 : Packet)
          → call sv s c1 p1 ≡ some (s1, out1)
          → call sv s1 c2 p2 ≡ some (s2, out2)
          → Fits sv laws slack s2 c3 out1)
      → slack ≤ s.hz
      → c3.now + 6 * s.hz ≤ t
      → (s3 s' : State T C) × (main_traffic sv s c1 c2 c3 ≡ some s3)
        × Apart c1 c3 s.hz s3
        × (timer_manage sv s3 t ≡ some s')
        × ((q : ℕ) → s'.heap q ≡ none)
        × ((k : NatKey) → sv.table.hash.lookup s'.nat_table k ≡ none)
  unfolding main_traffic
  demo_flows_expire s c1 c2 c3 t v fits1 fits2 fits3 quick quiet =
      let (s1, out1, e, ran1, leaves1, kept1, hz1) = call_lem sv laws slack s c1 p1 v fits1 refl in
      let (s2, out2, e2, ran2, leaves2, kept2, hz2) =
        call_lem sv laws slack s1 c2 p2 kept1.valid (fits2 s1 out1 ran1) refl in
      let room3 = fits3 s1 s2 out1 out2 ran1 ran2 in
      let outward : out1.is_ingress ≡ 0 = ap (λ (x : Packet). x.is_ingress) leaves1 in
      let ip : out1.src_ip ≡ public_ip = ap (λ (x : Packet). x.src_ip) leaves1 in
      let port : out1.src_port ≡ e.public_port = ap (λ (x : Packet). x.src_port) leaves1 in
      let (s3, out3, f, ran3, leaves3, kept3, hz3) =
        call_lem sv laws slack s2 c3 out1 kept2.valid room3 outward in
      let source : e.key.ip ≡ p1.src_ip = ap (λ (k : NatKey). k.ip) kept1.keyed in
      let (live2, due2) =
        call-ne sv laws slack s1 s2 c2 p2 out2 kept1.place e kept1.valid (fits2 s1 out1 ran1) refl
          kept1.live (λ same. absurd (omega (arith, source, ap (λ (k : NatKey). k.ip) same)))
          ran2 in
      let (live3, due3) =
        call-ne sv laws slack s2 s3 c3 out1 out3 kept1.place e kept2.valid room3 outward live2
          (λ same. absurd (omega (arith, source, ip, ap (λ (k : NatKey). k.ip) same))) ran3 in
      let (s', ran, empty, missing) =
        quiet_expires sv laws slack s3 t kept3.valid (omega (arith, kept3.last, hz1, hz2, hz3)) in
      (
        s3,
        s',
        rw (ran1, ran2, ran3) refl,
        (
          kept1.place,
          kept3.place,
          e,
          f,
          live3,
          kept3.live,
          kept1.keyed,
          ap (λ (k : NatKey). k.ip) kept3.keyed ∙ ip,
          ap (λ (k : NatKey). k.port) kept3.keyed ∙ port,
          due3 ∙ due2 ∙ kept1.armed ∙ ap (λ h. some (c1.at + 5 * h % 2 ^ 64)) hz1,
          kept3.armed ∙ ap (λ h. some (c3.at + 5 * h % 2 ^ 64)) (hz3 ∙ hz2 ∙ hz1),
        ),
        ran,
        empty,
        missing,
      )
