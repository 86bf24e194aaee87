-- ===== src/Nat/Timed/Idle.antt =====
-- check_global_idle of NAT/Nat_with_TIMER/nwt.c, and its place in the loop behind
-- rte_timer_manage.
use dpdk_code.Base.{
  ℕ, zero, suc, ◌+◌, ◌*◌, ◌^◌, ◌≤◌, ◌<◌, ◌≡◌, refl, ap, true, Option, none, some, arith, update,
  ltb, if◌then◌else◌, Option-cases, Bool-cases, inl, inr,
}
use dpdk_code.Dpdk.Iterate.{full_fuel}
use dpdk_code.Dpdk.Timers.{is_due}
use dpdk_code.Nat.Linked.{Linked, lookup-expired}
use dpdk_code.Nat.Timed.{
  Services, ServiceLaws, State, NatKey, Entry, is_idle, free_from, clear_table, check_global_idle,
  idle_round,
}
use dpdk_code.Nat.Timed.Invariant.{IsValid}
use dpdk_code.Nat.Timed.Expiry.{timer_manage-Expired}

module _ {T C : Type 0} (sv : Services T C) (laws : ServiceLaws sv) where
  -- The loop has freed the entries at the places below `i` of the table.
  record FreedBelow (s0 : State T C) (i : ℕ) (heap : ℕ → Option Entry) : Type 0 where
    unused : (q : ℕ) → s0.heap q ≡ none → heap q ≡ none
    freed :
        (q : ℕ) (e : Entry)
        → s0.heap q ≡ some e
        → heap q ≡ (if ltb (sv.table.place s0.nat_table e.key) i then none else some e)

  module _ (s0 : State T C)
      (linked : Linked sv.table.hash (λ (e : Entry). e.key) s0.nat_table s0.heap) where
    free_one :
        (i j : ℕ) (k : NatKey) (p : ℕ) (e : Entry) (heap : ℕ → Option Entry)
        → FreedBelow s0 i heap
        → sv.table.iterate s0.nat_table i ≡ some (k, p, j)
        → s0.heap p ≡ some e
        → e.key ≡ k
        → FreedBelow s0 j (update heap p none)
    free_one i j k p e heap x next live keyed =
        let at = laws.table.iterate-place s0.nat_table i j k p next in
        record {
          unused = λ q h. ground (arith, x.unused q h);
          freed = λ q f live'. ground (
            arith,
            at,
            x.freed q f live',
            linked.stored p e live,
            linked.stored q f live',
            laws.table.iterate-next s0.nat_table i j k f.key p q next (linked.stored q f live'),
          );
        }

    free_from-FreedBelow :
        (fuel i : ℕ) (heap : ℕ → Option Entry)
        → sv.table.size < i + fuel
        → i ≤ sv.table.size
        → FreedBelow s0 i heap
        → (heap' : ℕ → Option Entry) × (free_from sv fuel i (record s0 { heap = heap })
            ≡ some (record s0 { heap = heap' }))
          × ((q : ℕ) → heap' q ≡ none)
    unfolding free_from
    free_from-FreedBelow zero i heap enough inside x = absurd (omega arith)
    free_from-FreedBelow (suc fuel) i heap enough inside x =
        elim (Option-cases (sv.table.iterate s0.nat_table i)) [
          | inl end ↦ (
            heap,
            rw (end, free_from),
            λ q. elim (Option-cases (s0.heap q)) [
              | inl free ↦ x.unused q free
              | inr (e, live) ↦ ground (
                arith,
                x.freed q e live,
                laws.table.iterate-none s0.nat_table i e.key q end (linked.stored q e live),
              )
            ],
          )
          | inr ((k, p, j), next) ↦
              let found = laws.table.iterate-lookup s0.nat_table i j k p next in
              let at = laws.table.iterate-place s0.nat_table i j k p next in
              let inside' = laws.table.place-lt-size s0.nat_table k p found in
              let (e, live, keyed) = linked.live k p found in
              let still : heap p ≡ some e = ground (arith, x.freed p e live) in
              let (heap', ran, all) =
                free_from-FreedBelow fuel j (update heap p none) (omega arith) (omega arith)
                  (free_one i j k p e heap x next live keyed) in
              (heap', ground (arith, ran), all)
        ]

  -- What clearing leaves: the table and the heap are empty, and the timers are as they were.
  pub record Cleared (s s' : State T C) : Type 0 where
    pub heap : (q : ℕ) → s'.heap q ≡ none
    pub table : (k : NatKey) → sv.table.hash.lookup s'.nat_table k ≡ none
    pub timers : s'.timers ≡ s.timers
    pub flag : s'.table_cleared ≡ 1
    pub hz : s'.hz ≡ s.hz
    pub last : s'.global_last_pkt ≡ s.global_last_pkt

  pub clear_table-Cleared :
      (s : State T C)
      → Linked sv.table.hash (λ (e : Entry). e.key) s.nat_table s.heap
      → (s' : State T C) × (clear_table sv s ≡ some s') × Cleared s s'
  unfolding clear_table
  clear_table-Cleared s linked =
      let (heap', ran, all) =
        free_from-FreedBelow s linked (full_fuel sv.table) 0 s.heap (omega arith) (omega arith)
          (record { unused = λ q h. h; freed = λ q e live. ground arith }) in
      (
        record s { nat_table = sv.table.reset s.nat_table; heap = heap'; table_cleared = 1 },
        rw ran,
        record {
          heap = all;
          table = λ k. laws.table.lookup-reset s.nat_table k;
          timers = refl;
          flag = refl;
          hz = refl;
          last = refl;
        },
      )

  module _ (slack : ℕ) where
    no_timers-IsValid :
        (s s' : State T C)
        → Cleared s s'
        → ((q : ℕ) → sv.timer.deadline s.timers q ≡ none)
        → IsValid sv slack s'
    no_timers-IsValid s s' x stopped = record {
      linked = record {
        live = λ k p found. absurd (ground (arith, x.table k));
        stored = λ p e live. absurd (ground (arith, x.heap p));
      };
      entries = λ p e live. absurd (ground (arith, x.heap p));
      ports = λ p q e f live live' same. absurd (ground (arith, x.heap p));
      armed = λ p. ground (arith, x.heap p, ap (λ t. sv.timer.deadline t p) x.timers, stopped p);
      soon = λ p d at. absurd (ground (arith, ap (λ t. sv.timer.deadline t p) x.timers, stopped p));
    }

    idle_long :
        (s : State T C) (now : ℕ)
        → is_idle s now ≡ true
        → s.global_last_pkt ≤ now
        → now < 2 ^ 64
        → 10 * s.hz < 2 ^ 64
        → s.global_last_pkt + 10 * s.hz < now
    idle_long s now idle after small fits = ground arith

    -- Where nothing was seen for so long, every timer has run out.
    no_flow_left :
        (s s1 : State T C) (t now q : ℕ)
        → IsValid sv slack s
        → s.global_last_pkt + 10 * s.hz < now
        → now + slack ≤ t + 5 * s.hz
        → s1.heap q ≡ (if is_due (sv.timer.deadline s.timers q) t then none else s.heap q)
        → s1.heap q ≡ none
    no_flow_left s s1 t now q v long prompt gone =
        elim (Option-cases (sv.timer.deadline s.timers q)) [
          | inl stopped ↦ ground (arith, v.armed q)
          | inr (d, at) ↦
              let late : d ≤ t = omega (arith, v.soon q d at) in ground (arith, v.armed q)
        ]

    idle_round-IsValid :
        (s : State T C) (t now : ℕ)
        → IsValid sv slack s
        → s.global_last_pkt ≤ now
        → now < 2 ^ 64
        → 10 * s.hz < 2 ^ 64
        → now + slack ≤ t + 5 * s.hz
        → (s' : State T C) × (idle_round sv s t now ≡ some s')
          × IsValid sv slack s'
          × ((q : ℕ)
              → s'.heap q ≡ (if is_due (sv.timer.deadline s.timers q) t then none else s.heap q))
    unfolding idle_round check_global_idle
    idle_round-IsValid s t now v after small fits prompt =
        let (s1, ran, w, gone, same) = timer_manage-Expired sv laws slack s t v in
        elim (Bool-cases (is_idle s1 now)) [
          | inr busy ↦ (s1, ground (arith, ran), w, gone)
          | inl idle ↦
              let (s2, cleared, x) = clear_table-Cleared s1 w.linked in
              let long : s.global_last_pkt + 10 * s.hz < now =
                idle_long (record s { table_cleared = s1.table_cleared }) now (ground (arith, same))
                  after small fits in
              let none_left = λ (q : ℕ). no_flow_left s s1 t now q v long prompt (gone q) in
              (
                s2,
                ground (arith, ran, cleared),
                no_timers-IsValid s1 s2 x (λ q. ground (arith, w.armed q, none_left q)),
                λ q. ground (arith, x.heap q, none_left q, gone q),
              )
        ]

    -- A round of the loop of `main`, rte_timer_manage at `t` and check_global_idle at `now`, on a
    -- valid state returns without touching freed memory and leaves a valid state, in which exactly
    -- the entries are gone whose timers were due at `t`, so that clearing the idle table frees no
    -- flow that a timer still holds; a flow that was live has lost its key if its timer was due,
    -- and has it with the old entry if not. This is under the conditions that time does not run
    -- backwards, 10 * hz and the clock fit into 64 bits, and `now` is less than five seconds, by
    -- `slack`, behind `t`. The table and the timers keep the documented laws of rte_hash and
    -- rte_timer.
    pub idle_round_exact :
        (s : State T C) (t now : ℕ)
        → IsValid sv slack s
        → s.global_last_pkt ≤ now
        → now < 2 ^ 64
        → 10 * s.hz < 2 ^ 64
        → now + slack ≤ t + 5 * s.hz
        → (s' : State T C) × (idle_round sv s t now ≡ some s')
          × IsValid sv slack s'
          × ((q : ℕ)
              → s'.heap q ≡ (if is_due (sv.timer.deadline s.timers q) t then none else s.heap q))
          × ((p : ℕ) (e : Entry)
              → s.heap p ≡ some e
              → sv.table.hash.lookup s'.nat_table e.key
                ≡ (if is_due (sv.timer.deadline s.timers p) t then none else some p))
    idle_round_exact s t now v after small fits prompt =
        let (s', ran, w, gone) = idle_round-IsValid s t now v after small fits prompt in
        (
          s',
          ran,
          w,
          gone,
          λ p e live.
              lookup-expired sv.table.hash (λ (f : Entry). f.key) s.nat_table s'.nat_table s.heap
                s'.heap (λ q. is_due (sv.timer.deadline s.timers q) t) p e v.linked w.linked gone
                live,
        )
