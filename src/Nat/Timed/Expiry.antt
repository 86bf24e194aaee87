-- ===== src/Nat/Timed/Expiry.antt =====
-- rte_timer_manage with flow_timeout_cb in NAT/Nat_with_TIMER/nwt.c.
use dpdk_code.Base.{
  ℕ, ◌+◌, ◌*◌, ◌≤◌, ◌≡◌, refl, sym, ap, ◌∙◌, none, some, arith, is_some, update, List, [], ◌∷◌,
  true, false, ◌||◌, elem, Distinct, if◌then◌else◌, is_some-eq_some,
}
use dpdk_code.Dpdk.Timers.{is_due}
use dpdk_code.Nat.Linked.{Linked, Linked-del, lookup-expired}
use dpdk_code.Nat.Timed.{
  Services, ServiceLaws, State, Entry, flow_timeout_cb, run_callbacks, timer_manage,
}
use dpdk_code.Nat.Timed.Invariant.{NatKey-discrete, IsEntry, IsValid}

-- Between the callbacks: the timers of the addresses in `ps` are stopped, their entries are live.
record Expiring {T C : Type 0} (sv : Services T C) (slack : ℕ) (ps : List ℕ) (s : State T C)
    : Type 0 where
  linked : Linked sv.table.hash (λ (e : Entry). e.key) s.nat_table s.heap
  entries : (p : ℕ) (e : Entry) → s.heap p ≡ some e → IsEntry e
  ports :
      (p q : ℕ) (e f : Entry)
      → s.heap p ≡ some e
      → s.heap q ≡ some f
      → e.public_port ≡ f.public_port
      → p ≡ q
  armed : (p : ℕ) → is_some (s.heap p) ≡ (elem p ps || is_some (sv.timer.deadline s.timers p))
  stopped : (p : ℕ) → elem p ps ≡ true → sv.timer.deadline s.timers p ≡ none
  soon :
      (p d : ℕ) → sv.timer.deadline s.timers p ≡ some d → d ≤ s.global_last_pkt + slack + 5 * s.hz

-- The callbacks touch the table, the heap and the timers, and nothing else.
pub record SameGlobals {T C : Type 0} (s s' : State T C) : Type 0 where
  pub hz : s'.hz ≡ s.hz
  pub last : s'.global_last_pkt ≡ s.global_last_pkt
  pub flag : s'.table_cleared ≡ s.table_cleared
  pub port : s'.next_port ≡ s.next_port

module _ {T C : Type 0} (sv : Services T C) (laws : ServiceLaws sv) (slack : ℕ) where
  abbrev removed : State T C → ℕ → Entry → State T C
  removed s p e = record s {
    nat_table = sv.table.hash.del s.nat_table e.key;
    heap = update s.heap p none;
  }

  removed-Expiring :
      (s : State T C) (p : ℕ) (ps : List ℕ) (e : Entry)
      → s.heap p ≡ some e
      → elem p ps ≡ false
      → Expiring sv slack (p ∷ ps) s
      → Expiring sv slack ps (removed s p e)
  unfolding elem
  removed-Expiring s p ps e live once x = record {
    linked =
        Linked-del NatKey-discrete sv.table.hash laws.table.hash _ s.nat_table s.heap p e x.linked
          live;
    entries = λ q f at. x.entries q f (ground arith);
    ports = λ q r f g at at' same. ground (arith, x.ports q r f g);
    armed = λ q. ground (arith, x.armed q, x.stopped p);
    stopped = λ q h. x.stopped q (ground arith);
    soon = x.soon;
  }

  run_callbacks-Expiring :
      (ps : List ℕ) (s : State T C)
      → Distinct ps
      → Expiring sv slack ps s
      → (s' : State T C) × (run_callbacks sv s ps ≡ some s')
        × Expiring sv slack [] s'
        × ((q : ℕ) → s'.heap q ≡ (if elem q ps then none else s.heap q))
        × (s'.timers ≡ s.timers)
        × SameGlobals s s'
  unfolding run_callbacks flow_timeout_cb elem
  run_callbacks-Expiring [] s d x =
      (s, refl, x, λ q. refl, refl, record { hz = refl; last = refl; flag = refl; port = refl })
  run_callbacks-Expiring (p ∷ ps) s d x =
      let (e, live) = is_some-eq_some (s.heap p) (ground (arith, x.armed p)) in
      let (s', run, y, gone, same, globals) =
        run_callbacks-Expiring ps (removed s p e) d.1 (removed-Expiring s p ps e live d.0 x) in
      (
        s',
        rw live run,
        y,
        λ q. ground (arith, gone q),
        same,
        record { hz = globals.hz; last = globals.last; flag = globals.flag; port = globals.port },
      )

  managed-Expiring :
      (s : State T C) (now : ℕ)
      → IsValid sv slack s
      → Expiring sv slack
          (sv.timer.manage s.timers now).0
          (record s { timers = (sv.timer.manage s.timers now).1 })
  managed-Expiring s now v =
      let due = laws.timer.elem-manage s.timers now in
      let left = laws.timer.deadline-manage s.timers now in
      record {
        linked = v.linked;
        entries = v.entries;
        ports = v.ports;
        armed = λ q. ground (arith, v.armed q, due q, left q);
        stopped = λ q h. ground (arith, due q, left q);
        soon = λ q d at. v.soon q d (ground (arith, left q));
      }

  pub timer_manage-Expired :
      (s : State T C) (now : ℕ)
      → IsValid sv slack s
      → (s' : State T C) × (timer_manage sv s now ≡ some s')
        × IsValid sv slack s'
        × ((q : ℕ)
            → s'.heap q ≡ (if is_due (sv.timer.deadline s.timers q) now then none else s.heap q))
        × SameGlobals s s'
  unfolding timer_manage elem
  timer_manage-Expired s now v =
      let ps = (sv.timer.manage s.timers now).0 in
      let t' = (sv.timer.manage s.timers now).1 in
      let (s', run, x, gone, same, globals) =
        run_callbacks-Expiring ps (record s { timers = t' })
          (laws.timer.manage-Distinct s.timers now) (managed-Expiring s now v) in
      (
        s',
        run,
        record {
          linked = x.linked;
          entries = x.entries;
          ports = x.ports;
          armed = λ q. sym (x.armed q);
          soon = x.soon;
        },
        λ q.
            gone q ∙ ap (λ b. if b then none else s.heap q) (laws.timer.elem-manage s.timers now q),
        record { hz = globals.hz; last = globals.last; flag = globals.flag; port = globals.port },
      )

  pub manage_frees :
      (s : State T C) (now : ℕ)
      → IsValid sv slack s
      → (s' : State T C) × (timer_manage sv s now ≡ some s')
        × IsValid sv slack s'
        × ((p : ℕ) (e : Entry)
            → s.heap p ≡ some e
            → sv.table.hash.lookup s'.nat_table e.key
              ≡ (if is_due (sv.timer.deadline s.timers p) now then none else some p))
  manage_frees s now v =
      let (s', run, w, gone, globals) = timer_manage-Expired s now v in
      (
        s',
        run,
        w,
        λ p e live.
            lookup-expired sv.table.hash (λ (f : Entry). f.key) s.nat_table s'.nat_table s.heap
              s'.heap (λ q. is_due (sv.timer.deadline s.timers q) now) p e v.linked w.linked gone
              live,
      )
