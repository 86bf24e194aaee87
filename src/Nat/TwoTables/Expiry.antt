-- ===== src/Nat/TwoTables/Expiry.antt =====
-- rte_timer_manage with flow_timeout_cb in NAT/NAT_twoTables/main.c: the flows that time out.
use dpdk_code.Base.{
  subst, some_unique, ℕ, ◌≡◌, refl, sym, ap, ◌∙◌, none, some, arith, is_some, update, List, [], ◌∷◌,
  true, false, ◌||◌, elem, Distinct, if◌then◌else◌, is_some-eq_some,
}
use dpdk_code.Dpdk.Timers.{is_due}
use dpdk_code.Nat.Linked.{Linked, Linked-del, lookup-expired}
use dpdk_code.Nat.TwoTables.{
  Services, ServiceLaws, State, Entry, flow_timeout_cb, run_callbacks, timer_manage,
}
use dpdk_code.Nat.TwoTables.Invariant.{FwdKey-discrete, RevKey-discrete, IsEntry, IsValid}

-- Between the callbacks: the timers of the addresses in `ps` are stopped, their entries are live.
record Expiring {F R T : Type 0} (sv : Services F R T) (ps : List ℕ) (s : State F R T)
    : Type 0 where
  fwd : Linked sv.fwd (λ (e : Entry). e.fwd) s.fwd_table s.heap
  rev : Linked sv.rev (λ (e : Entry). e.rev) s.rev_table s.heap
  entries : (p : ℕ) (e : Entry) → s.heap p ≡ some e → IsEntry e
  ports :
      (p q : ℕ) (e f : Entry)
      → s.heap p ≡ some e
      → s.heap q ≡ some f
      → e.public_port ≡ f.public_port
      → p ≡ q
  armed : (p : ℕ) → is_some (s.heap p) ≡ (elem p ps || is_some (sv.timer.deadline s.timers p))
  stopped : (p : ℕ) → elem p ps ≡ true → sv.timer.deadline s.timers p ≡ none

module _ {F R T : Type 0} (sv : Services F R T) (laws : ServiceLaws sv) where
  abbrev removed : State F R T → ℕ → Entry → State F R T
  removed s p e = record s {
    fwd_table = sv.fwd.del s.fwd_table e.fwd;
    rev_table = sv.rev.del s.rev_table e.rev;
    heap = update s.heap p none;
  }

  removed-Expiring :
      (s : State F R T) (p : ℕ) (ps : List ℕ) (e : Entry)
      → s.heap p ≡ some e
      → elem p ps ≡ false
      → Expiring sv (p ∷ ps) s
      → Expiring sv ps (removed s p e)
  unfolding elem
  removed-Expiring s p ps e live once x = record {
    fwd = Linked-del FwdKey-discrete sv.fwd laws.fwd _ s.fwd_table s.heap p e x.fwd live;
    rev = Linked-del RevKey-discrete sv.rev laws.rev _ s.rev_table s.heap p e x.rev live;
    entries = λ q f at. x.entries q f (ground arith);
    ports = λ q r f g at at' same. x.ports q r f g (ground arith) (ground arith) same;
    armed = λ q. ground (arith, x.armed q, x.stopped p);
    stopped = λ q h. x.stopped q (ground arith);
  }

  run_callbacks-Expiring :
      (ps : List ℕ) (s : State F R T)
      → Distinct ps
      → Expiring sv ps s
      → (s' : State F R T) × (run_callbacks sv s ps ≡ some s')
        × Expiring sv [] s'
        × ((q : ℕ) → s'.heap q ≡ (if elem q ps then none else s.heap q))
        × (s'.timers ≡ s.timers)
  unfolding run_callbacks flow_timeout_cb elem
  run_callbacks-Expiring [] s d x = (s, refl, x, λ q. refl, refl)
  run_callbacks-Expiring (p ∷ ps) s d x =
      let (e, live) = is_some-eq_some (s.heap p) (ground (arith, x.armed p)) in
      let (s', run, y, gone, same) =
        run_callbacks-Expiring ps (removed s p e) d.1 (removed-Expiring s p ps e live d.0 x) in
      (s', rw live run, y, λ q. ground (arith, gone q), same)

  managed-Expiring :
      (s : State F R T) (now : ℕ)
      → IsValid sv s
      → Expiring sv
          (sv.timer.manage s.timers now).0
          (record s { timers = (sv.timer.manage s.timers now).1 })
  managed-Expiring s now v =
      let due = laws.timer.elem-manage s.timers now in
      let left = laws.timer.deadline-manage s.timers now in
      record {
        fwd = v.fwd;
        rev = v.rev;
        entries = v.entries;
        ports = v.ports;
        armed = λ q. ground (arith, v.armed q, due q, left q);
        stopped = λ q h. ground (arith, due q, left q);
      }

  pub timer_manage-IsValid :
      (s : State F R T) (now : ℕ)
      → IsValid sv s
      → (s' : State F R T) × (timer_manage sv s now ≡ some s')
        × IsValid sv s'
        × ((q : ℕ)
            → s'.heap q ≡ (if is_due (sv.timer.deadline s.timers q) now then none else s.heap q))
  unfolding timer_manage elem
  timer_manage-IsValid s now v =
      let ps = (sv.timer.manage s.timers now).0 in
      let t' = (sv.timer.manage s.timers now).1 in
      let (s', run, x, gone, same) =
        run_callbacks-Expiring ps (record s { timers = t' })
          (laws.timer.manage-Distinct s.timers now) (managed-Expiring s now v) in
      (
        s',
        run,
        record {
          fwd = x.fwd;
          rev = x.rev;
          entries = x.entries;
          ports = x.ports;
          armed = λ q. sym (x.armed q);
        },
        λ q.
            gone q ∙ ap (λ b. if b then none else s.heap q) (laws.timer.elem-manage s.timers now q),
      )

  module _ (s s' : State F R T) (now p : ℕ) (e : Entry) (v : IsValid sv s)
      (live : s.heap p ≡ some e) (run : timer_manage sv s now ≡ some s') where
    timer_manage_expires :
        (sv.fwd.lookup s'.fwd_table e.fwd
          ≡ (if is_due (sv.timer.deadline s.timers p) now then none else some p))
        × (sv.rev.lookup s'.rev_table e.rev
            ≡ (if is_due (sv.timer.deadline s.timers p) now then none else some p))
    timer_manage_expires =
        let (t, run', w, gone) = timer_manage-IsValid s now v in
        let due = λ (q : ℕ). is_due (sv.timer.deadline s.timers q) now in
        subst
          (λ (u : State F R T).
            (sv.fwd.lookup u.fwd_table e.fwd ≡ (if due p then none else some p))
            × (sv.rev.lookup u.rev_table e.rev ≡ (if due p then none else some p)))
          (some_unique run' run)
          (
            lookup-expired sv.fwd (λ (f : Entry). f.fwd) s.fwd_table t.fwd_table s.heap t.heap due p
                e v.fwd w.fwd gone live,
            lookup-expired sv.rev (λ (f : Entry). f.rev) s.rev_table t.rev_table s.heap t.heap due p
                e v.rev w.rev gone live,
          )

  -- On a valid state rte_timer_manage with its callbacks returns, never touching freed memory; the
  -- state stays valid, and exactly the entries whose timers are due are freed. A flow that was
  -- live is afterwards in neither table if its timer was due, and in both tables under its old
  -- entry if it was not. The tables and the timers keep the documented laws of rte_hash and
  -- rte_timer.
  pub timer_manage_exact :
      (s : State F R T) (now : ℕ)
      → IsValid sv s
      → (s' : State F R T) × (timer_manage sv s now ≡ some s')
        × IsValid sv s'
        × ((q : ℕ)
            → s'.heap q ≡ (if is_due (sv.timer.deadline s.timers q) now then none else s.heap q))
        × ((p : ℕ) (e : Entry)
            → s.heap p ≡ some e
            → (sv.fwd.lookup s'.fwd_table e.fwd
                ≡ (if is_due (sv.timer.deadline s.timers p) now then none else some p))
              × (sv.rev.lookup s'.rev_table e.rev
                  ≡ (if is_due (sv.timer.deadline s.timers p) now then none else some p)))
  timer_manage_exact s now v =
      let (s', run, w, gone) = timer_manage-IsValid s now v in
      (s', run, w, gone, λ p e live. timer_manage_expires s s' now p e v live run)
