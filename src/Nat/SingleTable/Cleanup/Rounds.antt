-- ===== src/Nat/SingleTable/Cleanup/Rounds.antt =====
-- One round of the loop of nat_cleanup in NAT/main.c.
use dpdk_code.Base.{
  ℕ, ◌≡◌, ◌≢◌, sym, ap, ◌∙◌, Bool, true, false, ◌&&◌, none, some, arith, update, Option-cases,
  Bool-cases, inl, inr, some_unique, ltb, if◌then◌else◌, dec_lt,
}
use dpdk_code.Dpdk.Hash.{IterOps, IterLaws}
use dpdk_code.Nat.SingleTable.{State, Entry, NatKey, is_stale, clean_entry}
use dpdk_code.Nat.SingleTable.Invariant.{NatKey-discrete, IsValid}

module _ {T : Type 0} (it : IterOps T NatKey ℕ) (laws : IterLaws it) where
  abbrev removed : State T → NatKey → ℕ → State T
  removed s k p = record s { nat_table = it.hash.del s.nat_table k; heap = update s.heap p none }

  removed-IsValid :
      (s : State T) (k : NatKey) (p : ℕ)
      → it.hash.lookup s.nat_table k ≡ some p
      → IsValid it s
      → IsValid it (removed s k p)
  removed-IsValid s k p found v = record {
    live = λ q r found'. elim (NatKey-discrete q k) [
      | yes same ↦ absurd (ground (arith, self))
      | no other ↦
          let before = sym (ne q other) ∙ found' in
          let (e, at, flow) = v.live q r before in (e, ground (arith, v.single q k p), flow)
    ];
    owned = λ r e at. let (q, found') = v.owned r e (ground arith) in (q, ground (arith, ne q));
    single = λ q q' r found' found''.
        v.single q q' r (ground (arith, self, ne q)) (ground (arith, self, ne q'));
    ports = λ a b x y hx hy port. v.ports a b x y (ground arith) (ground arith) port;
  }
    where
      self : it.hash.lookup (it.hash.del s.nat_table k) k ≡ none
      self = laws.hash.lookup-del_self s.nat_table k

      ne :
          (q : NatKey)
          → q ≢ k
          → it.hash.lookup (it.hash.del s.nat_table k) q ≡ it.hash.lookup s.nat_table q
      ne q = laws.hash.lookup-del_ne s.nat_table k q

  module _ (now : ℕ) (s0 : State T) where
    -- The walk has passed the places below `i` of the table that it began with.
    abbrev pub passed : ℕ → NatKey → Entry → Bool
    passed i k e = ltb (it.place s0.nat_table k) i && is_stale s0.timeout_cycles now e

    pub record Cleaned (i : ℕ) (s : State T) : Type 0 where
      pub valid : IsValid it s
      pub timeout : s.timeout_cycles ≡ s0.timeout_cycles
      pub port : s.next_port ≡ s0.next_port
      pub place : (k : NatKey) → it.place s.nat_table k ≡ it.place s0.nat_table k
      pub table :
          (k : NatKey) (p : ℕ) (e : Entry)
          → it.hash.lookup s0.nat_table k ≡ some p
          → s0.heap p ≡ some e
          → it.hash.lookup s.nat_table k ≡ (if passed i k e then none else some p)
      pub memory :
          (k : NatKey) (p : ℕ) (e : Entry)
          → it.hash.lookup s0.nat_table k ≡ some p
          → s0.heap p ≡ some e
          → s.heap p ≡ (if passed i k e then none else some e)
      pub absent :
          (k : NatKey) → it.hash.lookup s0.nat_table k ≡ none → it.hash.lookup s.nat_table k ≡ none

    -- The entry that the walk comes to is one of those that it began with.
    visited :
        (i : ℕ) (s : State T) (k : NatKey) (p : ℕ) (e : Entry)
        → IsValid it s0
        → Cleaned i s
        → it.hash.lookup s.nat_table k ≡ some p
        → s.heap p ≡ some e
        → (it.hash.lookup s0.nat_table k ≡ some p) × (s0.heap p ≡ some e)
    visited i s k p e v c found at = elim (Option-cases (it.hash.lookup s0.nat_table k)) [
      | inl new ↦ absurd (ground (arith, c.absent k))
      | inr (p0, old) ↦
          let (e0, at0, flow) = v.live k p0 old in ground (arith, c.table k p0 e0, c.memory k p0 e0)
    ]

    -- A round of the walk passes one key and no other.
    passed_other :
        (i j : ℕ) (s : State T) (k q : NatKey) (p r : ℕ) (e : Entry)
        → it.iterate s.nat_table i ≡ some (k, p, j)
        → Cleaned i s
        → it.hash.lookup s0.nat_table q ≡ some r
        → s0.heap r ≡ some e
        → q ≢ k
        → passed j q e ≡ passed i q e
    passed_other i j s k q p r e next c old at other =
        let here = laws.iterate-place s.nat_table i j k p next in
        elim (Bool-cases (passed i q e)) [
          | inl gone ↦ ground (arith, c.place k)
          | inr kept ↦
              let found : it.hash.lookup s.nat_table q ≡ some r =
                c.table q r e old at ∙ ap (λ b. if b then none else some r) kept in
              elim (dec_lt (it.place s0.nat_table q) i) [
                | yes before ↦ ground (arith, c.place k)
                | no after ↦
                    elim (laws.iterate-next s.nat_table i j k q p r next found
                      (omega (arith, c.place q))) [
                        | inl same ↦ absurd (other same)
                        | inr later ↦ ground (arith, c.place q)
                      ]
              ]
        ]

    module _ (i j : ℕ) (s : State T) (k : NatKey) (p : ℕ) (e : Entry) (v : IsValid it s0)
        (next : it.iterate s.nat_table i ≡ some (k, p, j)) (c : Cleaned i s)
        (old : it.hash.lookup s0.nat_table k ≡ some p) (at0 : s0.heap p ≡ some e)
        (found : it.hash.lookup s.nat_table k ≡ some p) (at : s.heap p ≡ some e) where
      reached : ltb (it.place s0.nat_table k) j ≡ true
      reached = let here = laws.iterate-place s.nat_table i j k p next in ground (arith, c.place k)

      same_key :
          (q : NatKey) (r : ℕ) (f : Entry)
          → q ≡ k
          → it.hash.lookup s0.nat_table q ≡ some r
          → s0.heap r ≡ some f
          → (r ≡ p) × (f ≡ e) × (passed j q f ≡ is_stale s0.timeout_cycles now e)
      same_key q r f same here live =
          let eq : r ≡ p = some_unique here (rw same old) in
          let eq' : f ≡ e = some_unique live (rw eq at0) in (eq, eq', rw (same, eq', reached))

      stale-Cleaned : is_stale s0.timeout_cycles now e ≡ true → Cleaned j (removed s k p)
      stale-Cleaned stale = record {
        valid = removed-IsValid s k p found c.valid;
        timeout = c.timeout;
        port = c.port;
        place = λ q. laws.place-del s.nat_table k q ∙ c.place q;
        table = λ q r f here live. elim (NatKey-discrete q k) [
          | yes same ↦
              ground (arith, same_key q r f same here live, laws.hash.lookup-del_self s.nat_table k)
          | no other ↦ ground (
            arith,
            laws.hash.lookup-del_ne s.nat_table k q other,
            c.table q r f here live,
            passed_other i j s k q p r f next c here live other,
          )
        ];
        memory = λ q r f here live. elim (NatKey-discrete q k) [
          | yes same ↦ ground (arith, same_key q r f same here live)
          | no other ↦ ground (
            arith,
            v.single q k r here,
            c.memory q r f here live,
            passed_other i j s k q p r f next c here live other,
          )
        ];
        absent = λ q new. ground (
          arith,
          c.absent q new,
          laws.hash.lookup-del_self s.nat_table k,
          laws.hash.lookup-del_ne s.nat_table k q,
        );
      }

      fresh-Cleaned : is_stale s0.timeout_cycles now e ≡ false → Cleaned j s
      fresh-Cleaned fresh = record {
        valid = c.valid;
        timeout = c.timeout;
        port = c.port;
        place = c.place;
        table = λ q r f here live. elim (NatKey-discrete q k) [
          | yes same ↦ ground (arith, same_key q r f same here live)
          | no other ↦
              c.table q r f here live
              ∙ ap (λ b. if b then none else some r)
                  (sym (passed_other i j s k q p r f next c here live other))
        ];
        memory = λ q r f here live. elim (NatKey-discrete q k) [
          | yes same ↦ ground (arith, same_key q r f same here live)
          | no other ↦
              c.memory q r f here live
              ∙ ap (λ b. if b then none else some f)
                  (sym (passed_other i j s k q p r f next c here live other))
        ];
        absent = c.absent;
      }

    pub step-Cleaned :
        (i j : ℕ) (s : State T) (k : NatKey) (p : ℕ)
        → IsValid it s0
        → it.iterate s.nat_table i ≡ some (k, p, j)
        → Cleaned i s
        → (s' : State T) × (clean_entry it s now k p ≡ some s') × Cleaned j s'
    unfolding clean_entry
    step-Cleaned i j s k p v next c =
        let found = laws.iterate-lookup s.nat_table i j k p next in
        let at = laws.iterate-place s.nat_table i j k p next in
        let (e, live, flow) = c.valid.live k p found in
        elim (Bool-cases (is_stale s.timeout_cycles now e)) [
          | inl stale ↦ (
            removed s k p,
            ground arith,
            stale-Cleaned i j s k p e v next c (visited i s k p e v c found live).0
                (visited i s k p e v c found live).1 found live (rw c.timeout at stale),
          )
          | inr fresh ↦ (
            s,
            ground arith,
            fresh-Cleaned i j s k p e v next c (visited i s k p e v c found live).0
                (visited i s k p e v c found live).1 found live (rw c.timeout at fresh),
          )
        ]
