-- ===== src/Nat/SingleTable/Examples.antt =====
-- NAT/main.c on a concrete table with room for three keys: the test data of its `main`.
use dpdk_code.Base.{
  ℕ, ◌≡◌, ◌≢◌, ◌⊎◌, refl, Option, none, some, List, [], ◌∷◌, arith, ℕ_discrete, update,
  if◌then◌else◌,
}
use dpdk_code.Dpdk.Hash.{IterOps, IterLaws}
use dpdk_code.Dpdk.Iterate.{search_from}
use dpdk_code.Dpdk.Models.Table.{put}
use dpdk_code.Dpdk.Models.Slots.{slots, slots_laws, index_in, walk}
use dpdk_code.Nat.SingleTable.{
  State, Entry, NatKey, Packet, translated, nat_key, new_entry, public_ip, is_stale, touch,
  create_mapping, find_or_create, egress, ingress, nat_callback, clean_entry, cleanup_from,
  nat_cleanup,
}
use dpdk_code.Nat.SingleTable.Invariant.{NatKey-discrete, IsValid}
use dpdk_code.Nat.SingleTable.Egress.{Room, Admits, Served}
use dpdk_code.Nat.SingleTable.Ingress.{
  reply, run-Served, ByEntry, nat_callback_exact, nat_callback_round_trip, padding_splits_flow,
}
use dpdk_code.Nat.SingleTable.Cleanup.{nat_cleanup_exact}
use dpdk_code.Nat.SingleTable.Run.{Event, packet, cleanup, run, AllReady, calls-IsValid}

program : Unit {0}
unfolding touch create_mapping find_or_create egress ingress nat_callback clean_entry cleanup_from
    nat_cleanup search_from put index_in walk NatKey-discrete ℕ_discrete
program = tt

abbrev pkt : Packet
pkt = record {
  src_ip = 0xC0A80001;
  dst_ip = 0x08080808;
  src_port = 1234;
  dst_port = 80;
  protocol = 6;
  is_ingress = 0;
}

abbrev it : IterOps (NatKey → Option ℕ) NatKey ℕ
it = slots NatKey-discrete (nat_key 1 pkt ∷ nat_key 0 pkt ∷ [])

it_laws : IterLaws it
it_laws = slots_laws NatKey-discrete (nat_key 1 pkt ∷ nat_key 0 pkt ∷ [])

abbrev St : Type 0
St = State (NatKey → Option ℕ)

abbrev start : St
start = record {
  nat_table = λ k. none;
  next_port = 10000;
  timeout_cycles = 20000;
  heap = λ p. none;
}

start-IsValid : IsValid it start
start-IsValid = record {
  live = λ k p found. absurd (ground arith);
  owned = λ p e at. absurd (ground arith);
  single = λ k k' p found found'. absurd (ground arith);
  ports = λ p q e f at at' port. absurd (ground arith);
}

start_room : Admits it start (some 7) (nat_key 0 pkt)
unfolding program
start_room miss = (
  7,
  refl,
  record { table' = _; unused = refl; added = refl; port_free = λ q e at. absurd (ground arith) },
)

abbrev entry : Entry
entry = new_entry 100 10000 pkt

abbrev after : St
after = record start {
  nat_table = put NatKey-discrete (λ k. none) (nat_key 0 pkt) (some 7);
  next_port = 10001;
  heap = update (λ p. none) 7 (some entry);
}

abbrev out : Packet
out = record pkt { src_ip = public_ip; src_port = 10000 }

after_run : nat_callback it start 100 (some 7) 0 pkt ≡ some (after, out, translated)
unfolding program
after_run = refl

after-IsValid : IsValid it after
after-IsValid =
    (run-Served it it_laws start after 100 (some 7) 0 pkt out translated start-IsValid start_room
      refl after_run).valid

nat_callback_round_trip_example :
    (s'' : St) × (nat_callback it after 200 none 0 (reply out) ≡ some (s'', reply pkt, translated))
    × IsValid it s''
nat_callback_round_trip_example =
    nat_callback_round_trip it it_laws start after 100 200 (some 7) none 0 0 pkt out translated
      start-IsValid start_room refl after_run

abbrev stray : Packet
stray = record (reply out) { dst_port = 10001 }

nat_callback_exact_example :
    ((stray.is_ingress ≡ 0)
      × (s' : St) × (o : Packet) × (nat_callback it after 200 none 0 stray
          ≡ some (s', o, translated))
      × Served it 200 (nat_key 0 stray) stray s' o)
    ⊎ ((stray.is_ingress ≢ 0)
        × ByEntry it it_laws after 200 stray (nat_callback it after 200 none 0 stray))
nat_callback_exact_example =
    nat_callback_exact it it_laws after 200 none 0 stray after-IsValid (λ e. absurd (ground arith))

second_slot : Room it after (nat_key 1 pkt) 8
unfolding program
second_slot = record { table' = _; unused = refl; added = refl; port_free = λ q e at. ground arith }

-- The second packet of the demo, with other bytes left on the stack.
padding_splits_flow_example :
    (s' : St) × (o : Packet) × (f : Entry) × (nat_callback it after 200 (some 8) 1 pkt
      ≡ some (s', o, translated))
    × (s'.heap 7 ≡ some entry)
    × (s'.heap 8 ≡ some f)
    × (f.private_ip ≡ entry.private_ip)
    × (f.private_port ≡ entry.private_port)
    × (f.dest_ip ≡ entry.dest_ip)
    × (f.dest_port ≡ entry.dest_port)
    × (o.src_port ≡ f.public_port)
    × (o.src_port ≢ entry.public_port)
unfolding program
padding_splits_flow_example =
    padding_splits_flow it it_laws after 200 0 1 pkt 7 8 entry after-IsValid refl refl refl refl
      second_slot

nat_cleanup_exact_example :
    (s' : St) × (nat_cleanup it after 30000 ≡ some s')
    × IsValid it s'
    × ((k : NatKey) (p : ℕ) (e : Entry)
        → it.hash.lookup after.nat_table k ≡ some p
        → after.heap p ≡ some e
        → (it.hash.lookup s'.nat_table k ≡ (if is_stale 20000 30000 e then none else some p))
          × (s'.heap p ≡ (if is_stale 20000 30000 e then none else some e)))
    × ((k : NatKey)
        → it.hash.lookup after.nat_table k ≡ none
        → it.hash.lookup s'.nat_table k ≡ none)
nat_cleanup_exact_example = nat_cleanup_exact it it_laws after 30000 after-IsValid

abbrev calls : List Event
calls = packet 100 (some 7) 0 pkt ∷ packet 200 none 0 (reply out) ∷ cleanup 300 ∷ []

calls_ready : AllReady it start calls
calls_ready =
    (λ outward. start_room, λ s e. (λ outward. absurd (ground arith), λ s' e'. (tt, λ s'' e''. tt)))

calls-IsValid_example : (s' : St) × (run it start calls ≡ some s') × IsValid it s'
calls-IsValid_example = calls-IsValid it it_laws calls start start-IsValid calls_ready
