-- ===== src/Eventdev/Setup/Exits.antt =====
-- How many event ports eventdev_init asks for, and how many it sets up.
use dpdk_code.Base.{
  ℕ, zero, suc, ◌+◌, ◌-◌, ◌%◌, ◌^◌, ◌≤◌, ◌<◌, ◌≡◌, ◌≢◌, Option, none, some, List, [], ◌∷◌, length,
  ltb, ◌==◌, ◌∙◌, if◌then◌else◌, arith, ap, refl, inl, inr, Bool-cases, sym, true, false, Bool,
  dec_lt,
}
use dpdk_code.Dpdk.Ethernet.{EthOps}
use dpdk_code.Dpdk.EventSetup.{EventSetupOps, EventSetupLaws}
use dpdk_code.Eventdev.{rx_q, tx_q}
use dpdk_code.Eventdev.Setup.{
  Reason, Stage, goes_on, exits, ◌>>=◌, check, check_links, Started, setup_ports, eventdev_init,
  main, port_init, assign, event_port_setup, event_port_link, eventdev_configure, no_eventdev,
  rx_q_setup, tx_q_setup,
}
use dpdk_code.Eventdev.Setup.Messages.{Avoids, main-Avoids}

check-eq-goes_on :
    {A B : Type 0} (r : Reason) (c : ℕ × A) (k : A → Stage B) {b : B}
    → (check r c >>= k) ≡ goes_on b
    → (c.0 ≡ 0) × (k c.1 ≡ goes_on b)
check-eq-goes_on r (zero, a) k h = (refl, h)
check-eq-goes_on r (suc e, a) k h = absurd (cc)

check_links-eq-goes_on :
    {A B : Type 0} (c : ℕ × A) (k : A → Stage B) {b : B}
    → (check_links c >>= k) ≡ goes_on b
    → k c.1 ≡ goes_on b
check_links-eq-goes_on (n, a) k h = elim (Bool-cases (n == 2)) [
  | inl two ↦
      ap (λ (t : Bool). (if t then goes_on a else exits event_port_link) >>= k) (sym two) ∙ h
  | inr not_two ↦ absurd (ground arith)
]

>>=-eq-goes_on :
    {A B : Type 0} (first : Stage A) (rest : A → Stage B) {end : B}
    → (first >>= rest) ≡ goes_on end
    → (result : A) × (first ≡ goes_on result) × (rest result ≡ goes_on end)
>>=-eq-goes_on (exits message) rest h = absurd (cc)
>>=-eq-goes_on (goes_on result) rest h = (result, refl, h)

else-eq-goes_on :
    {A : Type 0} (t : Bool) (r : Reason) (m : Stage A) {a : A}
    → (if t then exits r else m) ≡ goes_on a
    → m ≡ goes_on a
else-eq-goes_on true r m h = absurd (cc)
else-eq-goes_on false r m h = h

module _ {V : Type 0} (ev : EventSetupOps V) (laws : EventSetupLaws ev) where
  setup_ports_fit :
      (evdev_id : ℕ) (lcores : List ℕ) (p n : ℕ) (v : V) (m : ℕ → ℕ) {r : V × (ℕ → ℕ)}
      → ev.nb_event_ports v evdev_id ≡ n
      → p ≤ n
      → n < 2 ^ 8
      → setup_ports ev evdev_id lcores p (v, m) ≡ goes_on r
      → p + length lcores ≤ n
  unfolding setup_ports
  setup_ports_fit id [] p n v m configured low small h = omega arith
  setup_ports_fit id (lcore ∷ rest) p n v m configured low small h =
      let v1 = (ev.port_setup v id p).1 in
      let queues = rx_q ∷ tx_q ∷ [] in
      let v2 = (ev.port_link v1 id p queues).1 in
      let (set, h1) = check-eq-goes_on event_port_setup (ev.port_setup v id p) _ h in
      let h2 = check_links-eq-goes_on (ev.port_link v1 id p queues) _ h1 in
      let kept : ev.nb_event_ports v2 id ≡ n =
        laws.nb_event_ports-port_link v1 id p queues
        ∙ laws.nb_event_ports-port_setup v id p
        ∙ configured in
      elim (dec_lt p n) [
        | no over ↦ absurd (laws.port_setup_refuses v id p (omega arith) set)
        | yes below ↦
            let wraps : (p + 1) % 2 ^ 8 ≡ p + 1 = omega arith in
            omega (
              arith,
              setup_ports_fit id rest ((p + 1) % 2 ^ 8) n v2 (assign m lcore p) kept (omega arith)
                  small h2,
            )
      ]

  eventdev_init_fits :
      (found : ℕ) (workers : List ℕ) (n : ℕ) (v : V) (m : ℕ → ℕ) {r : V × (ℕ → ℕ)}
      → n < 2 ^ 8
      → eventdev_init ev found workers n (v, m) ≡ goes_on r
      → length workers ≤ n
  unfolding eventdev_init
  eventdev_init_fits found workers n v m small h =
      let id = found % 2 ^ 8 in
      let v1 = (ev.configure v id 2 n).1 in
      let v2 = (ev.queue_setup v1 id rx_q).1 in
      let v3 = (ev.queue_setup v2 id tx_q).1 in
      let (set, h1) =
        check-eq-goes_on eventdev_configure (ev.configure v id 2 n) _
          (else-eq-goes_on (ltb id 0) no_eventdev _ h) in
      let (e2, h2) = check-eq-goes_on rx_q_setup (ev.queue_setup v1 id rx_q) _ h1 in
      let (e3, h3) = check-eq-goes_on tx_q_setup (ev.queue_setup v2 id tx_q) _ h2 in
      let (vm, h4, h5) = >>=-eq-goes_on (setup_ports ev id workers 0 (v3, m)) _ h3 in
      omega (
        arith,
        setup_ports_fit id workers 0 n v3 m
            (laws.nb_event_ports-queue_setup v2 id tx_q
              ∙ laws.nb_event_ports-queue_setup v1 id rx_q
              ∙ laws.nb_event_ports-configure v id 2 n set)
            (omega arith) small h4,
      )

  too_few :
      {D : Type 0} (eth : EthOps D) (max_lcore : ℕ) (pool : Option ℕ) (lcore : ℕ) (rest : List ℕ)
      (nb_ports found : ℕ) (d : D) (v : V) (m : ℕ → ℕ) (s : Started D V)
      → main ev eth max_lcore pool (lcore ∷ rest) nb_ports found d (v, m) ≢ goes_on s
  unfolding main
  too_few eth max_lcore none lcore rest nb_ports found d v m s h = cc
  too_few eth max_lcore (some a) lcore rest nb_ports found d v m s h =
      let workers = lcore ∷ rest in
      let n = (1 + length workers + 2 ^ 8 - 2) % 2 ^ 8 in
      let (d', h1, h2) = >>=-eq-goes_on (port_init eth nb_ports d) _ h in
      let (vm, h3, h4) = >>=-eq-goes_on (eventdev_init ev found workers n (v, m)) _ h2 in
      let fits = eventdev_init_fits found workers n v m (omega arith) h3 in omega arith

  -- With one worker core or more, main of Eventdev/Parsing/main.c exits before it launches a loop,
  -- whatever the devices answer, and never with the message that event_sw0 was not found. The
  -- event device keeps the documented law that a port number which was not configured is refused.
  pub main_exits :
      {D : Type 0} (eth : EthOps D) (max_lcore : ℕ) (pool : Option ℕ) (lcore : ℕ) (rest : List ℕ)
      (nb_ports found : ℕ) (d : D) (v : V) (m : ℕ → ℕ)
      → (r : Reason) × (r ≢ no_eventdev)
        × (main ev eth max_lcore pool (lcore ∷ rest) nb_ports found d (v, m) ≡ exits r)
  main_exits eth max_lcore pool lcore rest nb_ports found d v m =
      go (main ev eth max_lcore pool (lcore ∷ rest) nb_ports found d (v, m)) _ refl
        (too_few eth max_lcore pool lcore rest nb_ports found d v m)
        (main-Avoids ev eth max_lcore pool (lcore ∷ rest) nb_ports found d v m)
    where
      go :
          {A : Type 0} (run o : Stage A)
          → run ≡ o
          → ((a : A) → run ≢ goes_on a)
          → Avoids no_eventdev o
          → (r : Reason) × (r ≢ no_eventdev) × (run ≡ exits r)
      go run (goes_on a) h no_ok avoids = absurd (no_ok a h)
      go run (exits r) h no_ok avoids = (r, avoids, h)
