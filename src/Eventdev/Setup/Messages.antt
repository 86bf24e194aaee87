-- ===== src/Eventdev/Setup/Messages.antt =====
-- A message of Eventdev/Parsing/main.c that no call can reach.
use dpdk_code.Base.{
  ℕ, zero, suc, ◌%◌, ◌^◌, ◌≡◌, ◌≢◌, Option, none, some, List, [], ◌∷◌, ltb, ◌==◌, arith, inl, inr,
  Bool-cases, false,
}
use dpdk_code.Dpdk.Ethernet.{EthOps}
use dpdk_code.Dpdk.EventSetup.{EventSetupOps}
use dpdk_code.Eventdev.{rx_q, tx_q}
use dpdk_code.Eventdev.Setup.{
  Reason, Stage, goes_on, exits, ◌>>=◌, check, check_links, setup_ports, eventdev_init, main,
  port_init, event_port_setup, event_port_link, no_eventdev,
}

-- The result is not an exit with this message.
abbrev pub Avoids : {A : Type 0} → Reason → Stage A → Type 0
Avoids q (goes_on a) = Unit {0}
Avoids q (exits r) = r ≢ q

>>=-Avoids :
    {A B : Type 0} (q : Reason) (m : Stage A) (f : A → Stage B)
    → Avoids q m
    → ((a : A) → Avoids q (f a))
    → Avoids q (m >>= f)
>>=-Avoids q (goes_on a) f h g = g a
>>=-Avoids q (exits r) f h g = h

check-Avoids : {A : Type 0} (q r : Reason) (c : ℕ × A) → r ≢ q → Avoids q (check r c)
check-Avoids q r (zero, a) h = tt
check-Avoids q r (suc e, a) h = h

check_links-Avoids :
    {A : Type 0} (q : Reason) (c : ℕ × A) → event_port_link ≢ q → Avoids q (check_links c)
check_links-Avoids q (n, a) h = elim (Bool-cases (n == 2)) [ inl e ↦ rw e tt | inr e ↦ rw e h ]

module _ {V : Type 0} (ev : EventSetupOps V) where
  setup_ports-Avoids :
      (evdev_id : ℕ) (lcores : List ℕ) (p : ℕ) (v : V) (m : ℕ → ℕ)
      → Avoids no_eventdev (setup_ports ev evdev_id lcores p (v, m))
  unfolding setup_ports
  setup_ports-Avoids id [] p v m = tt
  setup_ports-Avoids id (lcore ∷ rest) p v m =
      >>=-Avoids _ _ _ (check-Avoids _ event_port_setup (ev.port_setup v id p) (λ z. cc)) (λ v1.
        >>=-Avoids _ _ _ (check_links-Avoids _ (ev.port_link v1 id p _) (λ z. cc))
          (λ v2. setup_ports-Avoids id rest _ v2 _))

  -- An identifier of 8 bits is never below 0.
  eventdev_init-Avoids :
      (found : ℕ) (workers : List ℕ) (n : ℕ) (v : V) (m : ℕ → ℕ)
      → Avoids no_eventdev (eventdev_init ev found workers n (v, m))
  unfolding eventdev_init
  eventdev_init-Avoids found workers n v m =
      let id = found % 2 ^ 8 in
      let never : ltb id 0 ≡ false = ground arith in
      rw never (
        >>=-Avoids _ _ _ (check-Avoids _ _ (ev.configure v id 2 n) (λ z. cc)) (λ v1.
          >>=-Avoids _ _ _ (check-Avoids _ _ (ev.queue_setup v1 id rx_q) (λ z. cc)) (λ v2.
            >>=-Avoids _ _ _ (check-Avoids _ _ (ev.queue_setup v2 id tx_q) (λ z. cc)) (λ v3.
              >>=-Avoids _ _ _ (setup_ports-Avoids id workers 0 v3 m) (λ vm.
                >>=-Avoids _ _ _ (check-Avoids _ _ (ev.dev_start vm.0 id) (λ z. cc)) (λ v5. tt))))))

  port_init-Avoids :
      {D : Type 0} (eth : EthOps D) (nb_ports : ℕ) (d : D)
      → Avoids no_eventdev (port_init eth nb_ports d)
  unfolding port_init
  port_init-Avoids eth nb_ports d = elim (Bool-cases (nb_ports == 0)) [
    | inl e ↦ rw e (λ z. cc)
    | inr e ↦ rw e (
        >>=-Avoids _ _ _ (check-Avoids _ _ (eth.configure d 0 1 1) (λ z. cc)) (λ d1.
          >>=-Avoids _ _ _ (check-Avoids _ _ (eth.rx_queue_setup d1 0) (λ z. cc)) (λ d2.
            >>=-Avoids _ _ _ (check-Avoids _ _ (eth.tx_queue_setup d2 0) (λ z. cc))
              (λ d3. check-Avoids _ _ (eth.dev_start d3 0) (λ z. cc)))))
  ]

  pub main-Avoids :
      {D : Type 0} (eth : EthOps D) (max_lcore : ℕ) (pool : Option ℕ) (workers : List ℕ)
      (nb_ports found : ℕ) (d : D) (v : V) (m : ℕ → ℕ)
      → Avoids no_eventdev (main ev eth max_lcore pool workers nb_ports found d (v, m))
  unfolding main
  main-Avoids eth max_lcore none workers nb_ports found d v m = λ z. cc
  main-Avoids eth max_lcore (some a) workers nb_ports found d v m =
      >>=-Avoids _ _ _ (port_init-Avoids eth nb_ports d)
        (λ d'. >>=-Avoids _ _ _ (eventdev_init-Avoids found workers _ v m) (λ vm. tt))
