-- ===== src/Cli/Lines.antt =====
-- Which lines the commands take, and what a `set` line prints.
use dpdk_code.Base.{
  ℕ, ◌<◌, ◌^◌, ◌≡◌, ◌⊎◌, inl, inr, refl, sym, ap, ◌∙◌, true, some, List, [], ◌∷◌, arith,
}
use dpdk_code.Dpdk.Cmdline.{
  Token, string, num, Value, word, number, Agree, CmdlineOps, CmdlineLaws, letters, same_text,
  choices, is_among,
}
use dpdk_code.Cli.{
  Command, show_port_stats, set_port, exit, setting, now_up, now_down, tokens, set_port_result,
  demo_set_port_parsed, set_port_parsed,
}

-- The word that a command begins with.
abbrev keyword : Command → List ℕ
keyword show_port_stats = letters "show"
keyword set_port = letters "set"
keyword exit = letters "exit"

same_text-eq : (s t : List ℕ) → same_text s t ≡ true → s ≡ t
same_text-eq [] [] h = refl
same_text-eq [] (d ∷ t) h = absurd (cc)
same_text-eq (c ∷ s) [] h = absurd (cc)
same_text-eq (c ∷ s) (d ∷ t) h = ground (arith, same_text-eq s t)

among_one : (w x : List ℕ) → is_among w (x ∷ []) ≡ true → w ≡ x
among_one w x h = ground (arith, same_text-eq w x)

among_two : (w x y : List ℕ) → is_among w (x ∷ y ∷ []) ≡ true → (w ≡ x) ⊎ (w ≡ y)
among_two w x y h = ground (arith, same_text-eq w x, same_text-eq w y)

Agree-keyword :
    (c : Command) (w : List ℕ) (ws : List (List ℕ)) (vs : List Value)
    → Agree (tokens c) (w ∷ ws) vs
    → w ≡ keyword c
Agree-keyword show_port_stats w ws (word v ∷ vs) h = among_one w (letters "show") h.0
Agree-keyword set_port w ws (word v ∷ vs) h = among_one w (letters "set") h.0
Agree-keyword exit w ws (word v ∷ vs) h = among_one w (letters "exit") h.0
Agree-keyword show_port_stats w ws [] h = absurd h
Agree-keyword set_port w ws [] h = absurd h
Agree-keyword exit w ws [] h = absurd h
Agree-keyword show_port_stats w ws (number n ∷ vs) h = absurd h
Agree-keyword set_port w ws (number n ∷ vs) h = absurd h
Agree-keyword exit w ws (number n ∷ vs) h = absurd h

keyword-injective : (c e : Command) → keyword c ≡ keyword e → c ≡ e
keyword-injective show_port_stats show_port_stats h = refl
keyword-injective set_port set_port h = refl
keyword-injective exit exit h = refl
keyword-injective show_port_stats set_port h = absurd (ground arith)
keyword-injective show_port_stats exit h = absurd (ground arith)
keyword-injective set_port show_port_stats h = absurd (ground arith)
keyword-injective set_port exit h = absurd (ground arith)
keyword-injective exit show_port_stats h = absurd (ground arith)
keyword-injective exit set_port h = absurd (ground arith)

-- What the two programs print for port `n` and a status.
abbrev pub PrintsSetting : ℕ → List ℕ → Type 0
PrintsSetting n status =
    (set_port_parsed n status ≡ setting n status ∷ [])
    × (((status ≡ letters "up")
          × (demo_set_port_parsed n status ≡ setting n status ∷ now_up n ∷ []))
        ⊎ ((status ≡ letters "down")
            × (demo_set_port_parsed n status ≡ setting n status ∷ now_down n ∷ [])))

status_lines :
    (n : ℕ) (status : List ℕ)
    → (status ≡ letters "up") ⊎ (status ≡ letters "down")
    → PrintsSetting n status
unfolding set_port_parsed demo_set_port_parsed
status_lines n status (inl up) = (refl, inl (up, rw up refl))
status_lines n status (inr down) = (refl, inr (down, rw down refl))

abbrev pub SetLine : List Value → Type 0
SetLine vs =
    (n : ℕ) × (status : List ℕ) × (set_port_result vs ≡ some (n, status))
    × (n < 2 ^ 16)
    × PrintsSetting n status

Agree-string :
    (s : List ℕ) (ts : List Token) (ws : List (List ℕ)) (vs : List Value)
    → Agree (string s ∷ ts) ws vs
    → (w : List ℕ) × (us : List (List ℕ)) × (xs : List Value) × (vs ≡ word w ∷ xs)
      × (is_among w (choices s) ≡ true)
      × Agree ts us xs
Agree-string s ts [] vs h = absurd h
Agree-string s ts (w ∷ ws) [] h = absurd h
Agree-string s ts (w ∷ ws) (number n ∷ vs) h = absurd h
Agree-string s ts (w ∷ ws) (word v ∷ vs) (among, same, rest) =
    (w, ws, vs, ap (λ (t : List ℕ). word t ∷ vs) same, among, rest)

Agree-num :
    (ts : List Token) (ws : List (List ℕ)) (vs : List Value)
    → Agree (num ∷ ts) ws vs
    → (n : ℕ) × (us : List (List ℕ)) × (xs : List Value) × (vs ≡ number n ∷ xs)
      × (n < 2 ^ 16)
      × Agree ts us xs
Agree-num ts [] vs h = absurd h
Agree-num ts (w ∷ ws) [] h = absurd h
Agree-num ts (w ∷ ws) (word v ∷ vs) h = absurd h
Agree-num ts (w ∷ ws) (number n ∷ vs) (small, rest) = (n, ws, vs, refl, small, rest)

Agree-nil : (ws : List (List ℕ)) (vs : List Value) → Agree [] ws vs → vs ≡ []
Agree-nil [] [] h = refl
Agree-nil [] (v ∷ vs) h = absurd h
Agree-nil (w ∷ ws) [] h = absurd h
Agree-nil (w ∷ ws) (v ∷ vs) h = absurd h

Agree-SetLine : (ws : List (List ℕ)) (vs : List Value) → Agree (tokens set_port) ws vs → SetLine vs
Agree-SetLine ws vs h =
    let ts3 = string (letters "up#down") ∷ [] in
    let ts2 = num ∷ ts3 in
    let ts1 = string (letters "port") ∷ ts2 in
    let (set, ws1, vs1, e1, a1, h1) = Agree-string (letters "set") ts1 ws vs h in
    let (port, ws2, vs2, e2, a2, h2) = Agree-string (letters "port") ts2 ws1 vs1 h1 in
    let (n, ws3, vs3, e3, small, h3) = Agree-num ts3 ws2 vs2 h2 in
    let (status, ws4, vs4, e4, a4, h4) = Agree-string (letters "up#down") [] ws3 vs3 h3 in
    let e5 = Agree-nil ws4 vs4 h4 in
    (
      n,
      status,
      rw (e1, e2, e3, e4, e5) refl,
      small,
      status_lines n status (among_two status (letters "up") (letters "down") a4),
    )

-- What is stored for a line of each command.
abbrev pub Stored : Command → List Value → Type 0
Stored show_port_stats vs =
    vs ≡ word (letters "show") ∷ word (letters "port") ∷ word (letters "stats") ∷ []
Stored set_port vs = SetLine vs
Stored exit vs = vs ≡ word (letters "exit") ∷ []

stored : (c : Command) (ws : List (List ℕ)) (vs : List Value) → Agree (tokens c) ws vs → Stored c vs
stored show_port_stats ws vs h =
    let ts2 = string (letters "stats") ∷ [] in
    let ts1 = string (letters "port") ∷ ts2 in
    let (show, ws1, vs1, e1, a1, h1) = Agree-string (letters "show") ts1 ws vs h in
    let (port, ws2, vs2, e2, a2, h2) = Agree-string (letters "port") ts2 ws1 vs1 h1 in
    let (stats, ws3, vs3, e3, a3, h3) = Agree-string (letters "stats") [] ws2 vs2 h2 in
    cc (
      e1,
      e2,
      e3,
      Agree-nil ws3 vs3 h3,
      among_one show (letters "show") a1,
      among_one port (letters "port") a2,
      among_one stats (letters "stats") a3,
    )
stored set_port ws vs h = Agree-SetLine ws vs h
stored exit ws vs h =
    let (leave, ws1, vs1, e1, a1, h1) = Agree-string (letters "exit") [] ws vs h in
    cc (e1, Agree-nil ws1 vs1 h1, among_one leave (letters "exit") a1)

module _ (cl : CmdlineOps) (laws : CmdlineLaws cl) where
  one_command :
      (c e : Command) (ws : List (List ℕ)) (vs xs : List Value)
      → cl.parse (tokens c) ws ≡ some vs
      → cl.parse (tokens e) ws ≡ some xs
      → c ≡ e
  one_command show_port_stats e [] vs xs h g = absurd (laws.parse-Agree _ _ _ h)
  one_command set_port e [] vs xs h g = absurd (laws.parse-Agree _ _ _ h)
  one_command exit e [] vs xs h g = absurd (laws.parse-Agree _ _ _ h)
  one_command c e (w ∷ ws) vs xs h g = keyword-injective c e (
      sym (Agree-keyword c w ws vs (laws.parse-Agree (tokens c) (w ∷ ws) vs h))
      ∙ Agree-keyword e w ws xs (laws.parse-Agree (tokens e) (w ∷ ws) xs g))

  -- A line of words is taken by at most one of the commands for statistics, for setting a port and
  -- for exit, and what is stored for a command is its own keywords; for setting a port it is a
  -- number below 2^16 and a status that is up or down, for which CLI_lib/cmdline_demo.c prints
  -- that the port is up if it is up and down if it is down, and the program with live statistics
  -- prints the setting alone. The command line library takes one word for each token.
  pub commands_take_lines :
      (c e : Command) (ws : List (List ℕ)) (vs xs : List Value)
      → cl.parse (tokens c) ws ≡ some vs
      → cl.parse (tokens e) ws ≡ some xs
      → (c ≡ e) × Stored c vs
  commands_take_lines c e ws vs xs h g =
      (one_command c e ws vs xs h g, stored c ws vs (laws.parse-Agree (tokens c) ws vs h))
