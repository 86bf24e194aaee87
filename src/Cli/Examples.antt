-- ===== src/Cli/Examples.antt =====
-- The line "set port 3 down".
use dpdk_code.Base.{ℕ, ◌≡◌, refl, some, List, [], ◌∷◌}
use dpdk_code.Dpdk.Cmdline.{Value, word, number, letters}
use dpdk_code.Dpdk.Models.Words.{words, words_laws, parse_words, store}
use dpdk_code.Cli.{set_port, tokens, setting, now_down, demo_set_port_parsed}
use dpdk_code.Cli.Lines.{Stored, commands_take_lines}

abbrev line : List (List ℕ)
line = letters "set" ∷ letters "port" ∷ letters "3" ∷ letters "down" ∷ []

abbrev stored : List Value
stored = word (letters "set") ∷ word (letters "port") ∷ number 3 ∷ word (letters "down") ∷ []

line_parsed : words.parse (tokens set_port) line ≡ some stored
unfolding parse_words store
line_parsed = refl

commands_take_lines_example : (set_port ≡ set_port) × Stored set_port stored
commands_take_lines_example =
    commands_take_lines words words_laws set_port set_port line stored stored line_parsed
      line_parsed

line_printed :
    demo_set_port_parsed 3 (letters "down") ≡ setting 3 (letters "down") ∷ now_down 3 ∷ []
unfolding demo_set_port_parsed
line_printed = refl
