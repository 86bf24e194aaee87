-- ===== src/Cli.antt =====
-- CLI_lib/cmdline_demo.c and CLI_lib/Live_Stats_using_CLI/cli/: the commands and their callbacks.
-- The output of the command that shows live statistics is in Stats.
pub mod Lines
mod Examples
use dpdk_code.Base.{ℕ, Bool, true, Option, none, some, List, [], ◌∷◌, if◌then◌else◌}
use dpdk_code.Dpdk.Cmdline.{Token, string, num, Value, word, number, letters, same_text}

pub data Command : Type 0 where
  show_port_stats set_port exit : Command

-- What is printed: fixed texts, and the lines with the values of a `set` line.
pub data Line : Type 0 where
  showing port_0 exiting : Line
  setting : ℕ → List ℕ → Line
  now_up now_down : ℕ → Line

abbrev pub cmd_show_port_stats : List Token
cmd_show_port_stats =
    string (letters "show") ∷ string (letters "port") ∷ string (letters "stats") ∷ []

abbrev pub cmd_set_port : List Token
cmd_set_port =
    string (letters "set") ∷ string (letters "port") ∷ num ∷ string (letters "up#down") ∷ []

abbrev pub cmd_exit : List Token
cmd_exit = string (letters "exit") ∷ []

abbrev pub tokens : Command → List Token
tokens show_port_stats = cmd_show_port_stats
tokens set_port = cmd_set_port
tokens exit = cmd_exit

-- The contexts of the two programs.
abbrev pub main_ctx : List Command
main_ctx = show_port_stats ∷ set_port ∷ []

abbrev pub get_cli_ctx : List Command
get_cli_ctx = show_port_stats ∷ set_port ∷ exit ∷ []

-- `port_id` and `status` of a result struct.
abbrev pub set_port_result : List Value → Option (ℕ × List ℕ)
set_port_result (word set ∷ word port ∷ number port_id ∷ word status ∷ []) = some (port_id, status)
set_port_result _ = none

-- cmdline_demo.c
abbrev pub demo_show_port_stats_parsed : List Line
demo_show_port_stats_parsed = showing ∷ port_0 ∷ []

unfoldable pub demo_set_port_parsed : ℕ → List ℕ → List Line
demo_set_port_parsed port_id status =
    setting port_id status
    ∷ (if same_text status (letters "up") then now_up port_id ∷ [] else now_down port_id ∷ [])

-- cmd_set.c
unfoldable pub set_port_parsed : ℕ → List ℕ → List Line
set_port_parsed port_id status = setting port_id status ∷ []

-- cmd_exit.c: the line, and whether the command line ends.
abbrev pub exit_parsed : Line × Bool
exit_parsed = (exiting, true)
