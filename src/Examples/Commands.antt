-- ===== src/Examples/Commands.antt =====
-- The command line at concrete inputs.
use whosecoin_core.Base.{
  ℕ, suc, replicate, ◌+◌, ◌≡◌, refl, arith, List, [], ◌∷◌, ◌++◌, pos, length, ok,
}
use whosecoin_core.Text.{codes}
use whosecoin_core.Cli.{CliHandler, Cli, cli_create, print_usage, read_stdin}
use whosecoin_core.Cli.Words.{AreWords, join}
use whosecoin_core.Cli.Dispatch.{Command, register, read_stdin-calls}
use whosecoin_core.Examples.Toy.{toy}
use whosecoin_core.Bytes.{AreBytes-replicate}
use whosecoin_core.Node.{start}
use whosecoin_core.Node.Commands.{Terminal, main_cli}
use whosecoin_core.Node.Commands.Send.{send_words, sent, send_line}

-- `value` leaves the state as it is, and `add` counts its arguments.
abbrev value_command : Command ℕ
value_command = record {
  name = codes "value";
  about = codes "Get current account value";
  action = λ args s. ok (pos 0, s);
}

abbrev add_command : Command ℕ
add_command = record {
  name = codes "add";
  about = codes "Count";
  action = λ args s. ok (pos 0, s + length args);
}

add_words-AreWords : AreWords (codes "add" ∷ codes "x" ∷ [])
add_words-AreWords = (
  omega arith,
  (
    omega arith,
    (λ e. absurd cc),
    (omega arith, (λ e. absurd cc), (omega arith, (λ e. absurd cc), tt)),
  ),
  (omega arith, (omega arith, (λ e. absurd cc), tt), tt),
)

read_stdin-calls_example :
    read_stdin (register cli_create (value_command ∷ add_command ∷ [])) (pos 6) (codes "add x\n") 5
    ≡ ok (codes ">>> ", 7)
unfolding whosecoin_core.Bytes.same_string
read_stdin-calls_example =
    read_stdin-calls (value_command ∷ []) [] add_command (codes "x" ∷ []) 10 [] 5 (refl, tt) tt
      add_words-AreWords

-- A word that is no command prints the usage.
read_stdin_unknown :
    read_stdin (register cli_create (value_command ∷ [])) (pos 5) (codes "help\n") 5
    ≡ ok (codes "Use the following commands: \n   value       Get current account value\n>>> ", 5)
unfolding whosecoin_core.Bytes.same_string read_stdin cli_create whosecoin_core.Cli.cli_add_command
read_stdin_unknown = refl

abbrev ones : List ℕ
ones = replicate 32 1

abbrev at_start : Terminal
at_start = record { node = start 7; printed = [] }

send_line_example :
    read_stdin
      (main_cli toy 1 ones ones)
      (pos (suc (length (join (send_words ones 12)))))
      (join (send_words ones 12) ++ 10 ∷ [])
      at_start
    ≡ ok (codes ">>> ", sent toy ones ones ones 12 at_start)
send_line_example =
    send_line toy ones ones ones 12 refl refl (AreBytes-replicate 32 1 (omega arith)) (omega arith)
      1 10 [] at_start
