-- ===== src/Cli.antt =====
-- cli.c: the command line of a node. What it prints is a value of the result, without flushing,
-- and so is the state that the handlers change. The terminal is libuv's.
pub mod Words
pub mod Dispatch
use whosecoin_core.Base.{
  ℕ, zero, suc, ◌+◌, ◌-◌, ◌≡◌, refl, Bool, true, false, ◌||◌, List, [], ◌∷◌, ◌++◌, ltb, leb, ◌==◌,
  if◌then◌else◌, ℤ, pos, negsuc, is_zero, length, take, replicate, Run, ok, abort, fault, ◌>>=◌,
}
use whosecoin_core.Bytes.{same_string}
use whosecoin_core.Text.{codes}

-- What `strtok` leaves: the bytes before the first zero byte, or all of an array that ends in one.
unfoldable pub until_zero : List ℕ → List ℕ
until_zero [] = []
until_zero (b ∷ bs) = let rest = until_zero bs in if b == 0 then [] else b ∷ rest

-- A word that has ended is copied to the list, unless it is empty.
abbrev pub end_word : List ℕ → List (List ℕ) → List (List ℕ)
end_word [] words = words
end_word (b ∷ word) words = (b ∷ word) ∷ words

-- The words that `strtok(…, " ")` gives, `word` being read.
unfoldable pub split_from : List ℕ → List ℕ → List (List ℕ)
split_from word [] = end_word word []
split_from word (b ∷ bs) =
    let ended = end_word word (split_from [] bs) in
    let longer = split_from (word ++ b ∷ []) bs in if b == b' ' then ended else longer

unfoldable pub split : List ℕ → List (List ℕ)
unfolding until_zero split_from
split str = split_from [] (until_zero str)

-- `printf("   %-12s%s\n", cmd, usage)`
unfoldable pub usage_line : List ℕ → List ℕ → List ℕ
usage_line cmd usage =
    codes "   " ++ (cmd ++ (replicate (12 - length cmd) b' ' ++ (usage ++ b'\n' ∷ [])))

unfoldable pub usage_lines : List (List ℕ) → List (List ℕ) → Run (List ℕ)
unfolding usage_line
usage_lines [] usages = ok []
usage_lines (cmd ∷ cmds) [] = abort
usage_lines (cmd ∷ cmds) (usage ∷ usages) =
    usage_lines cmds usages >>= λ rest. ok (usage_line cmd usage ++ rest)

-- A handler has the list of the arguments, and returns an `int` and changes the state.
abbrev pub CliHandler : Type 0 → Type 0
CliHandler S = List (List ℕ) → S → Run (ℤ × S)

pub record Cli (S : Type 0) : Type 0 where
  pub command : List (List ℕ)
  pub usage : List (List ℕ)
  pub handler : List (CliHandler S)

module _ {S : Type 0} where
  unfoldable pub cli_create : Cli S
  cli_create = record { command = []; usage = []; handler = [] }

  unfoldable pub cli_add_command : Cli S → List ℕ → List ℕ → CliHandler S → Cli S
  cli_add_command self cmd usage handler = record {
    command = self.command ++ cmd ∷ [];
    usage = self.usage ++ usage ∷ [];
    handler = self.handler ++ handler ∷ [];
  }

  unfoldable pub print_usage : Cli S → Run (List ℕ)
  unfolding usage_lines
  print_usage self = usage_lines self.command self.usage >>= λ lines.
      ok (codes "Use the following commands: \n" ++ lines)

  -- The loop over the commands: every handler whose command is the first word is called. A handler
  -- that is missing stops at the assertion of `list_get`.
  unfoldable pub call_handlers :
      List ℕ → List (List ℕ) → List (List ℕ) → List (CliHandler S) → Bool → S → Run (Bool × S)
  call_handlers name args [] handlers handled s = ok (handled, s)
  call_handlers name args (cmd ∷ cmds) [] handled s = abort
  call_handlers name args (cmd ∷ cmds) (handler ∷ handlers) handled s =
      elim (same_string cmd name) [
        | true ↦ handler args s >>= λ r.
            call_handlers name args cmds handlers (handled || is_zero r.0) r.1
        | false ↦ call_handlers name args cmds handlers handled s
      ]

  -- From the words on.
  unfoldable pub run_command : Cli S → List (List ℕ) → S → Run (Bool × S)
  unfolding call_handlers
  run_command self [] s = ok (false, s)
  run_command self (name ∷ args) s =
      call_handlers name (name ∷ args) self.command self.handler false s

  -- What is printed to the terminal by `read_stdin` itself, and the state. The last byte that was
  -- read, the end of the line, becomes a zero byte.
  unfoldable pub read_stdin : Cli S → ℤ → List ℕ → S → Run (List ℕ × S)
  unfolding split run_command print_usage
  read_stdin self (negsuc n) base s =
      ok (if n == 0 then codes "error: cli: unable to read from stdin\n" else [], s)
  read_stdin self (pos zero) base s = ok ([], s)
  read_stdin self (pos (suc n)) base s = elim (leb (suc n) (length base)) [
    | false ↦ fault
    | true ↦ run_command self (split (take n base ++ 0 ∷ [])) s >>= λ r. elim r.0 [
      | true ↦ ok (codes ">>> ", r.1)
      | false ↦ print_usage self >>= λ text. ok (text ++ codes ">>> ", r.1)
    ]
  ]
