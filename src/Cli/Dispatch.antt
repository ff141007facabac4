-- ===== src/Cli/Dispatch.antt =====
-- cli.c: which handler a line of the terminal calls.
use whosecoin_core.Base.{
  ℕ, suc, ◌≡◌, refl, sym, ◌∙◌, Bool, true, false, List, [], ◌∷◌, ◌++◌, map, append_assoc,
  append-nil, arith, leb, pos, is_zero, length, length-append, take-append, Run, ok, abort, fault,
  out_of_fuel, ◌>>=◌,
}
use whosecoin_core.Bytes.{same_string, same_string_refl}
use whosecoin_core.Text.{codes}
use whosecoin_core.Cli.{
  CliHandler, Cli, cli_create, cli_add_command, call_handlers, run_command, print_usage, read_stdin,
}
use whosecoin_core.Cli.Words.{AreWords, join, split-join}

ok-then :
    {X Y Z : Type 0} (run : Run X) (f : X → Y) (g : Y → Run Z)
    → (run >>= (λ x. ok (f x)) >>= g) ≡ (run >>= λ x. g (f x))
ok-then (ok x) f g = refl
ok-then abort f g = refl
ok-then fault f g = refl
ok-then out_of_fuel f g = refl

pub record Command (S : Type 0) : Type 0 where
  pub name : List ℕ
  pub about : List ℕ
  pub action : CliHandler S

module _ {S : Type 0} where
  -- The commands are added one after the other.
  abbrev pub register : Cli S → List (Command S) → Cli S
  register self [] = self
  register self (c ∷ cs) = register (cli_add_command self c.name c.about c.action) cs

  -- None of the commands has the name.
  abbrev pub AreOther : List ℕ → List (Command S) → Type 0
  AreOther name [] = Unit
  AreOther name (c ∷ cs) = (same_string c.name name ≡ false) × AreOther name cs

  register-command :
      (self : Cli S) (cs : List (Command S))
      → (register self cs).command ≡ self.command ++ map (λ c. c.name) cs
  unfolding cli_add_command
  register-command self [] = sym (append-nil self.command)
  register-command self (c ∷ cs) =
      register-command (cli_add_command self c.name c.about c.action) cs
      ∙ append_assoc self.command (c.name ∷ []) (map (λ c. c.name) cs)

  register-handler :
      (self : Cli S) (cs : List (Command S))
      → (register self cs).handler ≡ self.handler ++ map (λ c. c.action) cs
  unfolding cli_add_command
  register-handler self [] = sym (append-nil self.handler)
  register-handler self (c ∷ cs) =
      register-handler (cli_add_command self c.name c.about c.action) cs
      ∙ append_assoc self.handler (c.action ∷ []) (map (λ c. c.action) cs)

  abbrev call : List ℕ → List (List ℕ) → List (Command S) → Bool → S → Run (Bool × S)
  call name args cs handled s =
      call_handlers name args (map (λ c. c.name) cs) (map (λ c. c.action) cs) handled s

  call-none :
      (name : List ℕ) (args : List (List ℕ)) (cs : List (Command S)) (handled : Bool) (s : S)
      → AreOther name cs
      → call name args cs handled s ≡ ok (handled, s)
  unfolding call_handlers
  call-none name args [] handled s h = refl
  call-none name args (c ∷ cs) handled s h =
      rw (h.0, call_handlers) (call-none name args cs handled s h.1)

  call-one :
      (args : List (List ℕ)) (before after : List (Command S)) (c : Command S) (s : S)
      → AreOther c.name before
      → AreOther c.name after
      → call c.name args (before ++ c ∷ after) false s
        ≡ (c.action args s >>= λ r. ok (is_zero r.0, r.1))
  unfolding call_handlers
  call-one args [] after c s h k =
      rw (same_string_refl c.name, call_handlers)
        (λ i. c.action args s >>= λ r. call-none c.name args after (is_zero r.0) r.1 k i)
  call-one args (b ∷ before) after c s h k =
      rw (h.0, call_handlers) (call-one args before after c s h.1 k)

  run_command-one :
      (before after : List (Command S)) (c : Command S) (args : List (List ℕ)) (s : S)
      → AreOther c.name before
      → AreOther c.name after
      → run_command (register cli_create (before ++ c ∷ after)) (c.name ∷ args) s
        ≡ (c.action (c.name ∷ args) s >>= λ r. ok (is_zero r.0, r.1))
  unfolding run_command cli_create
  run_command-one before after c args s h k =
      let cs = before ++ c ∷ after in
      rw (register-command cli_create cs, register-handler cli_create cs)
        (call-one (c.name ∷ args) before after c s h k)

  -- A line with the name of a registered command that no other has, with its arguments, calls the
  -- handler of the command once, with the name and the arguments, and prints the usage exactly if
  -- the handler does not return 0, and then the prompt.
  pub read_stdin-calls :
      (before after : List (Command S)) (c : Command S) (args : List (List ℕ)) (last : ℕ)
      (rest : List ℕ) (s : S)
      → AreOther c.name before
      → AreOther c.name after
      → AreWords (c.name ∷ args)
      → (let cli = register cli_create (before ++ c ∷ after) in
          let line = join (c.name ∷ args) in
          read_stdin cli (pos (suc (length line))) (line ++ last ∷ rest) s ≡ (
            c.action (c.name ∷ args) s >>= λ r. elim (is_zero r.0) [
              | true ↦ ok (codes ">>> ", r.1)
              | false ↦ print_usage cli >>= λ text. ok (text ++ codes ">>> ", r.1)
            ]))
  unfolding read_stdin
  read_stdin-calls before after c args last rest s h k words =
      let cs = before ++ c ∷ after in
      let cli = register cli_create cs in
      let line = join (c.name ∷ args) in
      let there : leb (suc (length line)) (length (line ++ last ∷ rest)) ≡ true =
        ground (arith, length-append line (last ∷ rest)) in
      rw
        (
          there,
          read_stdin,
          take-append line (last ∷ rest),
          split-join (c.name ∷ args) [] words,
          run_command-one before after c args s h k,
        )
        (ok-then (c.action (c.name ∷ args) s) _ _)
