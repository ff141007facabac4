-- ===== src/Node/Commands/Send.antt =====
-- main/main.c: what the send command does with a line of the terminal.
use whosecoin_core.Base.{
  ℕ, suc, ◌%◌, ◌^◌, ◌<◌, ◌≡◌, ◌≢◌, refl, ◌∙◌, some, subst, false, List, [], ◌∷◌, ◌++◌, arith, ◌==◌,
  pos, length, ok, ◌>>=◌,
}
use whosecoin_core.Crypto.{Crypto, crypto_sign_public_key_bytes}
use whosecoin_core.Text.{codes, digits, decimal}
use whosecoin_core.Text.Atoll.{AreDigits, decimal-AreSome, atoll-decimal}
use whosecoin_core.Hex.{hex_digit, hex_to_binary}
use whosecoin_core.Hex.RoundTrip.{hex_of, hex_to_binary-hex_of}
use whosecoin_core.Bytes.{AreBytes}
use whosecoin_core.Transaction.Read.{created, transaction_create-eq}
use whosecoin_core.Pool.{pool_add}
use whosecoin_core.Cli.{read_stdin}
use whosecoin_core.Cli.Words.{AreLetters, AreWords, join}
use whosecoin_core.Cli.Dispatch.{Command, read_stdin-calls}
use whosecoin_core.Node.{Node}
use whosecoin_core.Node.Sync.{send_value}
use whosecoin_core.Node.Commands.{
  Terminal, print_value, handle_public_key_command, handle_send_command, handle_pool_command,
  main_cli,
}

AreDigits-AreLetters : (cs : List ℕ) → AreDigits cs → AreLetters cs
AreDigits-AreLetters [] h = tt
AreDigits-AreLetters (c ∷ cs) h =
    (omega (arith, h.0), (λ e. absurd (omega (arith, h.0))), AreDigits-AreLetters cs h.2)

hex_of-AreLetters : (bytes : List ℕ) → AreLetters (hex_of bytes)
unfolding hex_digit
hex_of-AreLetters [] = tt
hex_of-AreLetters (b ∷ bytes) = (
  ground arith,
  (λ e. ground arith),
  (ground arith, (λ e. ground arith), hex_of-AreLetters bytes),
)

apart : {m n : ℕ} → (m == n) ≡ false → m ≢ n
apart h e = ground arith

length-hex_of : (bytes : List ℕ) → 0 < length bytes → 0 < length (hex_of bytes)
length-hex_of [] h = h
length-hex_of (b ∷ bytes) h = omega arith

-- The words of the command.
abbrev pub send_words : List ℕ → ℕ → List (List ℕ)
send_words recipient value = codes "send" ∷ decimal value ∷ hex_of recipient ∷ []

-- The node with the transaction in its pool.
abbrev pub sent : Crypto → List ℕ → List ℕ → List ℕ → ℕ → Terminal → Terminal
sent crypto pk sk recipient value t = record t {
  node = record t.node { pool = pool_add t.node.pool (created crypto pk sk recipient value 0) };
}

module _ (crypto : Crypto) (pk sk recipient : List ℕ) (value : ℕ)
    (pk_size : length pk ≡ crypto_sign_public_key_bytes)
    (recipient_size : length recipient ≡ crypto_sign_public_key_bytes) (bytes : AreBytes recipient)
    (small : value < 2 ^ 63) where
  send_value-eq :
      (node : Node)
      → send_value crypto pk sk node recipient value
        ≡ ok (record node { pool = pool_add node.pool (created crypto pk sk recipient value 0) })
  unfolding send_value
  send_value-eq node =
      let word : value % 2 ^ 64 ≡ value = omega arith in
      rw (
        word,
        transaction_create-eq crypto pk sk recipient value 0 pk_size recipient_size (omega arith)
            (omega arith),
      )

  handle_send_command-eq :
      (t : Terminal)
      → handle_send_command crypto pk sk (send_words recipient value) t
        ≡ ok (pos 0, sent crypto pk sk recipient value t)
  unfolding handle_send_command
  handle_send_command-eq t =
      let read : hex_to_binary 33 (hex_of recipient) 32 ≡ ok (some recipient) =
        subst (λ n. hex_to_binary 33 (hex_of recipient) n ≡ ok (some recipient)) recipient_size
          (hex_to_binary-hex_of recipient 33 bytes (omega arith) (omega arith)) in
      rw (atoll-decimal value small, ◌>>=◌, read, ◌>>=◌, send_value-eq t.node)

  words : AreWords (send_words recipient value)
  words =
      let (some_digits, digits) = decimal-AreSome value in
      (
        omega arith,
        (
          omega arith,
          apart refl,
          (omega arith, apart refl, (omega arith, apart refl, (omega arith, apart refl, tt))),
        ),
        (
          some_digits,
          AreDigits-AreLetters (decimal value) digits,
          (length-hex_of recipient (omega arith), hex_of-AreLetters recipient, tt),
        ),
      )

  -- The line of the send command, with the name, a value below 2 ^ 63 in decimal digits and the 32
  -- bytes of the recipient in hexadecimal ones, puts the transaction of that value into the pool,
  -- and prints the prompt.
  pub send_line :
      (fuel last : ℕ) (rest : List ℕ) (t : Terminal)
      → read_stdin
          (main_cli crypto fuel pk sk)
          (pos (suc (length (join (send_words recipient value)))))
          (join (send_words recipient value) ++ last ∷ rest)
          t
        ≡ ok (codes ">>> ", sent crypto pk sk recipient value t)
  unfolding main_cli whosecoin_core.Bytes.same_string
  send_line fuel last rest t =
      let value_c : Command Terminal = record {
        name = codes "value";
        about = codes "Get current account value";
        action = print_value fuel pk;
      } in
      let key_c : Command Terminal = record {
        name = codes "public_key";
        about = codes "Get current public key";
        action = handle_public_key_command pk;
      } in
      let send_c : Command Terminal = record {
        name = codes "send";
        about = codes "Send value to recipient";
        action = handle_send_command crypto pk sk;
      } in
      let pool_c : Command Terminal = record {
        name = codes "pool";
        about = codes "Get transaction pool info";
        action = handle_pool_command;
      } in
      read_stdin-calls (value_c ∷ key_c ∷ []) (pool_c ∷ []) send_c
        (decimal value ∷ hex_of recipient ∷ []) last rest t (refl, (refl, tt)) (refl, tt) words
      ∙ (rw (handle_send_command-eq t))
