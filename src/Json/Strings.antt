-- ===== src/Json/Strings.antt =====
-- The text of strings and keys.
use whosecoin_core.Base.{ℕ, List, [], ◌∷◌, ◌++◌, append_assoc, subst}
use whosecoin_core.Buffer.Appends.{Appends, Appends-then, putc-Appends, write-Appends}
use whosecoin_core.Json.{quote, json_write_string, json_write_key}

quote-Appends :
    (last : ℕ) (str : List ℕ) → Appends (quote last str) (b'"' ∷ (str ++ b'"' ∷ last ∷ []))
unfolding quote
quote-Appends last str = subst (Appends (quote last str)) (simp append_assoc) (
    Appends-then _ _
      (Appends-then _ _ (Appends-then _ _ (putc-Appends b'"') (write-Appends str))
        (putc-Appends b'"'))
      (putc-Appends last))

-- Writing a string appends it between quotes and a comma, and writing a key appends it between
-- quotes and a colon, as long as the buffer stays below 2 ^ 31 bytes.
pub json_write_string-Appends :
    (str : List ℕ)
    → Appends (json_write_string str) (b'"' ∷ (str ++ b'"' ∷ b',' ∷ []))
      × Appends (json_write_key str) (b'"' ∷ (str ++ b'"' ∷ b':' ∷ []))
unfolding json_write_string json_write_key
json_write_string-Appends str = (quote-Appends b',' str, quote-Appends b':' str)
