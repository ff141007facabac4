-- ===== src/Buffer/Appends.antt =====
-- What a function that writes to a growing buffer promises, and how such functions are chained.
use whosecoin_core.Base.{
  ℕ, ◌+◌, ◌^◌, ◌<◌, refl, sym, List, [], ◌∷◌, ◌++◌, append_assoc, append-nil, arith, length,
  length-append, Run, ok, ◌>>=◌, Returns, Returns-bind, subst,
}
use whosecoin_core.Buffer.{Buffer, dynamic_buffer_write, dynamic_buffer_putc}
use whosecoin_core.Buffer.Refines.{Holds, dynamic_buffer_write-Holds, dynamic_buffer_putc-Holds}

-- The function returns, and the buffer then holds `out` behind what it held, as long as the whole
-- stays below 2 ^ 31 bytes.
abbrev pub Appends : (Buffer → Run Buffer) → List ℕ → Type 0
Appends f out =
    (b : Buffer) (bs : List ℕ)
    → Holds b bs
    → length bs + length out < 2 ^ 31
    → Returns (f b) λ c. Holds c (bs ++ out)

pub putc-Appends : (c : ℕ) → Appends (dynamic_buffer_putc c) (c ∷ [])
putc-Appends c b bs h small = dynamic_buffer_putc-Holds c b bs h small

pub write-Appends : (src : List ℕ) → Appends (dynamic_buffer_write src) src
write-Appends src b bs h small = dynamic_buffer_write-Holds src b bs h small

pub ok-Appends : Appends ok []
ok-Appends b bs h small = (b, refl, subst (Holds b) (sym (append-nil bs)) h)

pub Appends-then :
    {f g : Buffer → Run Buffer} (x y : List ℕ)
    → Appends f x
    → Appends g y
    → Appends (λ b. f b >>= g) (x ++ y)
Appends-then x y p q b bs h small =
    let size = length-append x y in
    Returns-bind (p b bs h (omega arith)) λ c held.
      let (d, run, end) = q c (bs ++ x) held (omega (arith, length-append bs x)) in
      (d, run, subst (Holds d) (append_assoc bs x y) end)
