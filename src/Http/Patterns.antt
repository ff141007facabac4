-- ===== src/Http/Patterns.antt =====
-- What a pattern of http.c with parameters matches.
use whosecoin_core.Base.{
  ℕ, ◌≡◌, ◌≢◌, refl, ap, ◌∙◌, arith, true, false, some, List, [], ◌∷◌, ◌++◌, append-nil,
  append_assoc, ◌==◌,
}
use whosecoin_core.Http.{segment, resolve_pattern, request_create}

-- A piece of a pattern: a byte that stands for itself, or a ':' with what stands for it in a URL.
pub data Piece : Type 0 where
  literal : ℕ → Piece
  param : List ℕ → Piece

abbrev pub pattern_of : List Piece → List ℕ
pattern_of [] = []
pattern_of (literal c ∷ ps) = c ∷ pattern_of ps
pattern_of (param a ∷ ps) = b':' ∷ pattern_of ps

abbrev pub url_of : List Piece → List ℕ
url_of [] = []
url_of (literal c ∷ ps) = c ∷ url_of ps
url_of (param a ∷ ps) = a ++ url_of ps

abbrev pub params_of : List Piece → List (List ℕ)
params_of [] = []
params_of (literal c ∷ ps) = params_of ps
params_of (param a ∷ ps) = a ∷ params_of ps

-- No byte is a '/'.
abbrev pub IsWord : List ℕ → Type 0
IsWord [] = Unit
IsWord (c ∷ cs) = (c ≢ b'/') × IsWord cs

-- A parameter has no '/' and does not begin with ':', and a '/' or the end follows it.
abbrev pub IsParam : List ℕ → List Piece → Type 0
IsParam [] [] = Unit
IsParam [] (literal c ∷ ps) = c ≡ b'/'
IsParam (a ∷ s) [] = (a ≢ b':') × IsWord (a ∷ s)
IsParam (a ∷ s) (literal c ∷ ps) = (c ≡ b'/') × (a ≢ b':') × IsWord (a ∷ s)
IsParam _ (param b ∷ ps) = ⊥

abbrev pub ArePieces : List Piece → Type 0
ArePieces [] = Unit
ArePieces (literal c ∷ ps) = ArePieces ps
ArePieces (param a ∷ ps) = IsParam a ps × ArePieces ps

segment-end : (a : List ℕ) → IsWord a → segment a ≡ (a, [])
unfolding segment
segment-end [] w = refl
segment-end (c ∷ a) (n, w) = ground (arith, segment-end a w)

segment-slash : (a rest : List ℕ) → IsWord a → segment (a ++ b'/' ∷ rest) ≡ (a, b'/' ∷ rest)
unfolding segment
segment-slash [] rest w = refl
segment-slash (c ∷ a) rest (n, w) = ground (arith, segment-slash a rest w)

same_byte : (c : ℕ) → (c == c) ≡ true
same_byte c = ground arith

other_byte : (c d : ℕ) → d ≢ c → (c == d) ≡ false
other_byte c d n = ground arith

param-step :
    (params : List (List ℕ)) (pattern : List ℕ) (c : ℕ) (url a rest : List ℕ)
    → c ≢ b':'
    → segment (c ∷ url) ≡ (a, rest)
    → resolve_pattern params (b':' ∷ pattern) (c ∷ url)
      ≡ resolve_pattern (params ++ a ∷ []) pattern rest
unfolding resolve_pattern
param-step params pattern c url a rest n e = rw (other_byte b':' c n, e, resolve_pattern) refl

literal-step :
    (params : List (List ℕ)) (pattern : List ℕ) (c : ℕ) (url : List ℕ)
    → resolve_pattern params (c ∷ pattern) (c ∷ url) ≡ resolve_pattern params pattern url
unfolding resolve_pattern
literal-step params pattern c url = rw (same_byte c, resolve_pattern) refl

resolve_pattern-pieces :
    (params : List (List ℕ)) (ps : List Piece)
    → ArePieces ps
    → resolve_pattern params (pattern_of ps) (url_of ps) ≡ (true, params ++ params_of ps)
resolve_pattern-pieces params [] h = unfold resolve_pattern in rw (append-nil params)
resolve_pattern-pieces params (literal c ∷ ps) h =
    literal-step params (pattern_of ps) c (url_of ps) ∙ resolve_pattern-pieces params ps h
resolve_pattern-pieces params (param [] ∷ []) h = unfold resolve_pattern in refl
resolve_pattern-pieces params (param [] ∷ literal c ∷ ps) (slash, h) =
    param-step params (c ∷ pattern_of ps) c (url_of ps) [] (c ∷ url_of ps)
      (λ colon. absurd (omega arith)) (rw slash (segment-slash [] (url_of ps) tt))
    ∙ resolve_pattern-pieces (params ++ [] ∷ []) (literal c ∷ ps) h
    ∙ ap (λ (xs : List (List ℕ)). (true, xs)) (append_assoc params ([] ∷ []) (params_of ps))
resolve_pattern-pieces params (param (a ∷ s) ∷ []) ((colon, word), h) =
    param-step params [] a (s ++ []) (a ∷ s) [] colon (rw (append-nil s) (segment-end (a ∷ s) word))
    ∙ resolve_pattern-pieces (params ++ (a ∷ s) ∷ []) [] tt
    ∙ ap (λ (xs : List (List ℕ)). (true, xs)) (append-nil (params ++ (a ∷ s) ∷ []))
resolve_pattern-pieces params (param (a ∷ s) ∷ literal c ∷ ps) ((slash, colon, word), h) =
    param-step params (c ∷ pattern_of ps) a (s ++ c ∷ url_of ps) (a ∷ s) (c ∷ url_of ps) colon
      (rw slash (segment-slash (a ∷ s) (url_of ps) word))
    ∙ resolve_pattern-pieces (params ++ (a ∷ s) ∷ []) (literal c ∷ ps) h
    ∙ ap (λ (xs : List (List ℕ)). (true, xs)) (append_assoc params ((a ∷ s) ∷ []) (params_of ps))
resolve_pattern-pieces params (param a ∷ param b ∷ ps) (bad, h) = absurd (never a bad)
  where
    never : (a : List ℕ) → IsParam a (param b ∷ ps) → ⊥
    never [] bad = bad
    never (c ∷ a) bad = bad

-- A URL that is a pattern with its parameters filled in matches it, and gives the parameters in
-- order, if no parameter has a slash or begins with a colon, and a slash or the end follows each.
pub request_create-pieces :
    (ps : List Piece)
    → ArePieces ps
    → request_create (pattern_of ps) (url_of ps)
      ≡ some (record { url = url_of ps; params = params_of ps })
unfolding request_create
request_create-pieces ps h = rw (resolve_pattern-pieces [] ps h)
