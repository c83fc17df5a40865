-- ===== src/JsonPath/Grammar.antt =====
-- The paths that `parse` reads: what each is split into.
use auk.Base.{
  ℕ, suc, ◌+◌, ◌-◌, ◌≤◌, ◌≡◌, ◌≢◌, refl, ap, ◌∙◌, List, [], ◌∷◌, ◌++◌, some, arith, length,
  length-append, map, All, append_assoc, append-nil,
}
use native.Mathlib.Nat.{zero-add}
use auk.Base.Int.{ℤ, atoi}
use auk.Base.Text.{Bytes, trim_prefix, cut_byte}
use auk.Base.Text.Space.{trim_space}
use auk.Base.Result.{ok}
use auk.JsonPath.{Token, key, index, flush, bracket, scan, strip_root, parse}

-- The text of a path step: `.name`, or `[text]` where the text reads as an index.
pub data Step : Type 0 where
  name : Bytes → Step
  at : Bytes → ℤ → Step

abbrev pub token : Step → Token
token (name n) = key n
token (at text n) = index n

abbrev pub render : List Step → Bytes
render [] = []
render (name n ∷ steps) = b'.' ∷ (n ++ render steps)
render (at text n ∷ steps) = b'[' ∷ (text ++ (b']' ∷ render steps))

-- A name is not empty and holds no `.` and no `[`; an index text holds no `]` and reads as a number.
abbrev pub IsStep : Step → Type 0
IsStep (name n) = (n ≢ []) × All (λ c. (c ≢ b'.') × (c ≢ b'[')) n
IsStep (at text n) = (atoi (trim_space text) ≡ some n) × All (λ c. c ≢ b']') text

cut_byte-append :
    (c : ℕ) (text rest : Bytes)
    → All (λ x. x ≢ c) text
    → cut_byte c (text ++ (c ∷ rest)) ≡ some (text, rest)
unfolding cut_byte
cut_byte-append c [] rest h = ground arith
cut_byte-append c (x ∷ text) rest h = ground (arith, cut_byte-append c text rest h.1, h.0)

scan_plain :
    (f : ℕ) (tokens : List Token) (buf : Bytes) (c : ℕ) (s : Bytes)
    → c ≢ b'.'
    → c ≢ b'['
    → scan (suc f) tokens buf (c ∷ s) ≡ scan f tokens (buf ++ c ∷ []) s
unfolding scan
scan_plain f tokens buf c s p q = ground arith

scan_dot :
    (f : ℕ) (tokens : List Token) (buf s : Bytes)
    → scan (suc f) tokens buf (b'.' ∷ s) ≡ scan f (flush tokens buf) [] s
unfolding scan
scan_dot f tokens buf s = refl

scan_index :
    (f : ℕ) (tokens : List Token) (buf text rest : Bytes) (n : ℤ)
    → All (λ c. c ≢ b']') text
    → atoi (trim_space text) ≡ some n
    → scan (suc f) tokens buf (b'[' ∷ (text ++ (b']' ∷ rest)))
      ≡ scan f (flush tokens buf ++ index n ∷ []) [] rest
unfolding scan bracket
scan_index f tokens buf text rest n h e = rw (cut_byte-append b']' text rest h) (rw (e, bracket))

-- A name is read into the buffer.
scan_name :
    (n rest : Bytes) (f : ℕ) (tokens : List Token) (buf : Bytes)
    → All (λ c. (c ≢ b'.') × (c ≢ b'[')) n
    → scan (length n + f) tokens buf (n ++ rest) ≡ scan f tokens (buf ++ n) rest
scan_name [] rest f tokens buf h = rw (zero-add, append-nil) refl
scan_name (c ∷ n) rest f tokens buf h =
    ap (λ t. scan t tokens buf (c ∷ (n ++ rest))) (omega arith)
    ∙ scan_plain (length n + f) tokens buf c (n ++ rest) h.0.0 h.0.1
    ∙ scan_name n rest f tokens (buf ++ c ∷ []) h.1
    ∙ ap (λ t. scan f tokens t rest) (append_assoc buf (c ∷ []) n)

flush_name : (tokens : List Token) (n : Bytes) → n ≢ [] → flush tokens n ≡ tokens ++ key n ∷ []
flush_name tokens [] h = absurd (h refl)
flush_name tokens (c ∷ n) h = refl

scan-render :
    (steps : List Step) (f : ℕ) (tokens : List Token) (buf : Bytes)
    → length (render steps) ≤ f
    → All IsStep steps
    → scan f tokens buf (render steps) ≡ ok (flush tokens buf ++ map token steps)
scan-render [] f tokens buf h s = unfold scan in rw append-nil refl
scan-render (name n ∷ steps) f tokens buf h ((ne, plain), s) =
    let k = f - suc (length n) in
    let long = length-append n (render steps) in
    ap (λ t. scan t tokens buf (render (name n ∷ steps))) (omega arith)
    ∙ scan_dot (length n + k) tokens buf (n ++ render steps)
    ∙ scan_name n (render steps) k (flush tokens buf) [] plain
    ∙ scan-render steps k (flush tokens buf) n (omega arith) s
    ∙ ap (λ t. ok (t ++ map token steps)) (flush_name (flush tokens buf) n ne)
    ∙ ap ok (append_assoc (flush tokens buf) (key n ∷ []) (map token steps))
scan-render (at text n ∷ steps) f tokens buf h ((reads, plain), s) =
    let k = f - 1 in
    let long = length-append text (b']' ∷ render steps) in
    ap (λ t. scan t tokens buf (render (at text n ∷ steps))) (omega arith)
    ∙ scan_index k tokens buf text (render steps) n plain reads
    ∙ scan-render steps k (flush tokens buf ++ index n ∷ []) [] (omega arith) s
    ∙ ap ok (append_assoc (flush tokens buf) (index n ∷ []) (map token steps))

-- The first name does not start with the root sign, which `parse` would strip once more.
abbrev pub StartsPlain : List Step → Type 0
StartsPlain [] = ⊥
StartsPlain (name [] ∷ steps) = ⊥
StartsPlain (name (c ∷ n) ∷ steps) = c ≢ b'$'
StartsPlain (at text n ∷ steps) = Unit

-- The path of a list of steps: `$.a.b[0]`.
abbrev pub path_of : List Step → Bytes
path_of steps = b'$' ∷ render steps

trim_prefix-ne : (c d : ℕ) (s : Bytes) → d ≢ c → trim_prefix (d ∷ s) (c ∷ []) ≡ d ∷ s
unfolding trim_prefix
trim_prefix-ne c d s h = ground arith

parse-scan :
    (path : Bytes) (tokens : List Token)
    → scan (length (strip_root path)) [] [] (strip_root path) ≡ ok tokens
    → tokens ≢ []
    → parse path ≡ ok tokens
unfolding parse
parse-scan path [] e h = absurd (h refl)
parse-scan path (t ∷ ts) e h = rw e

strip_root_name :
    (c : ℕ) (s : Bytes)
    → trim_space (b'$' ∷ b'.' ∷ c ∷ s) ≡ b'$' ∷ b'.' ∷ c ∷ s
    → c ≢ b'$'
    → strip_root (b'$' ∷ b'.' ∷ c ∷ s) ≡ c ∷ s
unfolding trim_prefix
strip_root_name c s h ne = rw h (ground arith)

strip_root_index :
    (s : Bytes)
    → trim_space (b'$' ∷ b'[' ∷ s) ≡ b'$' ∷ b'[' ∷ s
    → strip_root (b'$' ∷ b'[' ∷ s) ≡ b'[' ∷ s
unfolding trim_prefix
strip_root_index s h = rw h

-- `parse` splits the path of any nonempty list of steps into exactly its tokens: names as they
-- stand, index texts as the numbers that they read as. The steps are well-formed, the text
-- ends in no white space, so that trimming leaves it alone, and the first name does not start
-- with `$`.
pub parse-path_of :
    (steps : List Step)
    → All IsStep steps
    → trim_space (path_of steps) ≡ path_of steps
    → StartsPlain steps
    → parse (path_of steps) ≡ ok (map token steps)
parse-path_of [] s p h = absurd h
parse-path_of (name [] ∷ steps) s p h = absurd h
parse-path_of (name (c ∷ n) ∷ steps) s p h =
    parse-scan (path_of (name (c ∷ n) ∷ steps)) _
      (ap (λ t. scan (length t) [] [] t) (strip_root_name c (n ++ render steps) p h)
        ∙ ap (λ t. scan t [] [] (c ∷ (n ++ render steps))) (length-append (c ∷ n) (render steps))
        ∙ scan_name (c ∷ n) (render steps) (length (render steps)) [] [] s.0.1
        ∙ scan-render steps (length (render steps)) [] (c ∷ n) (omega arith) s.1)
      (λ e. cc)
parse-path_of (at text n ∷ steps) s p h =
    parse-scan (path_of (at text n ∷ steps)) _
      (ap (λ t. scan (length t) [] [] t) (strip_root_index _ p)
        ∙ scan-render (at text n ∷ steps) _ [] [] (omega arith) s)
      (λ e. cc)
