-- ===== src/JsonPath/Fuel.antt =====
-- The loop of `parse` ends within its fuel.
use auk.Base.{
  ℕ, zero, suc, ◌≤◌, ◌<◌, ◌≡◌, ◌≢◌, refl, ap, List, [], ◌∷◌, ◌++◌, Option, none, some, arith, ◌==◌,
  if◌then◌else◌, length, Option-cases, Bool-cases, inl, inr,
}
use auk.Base.Int.{atoi}
use auk.Base.Text.{Bytes, cut_byte}
use auk.Base.Text.Space.{trim_space}
use auk.Base.Result.{Result, ok, err, ◌>>=◌}
use auk.JsonPath.{
  Token, index, PathError, out_of_fuel, flush, bracket, scan, nonempty, strip_root, parse,
}

-- What `IndexByte` cuts off is shorter.
cut_byte-length :
    (c : ℕ) (s head rest : Bytes) → cut_byte c s ≡ some (head, rest) → length rest < length s
unfolding cut_byte
cut_byte-length c [] head rest e = cc
cut_byte-length c (x ∷ s) head rest e =
    go (cut_byte c s) e (λ before after q. cut_byte-length c s before after q)
  where
    go :
        (o : Option (Bytes × Bytes))
        → if◌then◌else◌ {A = Option (Bytes × Bytes)}
            (x == c)
            (some ([], s))
            (elim o [ none ↦ none | some (before, after) ↦ some (x ∷ before, after) ])
          ≡ some (head, rest)
        → ((before after : Bytes) → o ≡ some (before, after) → length after < length s)
        → length rest < suc (length s)
    go none h ih = ground arith
    go (some (before, after)) h ih = let shorter = ih before after refl in ground arith

bracket-ne-out_of_fuel :
    (rec : List Token → Bytes → Bytes → Result PathError (List Token)) (tokens : List Token)
    (s : Bytes)
    → ((ts : List Token) (rest : Bytes) → length rest < length s → rec ts [] rest ≢ err out_of_fuel)
    → bracket rec tokens (cut_byte b']' s) ≢ err out_of_fuel
unfolding bracket
bracket-ne-out_of_fuel rec tokens s h = elim (Option-cases (cut_byte b']' s)) [
  | inl missing ↦ rw missing (λ e. cc)
  | inr ((text, rest), found) ↦
      let shorter = cut_byte-length b']' s text rest found in
      elim (Option-cases (atoi (trim_space text))) [
        | inl bad ↦ rw (found, bad, bracket) (λ e. cc)
        | inr (n, good) ↦ rw (found, good, bracket) (h (tokens ++ index n ∷ []) rest shorter)
      ]
]

-- The loop ends before its fuel does.
scan-ne-out_of_fuel :
    (f : ℕ) (tokens : List Token) (buf s : Bytes)
    → length s ≤ f
    → scan f tokens buf s ≢ err out_of_fuel
unfolding scan bracket
scan-ne-out_of_fuel f tokens buf [] h = λ e. cc
scan-ne-out_of_fuel zero tokens buf (c ∷ s) h = absurd (omega arith)
scan-ne-out_of_fuel (suc f) tokens buf (c ∷ s) h = elim (Bool-cases (c == b'.')) [
  | inl dot ↦ rw dot (scan-ne-out_of_fuel f (flush tokens buf) [] s (omega arith))
  | inr other ↦ elim (Bool-cases (c == b'[')) [
    | inr plain ↦ rw (other, plain) (scan-ne-out_of_fuel f tokens (buf ++ c ∷ []) s (omega arith))
    | inl open_bracket ↦
        rw (other, open_bracket)
          (bracket-ne-out_of_fuel (scan f) (flush tokens buf) s
            (λ ts rest q. scan-ne-out_of_fuel f ts [] rest (omega arith)))
  ]
]

-- `parse` never runs out of its fuel: it returns, for every path.
pub parse-ne-out_of_fuel : (path : Bytes) → parse path ≢ err out_of_fuel
unfolding parse
parse-ne-out_of_fuel path =
    nonempty-ne (scan (length (strip_root path)) [] [] (strip_root path))
      (scan-ne-out_of_fuel (length (strip_root path)) [] [] (strip_root path) (omega arith))
  where
    nonempty-ne :
        (r : Result PathError (List Token))
        → r ≢ err out_of_fuel
        → (r >>= nonempty) ≢ err out_of_fuel
    nonempty-ne (ok []) h = λ e. cc
    nonempty-ne (ok (t ∷ ts)) h = λ e. cc
    nonempty-ne (err x) h = λ e. h (ap (λ r. r) cc)
