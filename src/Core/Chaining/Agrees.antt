-- ===== src/Core/Chaining/Agrees.antt =====
-- The evaluator of internal/core/chaining.go against that of internal/jsonpath.
use auk.Base.{
  ℕ, zero, suc, ◌≡◌, refl, ap, ◌∙◌, true, false, List, [], ◌∷◌, ◌++◌, Option, none, some, arith,
  ◌==◌, length, Option-cases, Bool-cases, inl, inr,
}
use auk.Base.Int.{pos, negsuc, atoi}
use auk.Base.Text.{Bytes, cut_byte}
use auk.Base.Text.Space.{trim_space}
use auk.Base.Result.{Result, ok, ◌>>=◌, map_err, bind_agrees}
use auk.JsonPath.{
  Json, null, bool, arr, obj, Token, key, index, PathError, invalid_json, unterminated, empty_path,
  out_of_fuel, invalid_index, not_object, no_field, not_array, out_of_range, step_token, walk,
  flush, bracket, scan, nonempty, strip_root, parse, value_to_string, get,
}
use auk.Core.Chaining.{
  ChainError, bad_body, bad_index, missing, step_json, walk_json, flush_token, read_index,
  scan_json_path, some_token, parse_json_path, json_value_to_string, json_get_path,
}

-- The errors of the two copies, by kind: the one of chaining.go has fewer.
abbrev pub kind : PathError → ChainError
kind invalid_json = bad_body
kind unterminated = ChainError.unterminated
kind empty_path = ChainError.empty_path
kind out_of_fuel = ChainError.out_of_fuel
kind (invalid_index _) = bad_index
kind (not_object _) = missing
kind (no_field _) = missing
kind (not_array _) = missing
kind (out_of_range _ _) = ChainError.out_of_range

step_agrees : (j : Json) (t : Token) → step_json j t ≡ map_err kind (step_token j t)
unfolding step_json step_token
step_agrees (obj fs) (key k) = ground arith
step_agrees (arr xs) (index (negsuc n)) = refl
step_agrees (arr xs) (index (pos n)) = ground arith
step_agrees null (key k) = refl
step_agrees _ (key k) = refl
step_agrees _ (index n) = refl

walk_agrees : (j : Json) (ts : List Token) → walk_json j ts ≡ map_err kind (walk j ts)
unfolding walk_json walk
walk_agrees j [] = refl
walk_agrees j (t ∷ ts) =
    ap (λ r. r >>= λ next. walk_json next ts) (step_agrees j t)
    ∙ bind_agrees kind (step_token j t) (λ next. walk_json next ts) (λ next. walk next ts)
        (λ next. walk_agrees next ts)

flush_agrees : (tokens : List Token) (buf : Bytes) → flush_token tokens buf ≡ flush tokens buf
flush_agrees tokens [] = refl
flush_agrees tokens (c ∷ buf) = refl

index_agrees :
    (rec : List Token → Bytes → Bytes → Result ChainError (List Token))
    (rec' : List Token → Bytes → Bytes → Result PathError (List Token)) (tokens : List Token)
    (o : Option (Bytes × Bytes))
    → ((ts : List Token) (rest : Bytes) → rec ts [] rest ≡ map_err kind (rec' ts [] rest))
    → read_index rec tokens o ≡ map_err kind (bracket rec' tokens o)
unfolding read_index bracket
index_agrees rec rec' tokens none h = refl
index_agrees rec rec' tokens (some (text, rest)) h = elim (Option-cases (atoi (trim_space text))) [
  | inl bad ↦ rw (bad, read_index, bracket)
  | inr (n, good) ↦ rw (good, read_index, bracket) (h (tokens ++ index n ∷ []) rest)
]

scan_agrees :
    (f : ℕ) (tokens : List Token) (buf s : Bytes)
    → scan_json_path f tokens buf s ≡ map_err kind (scan f tokens buf s)
unfolding scan_json_path scan read_index bracket
scan_agrees f tokens buf [] = ap ok (flush_agrees tokens buf)
scan_agrees zero tokens buf (c ∷ s) = refl
scan_agrees (suc f) tokens buf (c ∷ s) = elim (Bool-cases (c == b'.')) [
  | inl dot ↦ rw dot (
      ap (λ ts. scan_json_path f ts [] s) (flush_agrees tokens buf)
      ∙ scan_agrees f (flush tokens buf) [] s)
  | inr other ↦ elim (Bool-cases (c == b'[')) [
    | inr plain ↦ rw (other, plain) (scan_agrees f tokens (buf ++ c ∷ []) s)
    | inl open_bracket ↦
        rw (other, open_bracket)
          (ap (λ ts. read_index (scan_json_path f) ts (cut_byte b']' s)) (flush_agrees tokens buf)
            ∙ index_agrees (scan_json_path f) (scan f) (flush tokens buf) (cut_byte b']' s)
                (λ ts rest. scan_agrees f ts [] rest))
  ]
]

parse_agrees : (path : Bytes) → parse_json_path path ≡ map_err kind (parse path)
unfolding parse_json_path parse
parse_agrees path =
    ap (λ r. r >>= some_token) (scan_agrees (length (strip_root path)) [] [] (strip_root path))
    ∙ bind_agrees kind (scan (length (strip_root path)) [] [] (strip_root path)) some_token nonempty
        token_agrees
  where
    token_agrees : (ts : List Token) → some_token ts ≡ map_err kind (nonempty ts)
    token_agrees [] = refl
    token_agrees (t ∷ ts) = refl

module _ (unmarshal : Bytes → Option Json) (format_float : ℕ → Bytes) (marshal : Json → Bytes) where
  to_string_agrees :
      (v : Json)
      → json_value_to_string unmarshal format_float marshal v
        ≡ value_to_string unmarshal format_float marshal v
  unfolding json_value_to_string value_to_string
  to_string_agrees (bool true) = refl
  to_string_agrees (bool false) = refl
  to_string_agrees _ = refl

  -- The evaluator of `response()` references gives, for every body and path, the value that the
  -- shared evaluator gives, and fails where that fails, with an error of the same kind.
  pub json_get_path-get :
      (text path : Bytes)
      → json_get_path unmarshal format_float marshal text path
        ≡ map_err kind (get unmarshal format_float marshal text path)
  unfolding json_get_path get
  json_get_path-get text path = elim (Option-cases (unmarshal text)) [
    | inl bad ↦ rw (bad, json_get_path, get)
    | inr (doc, good) ↦
        rw (good, json_get_path, get)
          (ap
              (λ r. r >>= λ ts. walk_json doc ts >>= λ v.
                ok (json_value_to_string unmarshal format_float marshal v))
              (parse_agrees path)
            ∙ bind_agrees kind (parse path) _ _ (λ ts.
              ap (λ r. r >>= λ v. ok (json_value_to_string unmarshal format_float marshal v))
                (walk_agrees doc ts)
              ∙ bind_agrees kind (walk doc ts) _ _ (λ v. ap ok (to_string_agrees v))))
  ]
