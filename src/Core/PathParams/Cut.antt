-- ===== src/Core/PathParams/Cut.antt =====
-- The cuts of a URL lose nothing.
use auk.Base.{
  ℕ, ◌≡◌, ◌∙◌, ap, sym, inl, inr, refl, [], ◌∷◌, ◌++◌, append_assoc, Option, none, some, Bool-cases,
  ◌==◌,
}
use auk.Base.Text.{Bytes, codes, strip_prefix}
use auk.Base.Text.Split.{strip_prefix-append}
use auk.Core.PathParams.{
  split_at, split_scheme, onto_scheme, scheme_or, authority_of, split_authority, onto,
}

split_at-append : (c : ℕ) (s : Bytes) → (split_at c s).0 ++ (split_at c s).1 ≡ s
unfolding split_at
split_at-append c [] = refl
split_at-append c (x ∷ s) = elim (Bool-cases (x == c)) [
  | inl here ↦ rw here refl
  | inr other ↦ rw other (ap (◌∷◌ x) (split_at-append c s))
]

-- A cut into two texts that make up the whole.
abbrev Makes : Bytes → Bytes × Bytes → Type 0
Makes s cut = cut.0 ++ cut.1 ≡ s

onto-Makes :
    (before rest s : Bytes) (cut : Bytes × Bytes)
    → before ++ rest ≡ s
    → Makes rest cut
    → Makes s (onto before cut)
onto-Makes before rest s (a, b) e h =
    append_assoc before a b ∙ (ap (λ (t : Bytes). before ++ t) h ∙ e)

abbrev MakesIn : Bytes → Option (Bytes × Bytes) → Type 0
MakesIn s none = Unit
MakesIn s (some cut) = Makes s cut

onto_scheme-MakesIn :
    (x : ℕ) (s : Bytes) (o : Option (Bytes × Bytes))
    → MakesIn s o
    → MakesIn (x ∷ s) (onto_scheme x o)
onto_scheme-MakesIn x s none h = tt
onto_scheme-MakesIn x s (some (a, b)) h = ap (◌∷◌ x) h

scheme_or-MakesIn :
    (s : Bytes) (o : Option Bytes) (later : Option (Bytes × Bytes))
    → strip_prefix (codes "://") s ≡ o
    → MakesIn s later
    → MakesIn s (scheme_or o later)
scheme_or-MakesIn s none later e h = h
scheme_or-MakesIn s (some rest) later e h = strip_prefix-append (codes "://") s rest e

split_scheme-MakesIn : (s : Bytes) → MakesIn s (split_scheme s)
unfolding split_scheme
split_scheme-MakesIn [] = tt
split_scheme-MakesIn (x ∷ s) =
    scheme_or-MakesIn (x ∷ s) (strip_prefix (codes "://") (x ∷ s)) _ refl
      (onto_scheme-MakesIn x s (split_scheme s) (split_scheme-MakesIn s))

authority_of-Makes :
    (o : Option (Bytes × Bytes)) (p : Option Bytes) (base : Bytes)
    → MakesIn base o
    → strip_prefix (codes "//") base ≡ p
    → Makes base (authority_of o p base)
authority_of-Makes (some (scheme, rest)) p base h e =
    onto-Makes scheme rest base (split_at b'/' rest) h (split_at-append b'/' rest)
authority_of-Makes none (some rest) base h e =
    onto-Makes (codes "//") rest base (split_at b'/' rest)
      (strip_prefix-append (codes "//") base rest e) (split_at-append b'/' rest)
authority_of-Makes none none base h e = split_at-append b'/' base

split_authority-Makes : (base : Bytes) → Makes base (split_authority base)
unfolding split_authority
split_authority-Makes base =
    authority_of-Makes (split_scheme base) (strip_prefix (codes "//") base) base
      (split_scheme-MakesIn base) refl

-- The cuts at the query and at the path make up the URL.
pub cut_whole :
    (url : Bytes)
    → url
      ≡ ((split_authority (split_at b'?' url).0).0 ++ (split_authority (split_at b'?' url).0).1)
        ++ (split_at b'?' url).1
cut_whole url = sym (
    ap (λ (t : Bytes). t ++ (split_at b'?' url).1) (split_authority-Makes (split_at b'?' url).0)
    ∙ split_at-append b'?' url)
