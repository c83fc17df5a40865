-- ===== src/JsonPath/Tests.antt =====
-- Paths at concrete texts.
use auk.Base.{◌≡◌, ◌≢◌, refl, [], ◌∷◌, List, map, arith}
use auk.Base.Int.{pos, atoi}
use auk.Base.Text.{codes, trim_prefix}
use auk.Base.Text.Space.{trim_space}
use auk.Base.Result.{ok, err}
use auk.JsonPath.{key, index, out_of_fuel, parse}
use auk.JsonPath.Fuel.{parse-ne-out_of_fuel}
use auk.JsonPath.Grammar.{Step, name, at, token, path_of, parse-path_of}

abbrev steps : List Step
steps = name (codes "a") ∷ at (codes "0") (pos 0) ∷ name (codes "b") ∷ []

parse_steps : parse (codes "$.a[0].b") ≡ ok (key (codes "a") ∷ index (pos 0) ∷ key (codes "b") ∷ [])
unfolding parse trim_prefix trim_space atoi
parse_steps = refl

-- A leading root sign of a field's name is stripped with the root.
parse_ref : parse (codes "$.$ref") ≡ ok (key (codes "ref") ∷ [])
unfolding parse trim_prefix trim_space
parse_ref = refl

parse-path_of_example : parse (path_of steps) ≡ ok (map token steps)
unfolding atoi trim_space
parse-path_of_example =
    parse-path_of steps
      (((λ e. cc), omega arith), ((refl, omega arith), (((λ e. cc), omega arith), tt))) refl
      (omega arith)

parse-ne-out_of_fuel_example : parse (codes "a[b[") ≢ err out_of_fuel
parse-ne-out_of_fuel_example = parse-ne-out_of_fuel (codes "a[b[")
