-- ===== src/Assert/Tests.antt =====
-- Assertions on a concrete response.
use auk.Base.{ℕ, ◌≡◌, refl, Bool, true, [], ◌∷◌, Option, none, some, ltb}
use auk.Base.Int.{ℤ, pos}
use auk.Base.Result.{Result}
use auk.Base.Text.{Bytes, codes, bytes_eq, trim_prefix}
use auk.JsonPath.{PathError, Json, field, end, obj, str, get, parse, walk, value_to_string}
use auk.Assert.{assert_body, eq, Assertion, Response, evaluate, passed}

-- a printer for the counts below
abbrev itoa : ℤ → Bytes
itoa n = codes "200"

-- a reader of one document
abbrev doc : Bytes → Option Json
doc text = some (obj (field (codes "id") (str (codes "7")) end))

abbrev plain : Bytes → Option Bytes
plain text = some text

abbrev float_text : ℕ → Bytes
float_text bits = []

abbrev json_text : Json → Bytes
json_text v = []

abbrev get_path : Bytes → Bytes → Result PathError Bytes
get_path = get doc float_text json_text

abbrev no_regexp : Bytes → Option (Bytes → Bool)
no_regexp pattern = none

-- decimal numbers of one digit
abbrev digit : Bytes → Option ℕ
digit (c ∷ []) = some c
digit _ = none

abbrev has_id : Assertion
has_id = record {
  source = assert_body;
  path = codes "$.id";
  name = [];
  operator = eq;
  value = codes "7";
  enabled = true;
}

abbrev reply : Response
reply = record { status = pos 200; timing_ms = pos 3; headers = []; body_base64 = codes "{}" }

reply_passes :
    passed [] (evaluate itoa bytes_eq plain get_path digit ltb no_regexp (has_id ∷ []) reply) []
    ≡ true
unfolding passed evaluate get parse walk trim_prefix value_to_string
reply_passes = refl
