-- ===== src/CookieJar/Tests.antt =====
-- A captured cookie, replaced and read.
use auk.Base.{◌≡◌, refl, true, List, [], ◌∷◌, none, some}
use auk.Base.Text.{Bytes, codes, bytes_eq}
use auk.Core.Vars.{get, set}
use auk.Core.Vars.Laws.{last_value}
use auk.CookieJar.{empty_jar, capture, get_cookie, list_cookies, set_cookie}
use auk.CookieJar.Refines.{Event, captured, put, replay, steps, jar_refines}

abbrev whole_values : List Bytes → List (Bytes × Bytes)
whole_values [] = []
whole_values (v ∷ raw) = (v, v) ∷ whole_values raw

abbrev login : List Event
login =
    captured (codes "w")
      (record { key = codes "Set-Cookie"; value = codes "sid"; enabled = true } ∷ [])
    ∷ put (codes "w") (codes "sid") (codes "2")
    ∷ []

sid_set :
    get_cookie (codes "w") (codes "sid") (replay bytes_eq whole_values login empty_jar)
    ≡ some (codes "2")
unfolding get_cookie capture set_cookie get set bytes_eq
sid_set = refl

jar_refines_example :
    (get_cookie (codes "w") (codes "sid") (replay bytes_eq whole_values login empty_jar)
      ≡ steps bytes_eq whole_values login (λ _ _. none) (codes "w") (codes "sid"))
    × (last_value
          (codes "sid")
          (list_cookies (codes "w") (replay bytes_eq whole_values login empty_jar))
        ≡ steps bytes_eq whole_values login (λ _ _. none) (codes "w") (codes "sid"))
jar_refines_example = jar_refines bytes_eq whole_values login (codes "w") (codes "sid")
