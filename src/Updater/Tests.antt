-- ===== src/Updater/Tests.antt =====
-- Versions at concrete texts.
use auk.Base.{◌≡◌, ◌↔◌, refl, true, false, [], ◌∷◌, none, some}
use auk.Base.Int.{pos}
use auk.Base.Text.{codes, trim_prefix}
use auk.Base.Text.Space.{trim_space}
use auk.Updater.Version.{
  Version, parse_version, compare_version, compare_pre, cmp_int, is_dev_version, is_newer,
}
use auk.Updater.Version.Newer.{Offers, is_newer_iff}

abbrev dev : Version
dev = record { major = pos 0; minor = pos 4; patch = pos 0; pre = codes "dev" ∷ codes "3" ∷ [] }

parses_dev : parse_version (codes " v0.4.0-dev.3+abc ") ≡ some dev
unfolding parse_version trim_prefix trim_space
parses_dev = refl

parses_no_part : parse_version (codes "1.2") ≡ none
unfolding parse_version trim_prefix trim_space
parses_no_part = refl

dev_is_older : is_newer (codes "0.4.0") (codes "0.4.0-dev.3") ≡ true
unfolding is_newer is_dev_version parse_version compare_version compare_pre cmp_int trim_prefix
    trim_space
dev_is_older = refl

pre_numbers : is_newer (codes "0.4.0-dev.10") (codes "0.4.0-dev.9") ≡ true
unfolding is_newer is_dev_version parse_version compare_version compare_pre cmp_int trim_prefix
    trim_space
pre_numbers = refl

no_nagging : is_newer (codes "0.3.0") (codes "0.0.0-dev") ≡ false
unfolding is_newer is_dev_version parse_version compare_version compare_pre cmp_int trim_prefix
    trim_space
no_nagging = refl

is_newer_iff_example :
    (is_newer (codes "0.4.0") (codes "0.4.0-dev.3") ≡ true)
    ↔ Offers (codes "0.4.0") (codes "0.4.0-dev.3")
is_newer_iff_example = is_newer_iff (codes "0.4.0") (codes "0.4.0-dev.3")
