-- ===== src/Tests/TimeTests.antt =====
-- time_file_roller.cpp
use chucho.Base.{suc, ◌≡◌, [], ◌∷◌, if◌then◌else◌, ◌==◌, refl, Text, none, codes, arith}
use chucho.Roller.TimeNames.{
  unfinished, ended, find_first, spec_at, replace_spec, to_slashes, resolve_file_name,
}
use chucho.Roller.TimeNames.Percents.{percents}
use chucho.Roller.TimeNames.Resolved.{resolve_file_name_ends, resolve_file_name_doubled}

abbrev dated : Text → Text
dated [] = []
dated (c ∷ []) = c ∷ []
dated (c ∷ d ∷ spec) = if d == b'%' then b'%' ∷ [] else codes "2026-05"

resolve_file_name_ends_example :
    (result : Text) × (resolve_file_name
        (suc (percents (codes "log.%d{%Y-%m}.%d")))
        dated
        (codes "log.%d{%Y-%m}.%d")
      ≡ ended (to_slashes result))
    × (find_first b'd' result ≡ none)
unfolding find_first spec_at replace_spec
resolve_file_name_ends_example =
    resolve_file_name_ends dated (codes "log.%d{%Y-%m}.%d")
      (omega arith, refl, (omega arith, refl, tt)) refl

two_dates :
    resolve_file_name 5 dated (codes "a\\log.%d{%Y-%m}.%d") ≡ ended (codes "a/log.2026-05.2026-05")
unfolding resolve_file_name
two_dates = refl

resolve_file_name_doubled_example : resolve_file_name 100 dated (codes "50%%d.log") ≡ unfinished
unfolding find_first
resolve_file_name_doubled_example =
    resolve_file_name_doubled dated (codes "50%%d.log") 3 refl refl 100
