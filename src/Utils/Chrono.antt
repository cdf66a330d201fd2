-- ===== src/Utils/Chrono.antt =====
-- Backend/include/utils/chrono_utils.h. A `system_clock::time_point` is its number of nanoseconds
-- since the epoch. `std::put_time` with `gmtime` and `std::get_time` with `timegm` are the standard
-- library's, and are given as a `Calendar` over whole seconds.
use text2image.Base.{
  ℕ, ◌*◌, ◌/◌, ◌==◌, Option, none, some, [], ◌∷◌, map, Text, is_empty, if◌then◌else◌,
}

abbrev pub Time : Type 0
Time = ℕ

abbrev pub ticks_per_second : ℕ
ticks_per_second = 1000000000

abbrev pub seconds : ℕ → Time
seconds n = n * ticks_per_second

-- `floor<seconds>`: what of a time point a DATETIME column keeps.
abbrev pub floor_seconds : Time → ℕ
floor_seconds t = t / ticks_per_second

pub record Calendar : Type 0 where
  -- `put_time(gmtime(s), "%Y-%m-%d %H:%M:%S")`
  pub put_time : ℕ → Text
  -- `timegm(get_time(text, "%Y-%m-%d %H:%M:%S"))`, `none` where the stream fails or it is -1
  pub get_time : Text → Option ℕ

-- `cleaned.resize(cleaned.find('.'))`
abbrev pub cut_fraction : Text → Text
cut_fraction [] = []
cut_fraction (c ∷ s) = if c == b'.' then [] else c ∷ cut_fraction s

abbrev pub t_to_space : ℕ → ℕ
t_to_space c = if c == b'T' then b' ' else c

module _ (cal : Calendar) where
  unfoldable pub to_db_string : Time → Text
  to_db_string t = cal.put_time (floor_seconds t)

  unfoldable pub from_db_string : Text → Option Time
  from_db_string value =
      if is_empty value then none else elim (cal.get_time (map t_to_space (cut_fraction value))) [
        | none ↦ none
        | some s ↦ some (seconds s)
      ]
