-- ===== src/Sim/DayNight.antt =====
-- internal/sim/daynight.go: the hour of the day and the activity that goes with it, over floats as a parameter.
use populace.Prelude.{ℕ, Bool}
use populace.Prelude.Floats.{Floats}

module _ (fl : Floats) where
  open fl use {Float, of_ℕ, ratio, add, sub, mul, div, lt, cos, mod_f, pi}

  pub record DayNightConfig : Type 0 where
    pub minutes_per_tick : Float
    pub start_hour_utc : Float
    pub floor : Float
    pub ceiling : Float

  -- `DefaultDayNightConfig`.
  abbrev pub default_day_night_config : DayNightConfig
  default_day_night_config = record {
    minutes_per_tick = of_ℕ 10;
    start_hour_utc = of_ℕ 9;
    floor = ratio 12 100;
    ceiling = of_ℕ 1;
  }

  unfoldable pub runs : DayNightConfig → Bool
  runs d = lt (of_ℕ 0) d.minutes_per_tick

  unfoldable pub wrap_hour : Float → Float
  wrap_hour h = mod_f (add (mod_f h (of_ℕ 24)) (of_ℕ 24)) (of_ℕ 24)

  unfoldable pub local_hour : Float → Float → Float
  unfolding wrap_hour
  local_hour hour_utc lon = wrap_hour (add hour_utc (div (mul lon (of_ℕ 12)) pi))

  unfoldable pub activity_at : DayNightConfig → Float → Float
  activity_at d local =
      let angle = div (mul (mul (of_ℕ 2) pi) (sub local (of_ℕ 14))) (of_ℕ 24) in
      let t = add (ratio 5 10) (mul (ratio 5 10) (cos angle)) in
      add d.floor (mul (sub d.ceiling d.floor) t)

  -- `dayNightActivity`, from the longitudes.
  unfoldable pub day_night_activity : DayNightConfig → Float → (ℕ → Float) → ℕ → Float
  unfolding activity_at local_hour
  day_night_activity d hour_utc lon i = activity_at d (local_hour hour_utc (lon i))
