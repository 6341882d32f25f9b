-- ===== src/Tests/Exposure.antt =====
-- The exposure controller on a dark sky, with floating-point numbers in hundredths.
use autopiercam.Base.{
  ℕ, ◌*◌, ◌/◌, ◌≡◌, refl, ℤ, pos, negsuc, true, false, ltb, leb, min, max, arith,
}
use autopiercam.Exposure.{
  Floats, day, night, ExposureSetting, LumaStats, AdaptiveExposure, vote, adjust, scale_exposure,
  observe,
}
use autopiercam.Exposure.Bounds.{IsValid, IsBetween, observe-IsBetween}
use autopiercam.Exposure.Votes.{observe_three}
use autopiercam.Exposure.Steps.{IsOneStep, observe-IsOneStep}

abbrev scaled : ℤ → ℕ → ℤ
scaled (pos n) ratio = pos (n * ratio / 100)
scaled (negsuc n) ratio = negsuc n

abbrev hundredths : Floats ℕ
hundredths = record {
  from_u8 = λ n. n * 100;
  divide = λ a b. a * 100 / b;
  clamp = λ v low high. max low (min v high);
  less = ltb;
  at_least = λ a b. leb b a;
  scale = scaled;
  clip_limit = 5;
  quarter = 25;
  least_ratio = 6;
  one = 100;
  four = 400;
  low_ratio = 90;
  high_ratio = 110;
}

abbrev controller : AdaptiveExposure ℕ
controller = record {
  min_us = pos 100;
  max_us = pos 2000000;
  min_gain = pos 0;
  max_gain = pos 300;
  target = 10000;
  mode = day;
  votes = 0;
  prefer_short_exposures = false;
}

abbrev long : ExposureSetting
long = record { exposure_us = pos 1500000; gain = pos 100 }

abbrev dark : LumaStats ℕ
dark = record { p90 = 40; clipped_fraction = 0 }

observe_runs :
    (observe hundredths controller long dark).1
    ≡ record { exposure_us = pos 2000000; gain = pos 100 }
unfolding observe vote adjust scale_exposure
observe_runs = refl

controller-IsValid : IsValid controller
controller-IsValid = record {
  positive = refl;
  exposures = refl;
  non_negative = refl;
  gains = refl;
  few_votes = omega arith;
}

observe-IsBetween_example :
    let (t, next) = observe hundredths controller long dark in
    IsValid t
    × IsBetween (pos 100) (pos 2000000) next.exposure_us
    × IsBetween (pos 0) (pos 300) next.gain
observe-IsBetween_example = observe-IsBetween hundredths controller long dark controller-IsValid

observe-IsOneStep_example :
    IsOneStep (pos 100) (pos 2000000) long (observe hundredths controller long dark).1
observe-IsOneStep_example =
    observe-IsOneStep hundredths controller long dark (refl, refl) (refl, refl)

observe_three_example :
    let first = (observe hundredths controller long dark).0 in
    let second = (observe hundredths first long dark).0 in
    let third = (observe hundredths second long dark).0 in
    (first.mode ≡ day)
    × (second.mode ≡ day)
    × (third.mode ≡ night)
    × (true ≡ true → third.votes ≡ 0)
observe_three_example = observe_three hundredths controller long long long dark dark dark refl
