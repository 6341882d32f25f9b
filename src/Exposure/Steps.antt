-- ===== src/Exposure/Steps.antt =====
-- The controller moves one control at a time.
use autopiercam.Base.{
  ◌≡◌, subst, ◌∙◌, ap, ◌⊎◌, inl, inr, ℤ, int_leb, int_clamp, int_clamp-between, Bool, true, arith,
}
use autopiercam.Exposure.{
  Floats, ExposureSetting, LumaStats, AdaptiveExposure, vote, is_clipped, brightness_ratio,
  scale_exposure, adjust, observe,
}
use autopiercam.Exposure.Bounds.{IsBetween, vote-limits}

-- The exposure is kept, or the gain is, or the exposure was at one of its limits.
abbrev pub IsOneStep : ℤ → ℤ → ExposureSetting → ExposureSetting → Type 0
IsOneStep min_us max_us current next =
    (next.exposure_us ≡ current.exposure_us)
    ⊎ (next.gain ≡ current.gain)
    ⊎ (int_leb max_us current.exposure_us ≡ true)
    ⊎ (int_leb current.exposure_us min_us ≡ true)

module _ {F : Type 0} (fl : Floats F) where
  scale_exposure-IsOneStep :
      (s : AdaptiveExposure F) (current : ExposureSetting) (ratio : F)
      → IsOneStep s.min_us s.max_us current (scale_exposure fl s current ratio)
  unfolding scale_exposure
  scale_exposure-IsOneStep s current ratio = ground arith

  adjust-IsOneStep :
      (s : AdaptiveExposure F) (current : ExposureSetting) (clipped : Bool) (ratio : F)
      → IsOneStep s.min_us s.max_us current (adjust fl s current clipped ratio)
  unfolding adjust
  adjust-IsOneStep s current clipped ratio =
      ground (arith, scale_exposure-IsOneStep s current ratio)

  -- The last clamp keeps what was not changed.
  clamp-IsOneStep :
      (min_us max_us min_gain max_gain : ℤ) (current next : ExposureSetting)
      → IsBetween min_us max_us current.exposure_us
      → IsBetween min_gain max_gain current.gain
      → IsOneStep min_us max_us current next
      → IsOneStep min_us max_us current (record {
        exposure_us = int_clamp next.exposure_us min_us max_us;
        gain = int_clamp next.gain min_gain max_gain;
      })
  clamp-IsOneStep min_us max_us min_gain max_gain current next e g (inl h) = inl (
      ap (λ v. int_clamp v min_us max_us) h
      ∙ int_clamp-between current.exposure_us min_us max_us e.0 e.1)
  clamp-IsOneStep min_us max_us min_gain max_gain current next e g (inr (inl h)) = inr (
      inl (
        ap (λ v. int_clamp v min_gain max_gain) h
        ∙ int_clamp-between current.gain min_gain max_gain g.0 g.1))
  clamp-IsOneStep min_us max_us min_gain max_gain current next e g (inr (inr h)) = inr (inr h)

  -- From a setting within the limits, a frame changes the exposure or the gain, and both only where
  -- the exposure was at one of its limits.
  pub observe-IsOneStep :
      (s : AdaptiveExposure F) (current : ExposureSetting) (stats : LumaStats F)
      → IsBetween s.min_us s.max_us current.exposure_us
      → IsBetween s.min_gain s.max_gain current.gain
      → IsOneStep s.min_us s.max_us current (observe fl s current stats).1
  unfolding observe vote
  observe-IsOneStep s current stats e g =
      let ((a, b), c, d) = vote-limits s current in
      let next : ExposureSetting =
        adjust fl (vote s current) current (is_clipped fl stats)
          (brightness_ratio fl (vote s current) stats) in
      let step : IsOneStep s.min_us s.max_us current next =
        subst (λ v. IsOneStep v s.max_us current next) a
          (subst (λ v. IsOneStep (vote s current).min_us v current next) b
            (adjust-IsOneStep (vote s current) current (is_clipped fl stats)
              (brightness_ratio fl (vote s current) stats))) in
      rw (a, b, c, d)
        (clamp-IsOneStep s.min_us s.max_us s.min_gain s.max_gain current next e g step)
