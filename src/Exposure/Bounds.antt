-- ===== src/Exposure/Bounds.antt =====
-- The next setting stays within the limits, and the limits stay as they were given.
use autopiercam.Base.{ℕ, ◌≤◌, ℤ, pos, int_leb, int_ltb, int_clamp-bounds, ◌≡◌, true, arith, IfSome}
use autopiercam.Exposure.{
  Floats, ExposureSetting, LumaStats, AdaptiveExposure, new_controller, update_limits, vote,
  observe,
}

-- A value lies between two bounds.
abbrev pub IsBetween : ℤ → ℤ → ℤ → Type 0
IsBetween low high value = (int_leb low value ≡ true) × (int_leb value high ≡ true)

module _ {F : Type 0} where
  -- Exposures are positive, gains are not negative, and either bound is at most the other.
  pub record IsValid (s : AdaptiveExposure F) : Type 0 where
    pub positive : int_ltb (pos 0) s.min_us ≡ true
    pub exposures : int_leb s.min_us s.max_us ≡ true
    pub non_negative : int_leb (pos 0) s.min_gain ≡ true
    pub gains : int_leb s.min_gain s.max_gain ≡ true
    pub few_votes : s.votes ≤ 2

  vote-IsValid :
      (s : AdaptiveExposure F) (current : ExposureSetting) → IsValid s → IsValid (vote s current)
  unfolding vote
  vote-IsValid s current v = ground arith

  pub vote-limits :
      (s : AdaptiveExposure F) (current : ExposureSetting)
      → (((vote s current).min_us ≡ s.min_us) × ((vote s current).max_us ≡ s.max_us))
        × ((vote s current).min_gain ≡ s.min_gain)
        × ((vote s current).max_gain ≡ s.max_gain)
  unfolding vote
  vote-limits s current = ground arith

module _ {F : Type 0} (fl : Floats F) where
  new_controller-IsValid :
      (min_us max_us min_gain max_gain : ℤ) (target : ℕ)
      → IfSome IsValid (new_controller fl min_us max_us min_gain max_gain target)
  unfolding new_controller
  new_controller-IsValid min_us max_us min_gain max_gain target = ground arith

  update_limits-IsValid :
      (s : AdaptiveExposure F) (min_us max_us min_gain max_gain : ℤ) (target : ℕ)
      → IsValid s
      → IfSome IsValid (update_limits fl s min_us max_us min_gain max_gain target)
  unfolding update_limits new_controller
  update_limits-IsValid s min_us max_us min_gain max_gain target v = ground arith

  -- Whatever the last frame and its setting were, and whatever the floating-point arithmetic returns:
  -- a controller with valid limits stays valid, and the next setting lies within the limits.
  pub observe-IsBetween :
      (s : AdaptiveExposure F) (current : ExposureSetting) (stats : LumaStats F)
      → IsValid s
      → let (t, next) = observe fl s current stats in
        IsValid t
        × IsBetween s.min_us s.max_us next.exposure_us
        × IsBetween s.min_gain s.max_gain next.gain
  unfolding observe
  observe-IsBetween s current stats v =
      let ((a, b), c, d) = vote-limits s current in
      (
        vote-IsValid s current v,
        rw (a, b) (int_clamp-bounds _ s.min_us s.max_us v.exposures),
        rw (c, d) (int_clamp-bounds _ s.min_gain s.max_gain v.gains),
      )
