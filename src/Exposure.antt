-- ===== src/Exposure.antt =====
-- `AdaptiveExposure` (crates/autopiercam-core/src/exposure.rs): the exposure and the gain of the next
-- frame from the brightness of the last one.
pub mod Bounds
pub mod Steps
pub mod Votes
use autopiercam.Base.{
  ℕ, ◌+◌, ℤ, pos, negsuc, int_leb, int_ltb, int_min, int_max, int_clamp, i64_saturating_add,
  i64_saturating_sub, Bool, true, false, not, ◌&&◌, ◌||◌, Option, none, some, ltb, leb, min, max,
  if◌then◌else◌,
}

-- Floating-point numbers: the operations that the controller uses, with its literals. Nothing is
-- assumed of them.
pub record Floats (F : Type 0) : Type 0 where
  pub from_u8 : ℕ → F
  pub divide : F → F → F
  pub clamp : F → F → F → F
  pub less : F → F → Bool
  pub at_least : F → F → Bool
  pub scale : ℤ → F → ℤ
  pub clip_limit : F
  pub quarter : F
  pub least_ratio : F
  pub one : F
  pub four : F
  pub low_ratio : F
  pub high_ratio : F

pub data LightMode : Type 0 where
  day night : LightMode

pub record ExposureSetting : Type 0 where
  pub exposure_us : ℤ
  pub gain : ℤ

-- The statistics that the controller reads.
pub record LumaStats (F : Type 0) : Type 0 where
  pub p90 : ℕ
  pub clipped_fraction : F

pub record AdaptiveExposure (F : Type 0) : Type 0 where
  pub min_us : ℤ
  pub max_us : ℤ
  pub min_gain : ℤ
  pub max_gain : ℤ
  pub target : F
  pub mode : LightMode
  pub votes : ℕ
  pub prefer_short_exposures : Bool

abbrev pub other_mode : LightMode → LightMode
other_mode day = night
other_mode night = day

-- The `assert!` of `new`.
abbrev pub are_limits : ℤ → ℤ → ℤ → ℤ → ℕ → Bool
are_limits min_us max_us min_gain max_gain target =
    int_ltb (pos 0) min_us
    && int_leb min_us max_us
    && int_leb (pos 0) min_gain
    && int_leb min_gain max_gain
    && ltb 0 target

-- The evidence for the other mode.
abbrev pub opposite : LightMode → ExposureSetting → Bool
opposite day current = int_leb (pos 1000000) current.exposure_us
opposite night current = int_leb current.exposure_us (pos 250000)

module _ {F : Type 0} where
  unfoldable pub with_initial_mode : AdaptiveExposure F → LightMode → AdaptiveExposure F
  with_initial_mode s mode = record s { mode = mode }

  unfoldable pub initial_exposure_us : AdaptiveExposure F → ℤ
  initial_exposure_us s =
      int_clamp (elim s.mode [ day ↦ pos 10000 | night ↦ pos 1000000 ]) s.min_us s.max_us

  unfoldable pub set_prefer_short_exposures : AdaptiveExposure F → Bool → AdaptiveExposure F
  set_prefer_short_exposures s prefer = record s { prefer_short_exposures = prefer }

  abbrev with_limits :
      AdaptiveExposure F → Option (AdaptiveExposure F) → Option (AdaptiveExposure F)
  with_limits s none = none
  with_limits s (some next) = some (record s {
    min_us = next.min_us;
    max_us = next.max_us;
    min_gain = next.min_gain;
    max_gain = next.max_gain;
    target = next.target;
  })

  unfoldable pub vote : AdaptiveExposure F → ExposureSetting → AdaptiveExposure F
  vote s current =
      let votes : ℕ = if opposite s.mode current then min (s.votes + 1) 255 else 0 in
      if leb 3 votes
      then record s { mode = other_mode s.mode; votes = 0 }
      else record s { votes = votes }

  abbrev pub raised_gain : AdaptiveExposure F → ExposureSetting → ℤ
  raised_gain s current = int_min (i64_saturating_add current.gain 20) s.max_gain

  abbrev pub lowered_gain : AdaptiveExposure F → ExposureSetting → ℤ
  lowered_gain s current = int_max (i64_saturating_sub current.gain 30) s.min_gain

module _ {F : Type 0} (fl : Floats F) where
  -- A failed assertion is `none`.
  unfoldable pub new_controller : ℤ → ℤ → ℤ → ℤ → ℕ → Option (AdaptiveExposure F)
  new_controller min_us max_us min_gain max_gain target =
      if are_limits min_us max_us min_gain max_gain target
      then some (record {
        min_us = min_us;
        max_us = max_us;
        min_gain = min_gain;
        max_gain = max_gain;
        target = fl.from_u8 target;
        mode = day;
        votes = 0;
        prefer_short_exposures = false;
      })
      else none

  unfoldable pub update_limits :
      AdaptiveExposure F → ℤ → ℤ → ℤ → ℤ → ℕ → Option (AdaptiveExposure F)
  update_limits s min_us max_us min_gain max_gain target =
      with_limits s (new_controller min_us max_us min_gain max_gain target)

  abbrev pub is_clipped : LumaStats F → Bool
  is_clipped stats = fl.less fl.clip_limit stats.clipped_fraction

  abbrev pub brightness_ratio : AdaptiveExposure F → LumaStats F → F
  brightness_ratio s stats =
      if is_clipped stats
      then fl.quarter
      else fl.clamp (fl.divide s.target (fl.from_u8 (max stats.p90 1))) fl.least_ratio fl.four

  -- The new exposure, and the gain where the exposure is at its limit.
  unfoldable pub scale_exposure : AdaptiveExposure F → ExposureSetting → F → ExposureSetting
  scale_exposure s current ratio = record {
    exposure_us = int_clamp (fl.scale current.exposure_us ratio) s.min_us s.max_us;
    gain =
        if fl.less fl.one ratio && int_leb s.max_us current.exposure_us
        then raised_gain s current
        else if fl.less ratio fl.one && int_leb current.exposure_us s.min_us
        then lowered_gain s current
        else current.gain;
  }

  -- The setting before the last clamp.
  unfoldable pub adjust : AdaptiveExposure F → ExposureSetting → Bool → F → ExposureSetting
  adjust s current clipped ratio =
      if s.prefer_short_exposures
        && not clipped
        && fl.at_least ratio fl.low_ratio
        && int_ltb current.gain s.max_gain
        && (fl.less fl.high_ratio ratio || int_ltb s.min_us current.exposure_us)
      then record current { gain = raised_gain s current }
      else if clipped || not (fl.at_least ratio fl.low_ratio && fl.at_least fl.high_ratio ratio)
      then (if not s.prefer_short_exposures
            && fl.less ratio fl.one
            && int_leb current.exposure_us (pos 250000)
            && int_ltb s.min_gain current.gain
          then record current { gain = lowered_gain s current }
          else scale_exposure s current ratio)
      else current

  unfoldable pub observe :
      AdaptiveExposure F → ExposureSetting → LumaStats F → AdaptiveExposure F × ExposureSetting
  observe s current stats =
      let t : AdaptiveExposure F = vote s current in
      let next : ExposureSetting = adjust t current (is_clipped stats) (brightness_ratio t stats) in
      (
        t,
        record {
          exposure_us = int_clamp next.exposure_us t.min_us t.max_us;
          gain = int_clamp next.gain t.min_gain t.max_gain;
        },
      )
