-- ===== src/Triggers/Rules.antt =====
-- `TriggerRules`, the local consent that bounds them, and the rules in force
-- (crates/autopiercam-chatstronomy/src/service.rs, `Settings::rules`).
use autopiercam.Base.{
  ℕ, ◌≤◌, ◌≡◌, ◌⊎◌, Bool, true, not, ◌&&◌, ◌||◌, Option, none, some, arith, leb, ltb, ◌==◌,
  if◌then◌else◌, Bool-cases, &&-true, inl, inr,
}

pub record TriggerRules : Type 0 where
  pub interval_minutes : ℕ
  pub scene_changes : Bool
  pub day_night : Bool
  pub telescope_events : Bool
  pub burst_count : ℕ
  pub spacing_seconds : ℕ

-- The fields of `Preferences` that the rules depend on.
pub record Preferences : Type 0 where
  pub scene_changes : Bool
  pub day_night : Bool
  pub interval_minutes : ℕ
  pub telescope_events : Bool
  pub chat_configuration : Bool
  pub burst_count : ℕ
  pub spacing_seconds : ℕ

unfoldable pub local_rules : Preferences → TriggerRules
local_rules p = record {
  interval_minutes = p.interval_minutes;
  scene_changes = p.scene_changes;
  day_night = p.day_night;
  telescope_events = p.telescope_events;
  burst_count = p.burst_count;
  spacing_seconds = p.spacing_seconds;
}

unfoldable pub allowed_by : TriggerRules → Preferences → Bool
allowed_by rules p =
    leb rules.interval_minutes 1440
    && (rules.interval_minutes == 0
        || (ltb 0 p.interval_minutes && leb p.interval_minutes rules.interval_minutes))
    && (not rules.scene_changes || p.scene_changes)
    && (not rules.day_night || p.day_night)
    && (not rules.telescope_events || p.telescope_events)
    && (leb 1 rules.burst_count && leb rules.burst_count p.burst_count)
    && (leb p.spacing_seconds rules.spacing_seconds && leb rules.spacing_seconds 600)

-- The range check of `Preferences::validate`.
unfoldable pub preferences_in_range : Preferences → Bool
preferences_in_range p = not (
    ltb 1440 p.interval_minutes
    || not (leb 1 p.burst_count && leb p.burst_count 3)
    || not (leb 60 p.spacing_seconds && leb p.spacing_seconds 600))

pub record Settings : Type 0 where
  pub preferences : Preferences
  pub remote_rules : Option TriggerRules

-- `filter` on the remote rules, then `unwrap_or_else`.
accept_remote : Preferences → Option TriggerRules → TriggerRules
accept_remote p none = local_rules p
accept_remote p (some r) = if p.chat_configuration && allowed_by r p then r else local_rules p

unfoldable pub rules_in_force : Settings → TriggerRules
unfolding accept_remote allowed_by local_rules
rules_in_force settings = accept_remote settings.preferences settings.remote_rules

-- What the local operator consented to bounds the rules: no source is on that is off locally, a
-- burst is not longer, the spacing not shorter, and a periodic interval not shorter.
pub record Narrows (r : TriggerRules) (p : Preferences) : Type 0 where
  pub scene_changes : r.scene_changes ≡ true → p.scene_changes ≡ true
  pub day_night : r.day_night ≡ true → p.day_night ≡ true
  pub telescope_events : r.telescope_events ≡ true → p.telescope_events ≡ true
  pub burst_count : (1 ≤ r.burst_count) × (r.burst_count ≤ p.burst_count)
  pub spacing_seconds : (p.spacing_seconds ≤ r.spacing_seconds) × (r.spacing_seconds ≤ 600)
  pub interval_minutes :
      (r.interval_minutes ≡ 0)
      ⊎ ((1 ≤ p.interval_minutes)
          × (p.interval_minutes ≤ r.interval_minutes)
          × (r.interval_minutes ≤ 1440))

local_rules-Narrows : (p : Preferences) → preferences_in_range p ≡ true → Narrows (local_rules p) p
unfolding local_rules preferences_in_range
local_rules-Narrows p h = record {
  scene_changes = λ e. e;
  day_night = λ e. e;
  telescope_events = λ e. e;
  burst_count = ground arith;
  spacing_seconds = ground arith;
  interval_minutes = ground arith;
}

allowed_by-Narrows : (r : TriggerRules) (p : Preferences) → allowed_by r p ≡ true → Narrows r p
unfolding allowed_by
allowed_by-Narrows r p h = record {
  scene_changes = λ e. ground arith;
  day_night = λ e. ground arith;
  telescope_events = λ e. ground arith;
  burst_count = ground arith;
  spacing_seconds = ground arith;
  interval_minutes = ground arith;
}

accept_remote-Narrows :
    (p : Preferences) (o : Option TriggerRules)
    → preferences_in_range p ≡ true
    → Narrows (accept_remote p o) p
unfolding accept_remote
accept_remote-Narrows p none h = local_rules-Narrows p h
accept_remote-Narrows p (some r) h = elim (Bool-cases (p.chat_configuration && allowed_by r p)) [
  | inl e ↦ rw e (allowed_by-Narrows r p (&&-true p.chat_configuration (allowed_by r p) e).1)
  | inr e ↦ rw e (local_rules-Narrows p h)
]

-- With valid preferences the rules in force never exceed the local consent, whatever rules the Hub
-- sent: no source is on that is off locally, a burst has 1 image at least and not more than chosen, the
-- spacing is not shorter than chosen nor above 600 s, and a periodic interval, if any, is not shorter
-- than the one chosen.
pub rules_in_force-Narrows :
    (s : Settings)
    → preferences_in_range s.preferences ≡ true
    → Narrows (rules_in_force s) s.preferences
unfolding rules_in_force
rules_in_force-Narrows s h = accept_remote-Narrows s.preferences s.remote_rules h
