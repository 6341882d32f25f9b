-- ===== src/Triggers/Events.antt =====
-- `TelescopeEvent`: the fixed vocabulary of the Hub's events, and what a caption says of them.
use Prim.Native.String.{String}
use autopiercam.Base.{Bool, true, false, ◌&&◌, Option, none, some, List, [], ◌∷◌}
use autopiercam.Base.Text.{◌+++◌, str_eq, strip_suffix, match_text}

pub data TelescopeEvent : Type 0 where
  slew_started slew_completed sequence_started sequence_finished : TelescopeEvent
  action : String → TelescopeEvent
  operation : String → String → TelescopeEvent

-- `==`, as it is derived.
abbrev pub event_eq : TelescopeEvent → TelescopeEvent → Bool
event_eq slew_started slew_started = true
event_eq slew_completed slew_completed = true
event_eq sequence_started sequence_started = true
event_eq sequence_finished sequence_finished = true
event_eq (action a) (action b) = str_eq a b
event_eq (operation a p) (operation b q) = str_eq a b && str_eq p q
event_eq _ _ = false

unfoldable pub parse : String → Option TelescopeEvent
parse = match_text (
    ("mount_slew_started", slew_started)
    ∷ ("mount_slewed", slew_completed)
    ∷ ("sequence_started", sequence_started)
    ∷ ("sequence_finished", sequence_finished)
    ∷ [])

abbrev pub actions : List (String × String)
actions =
    ("target_changed", "target changed")
    ∷ ("autofocus_started", "autofocus started")
    ∷ ("autofocus_completed", "autofocus completed")
    ∷ ("autofocus_failed", "autofocus failed")
    ∷ ("mount_parked", "mount parked")
    ∷ ("mount_unparked", "mount unparked")
    ∷ ("meridian_flip_started", "meridian flip started")
    ∷ ("meridian_flip_completed", "meridian flip completed")
    ∷ ("guiding_started", "guiding started")
    ∷ ("guiding_stopped", "guiding stopped")
    ∷ ("guiding_dithered", "guiding dithered")
    ∷ ("rotator_move_started", "rotator move started")
    ∷ ("rotator_moved", "rotator moved")
    ∷ ("filter_changed", "filter changed")
    ∷ ("focuser_moved", "focuser moved")
    ∷ []

abbrev pub phases : List (String × String)
phases =
    ("_started", "started")
    ∷ ("_completed", "completed")
    ∷ ("_ended", "ended")
    ∷ ("_failed", "failed")
    ∷ []

abbrev pub operations : List (String × String)
operations =
    ("camera_cooling", "camera cooling")
    ∷ ("camera_warming", "camera warming")
    ∷ ("time_wait", "time wait")
    ∷ ("astronomical_wait", "astronomical wait")
    ∷ ("safety_wait", "safety wait")
    ∷ ("condition_wait", "condition wait")
    ∷ ("manual_wait", "manual wait")
    ∷ ("sequence_slew", "sequence slew")
    ∷ ("mount_center", "mount centering")
    ∷ ("plate_solve", "plate solving")
    ∷ []

-- The `find_map` over the suffixes: the first that the event ends in.
split_phase : List (String × String) → String → Option (String × String)
split_phase [] event = none
split_phase ((suffix, phase) ∷ rest) event = elim (strip_suffix event suffix) [
  | none ↦ split_phase rest event
  | some base ↦ some (base, phase)
]

parse_operation : Option (String × String) → Option TelescopeEvent
parse_operation none = none
parse_operation (some (base, phase)) = elim (match_text operations base) [
  | none ↦ none
  | some description ↦ some (operation description phase)
]

parse_action : Option String → String → Option TelescopeEvent
unfolding split_phase parse_operation
parse_action (some description) event = some (action description)
parse_action none event = parse_operation (split_phase phases event)

unfoldable pub parse_context : String → Option TelescopeEvent
unfolding parse parse_action
parse_context event = elim (parse event) [
  | some e ↦ some e
  | none ↦ parse_action (match_text actions event) event
]

unfoldable pub description : TelescopeEvent → String
description slew_started = "mount slew started"
description slew_completed = "mount slew completed"
description sequence_started = "sequence started"
description sequence_finished = "sequence finished"
description (action a) = a
description (operation a phase) = a +++ " " +++ phase
