-- ===== src/Triggers/Slew.antt =====
-- The single post-slew request: who may make it, replace it or end it, and for how long it stands.
use autopiercam.Base.{
  ℕ, ◌+◌, ◌≤◌, ◌<◌, ◌≡◌, refl, ◌⊎◌, false, not, Option, none, some, arith, inl, inr, Bool-cases,
  if_split, Option-cases, ◌∙◌, ltb, leb, ◌==◌, ◌&&◌, ◌||◌,
}
use autopiercam.Triggers.Events.{TelescopeEvent, slew_completed, event_eq}
use autopiercam.Triggers.Scheduler.{
  from_secs, Frame, TelescopeContext, same_source, Burst, SlewFinish, Scheduler, new_slew_finish,
  on_slew_completed, supersede, expire_burst, attach, on_event, trigger, relabel,
}

-- A request made now stands for 5 to 60 minutes, and asks for a later frame of its session.
pub record IsFreshRequest (p : SlewFinish) (context : Option TelescopeContext) (frame : Frame)
    (now wall_ms : ℕ) : Type 0 where
  pub least : now + from_secs 300 ≤ p.deadline
  pub most : p.deadline ≤ now + from_secs 3600
  pub session : p.session ≡ frame.session
  pub after_sequence : p.after_sequence ≡ frame.sequence
  pub after_unix_ms : p.after_unix_ms ≡ wall_ms
  pub source : p.context ≡ context

new_slew_finish-IsFreshRequest :
    (context : Option TelescopeContext) (frame : Frame) (now wall_ms : ℕ)
    → IsFreshRequest (new_slew_finish context frame now wall_ms) context frame now wall_ms
unfolding new_slew_finish
new_slew_finish-IsFreshRequest context frame now wall_ms = record {
  least = omega arith;
  most = omega arith;
  session = refl;
  after_sequence = refl;
  after_unix_ms = refl;
  source = refl;
}

-- A request that stands for a completed slew: not past its deadline, and of another telescope or of the
-- frame's session.
abbrev pub Stands : Option SlewFinish → Option TelescopeContext → Frame → ℕ → Type 0
Stands none context frame now = ⊥
Stands (some p) context frame now =
    (now < p.deadline) × ((same_source p.context context ≡ false) ⊎ (p.session ≡ frame.session))

-- A completed slew changes nothing where a pending request stands, that is before its deadline and of
-- another telescope or of the frame's session, so that no repetition postpones the image. Where none
-- stands it changes only the request, to a fresh one.
pub slew_completed_request :
    (s : Scheduler) (context : Option TelescopeContext) (frame : Frame) (now wall_ms : ℕ)
    → let t = on_slew_completed s context frame now wall_ms in
      (Stands s.slew_finish context frame now × (t ≡ s))
      ⊎ (¬ Stands s.slew_finish context frame now
          × (p : SlewFinish) × IsFreshRequest p context frame now wall_ms
          × (t ≡ record s { slew_finish = some p }))
unfolding on_slew_completed
slew_completed_request s context frame now wall_ms =
    let fresh = new_slew_finish context frame now wall_ms in
    let is_fresh = new_slew_finish-IsFreshRequest context frame now wall_ms in
    elim (Option-cases s.slew_finish) [
      | inl e ↦ rw e (inr ((λ h. h), fresh, is_fresh, refl))
      | inr (p, e) ↦ elim (Bool-cases (ltb now p.deadline && not (same_source p.context context))) [
        | inl h ↦ rw (e, h) (inl ((ground (arith, h), inl (ground (arith, h))), refl))
        | inr h ↦ elim (Bool-cases (not (p.session == frame.session) || leb p.deadline now)) [
          | inl k ↦ rw (e, h, k) (inr ((λ q. ground (arith, h, k, q)), fresh, is_fresh, refl))
          | inr k ↦ rw (e, h, k) (inl ((ground (arith, k), inr (ground (arith, k))), refl))
        ]
      ]
    ]

attach-slew_finish :
    (s : Scheduler) (event : TelescopeEvent) (context : Option TelescopeContext) (frame : Frame)
    (now : ℕ)
    → (attach s event context frame now).slew_finish ≡ s.slew_finish
unfolding attach trigger
attach-slew_finish s event context frame now = ground arith

expire_burst-slew_finish :
    (s : Scheduler) (frame : Frame) (now : ℕ)
    → (expire_burst s frame now).slew_finish ≡ s.slew_finish
unfolding expire_burst
expire_burst-slew_finish s frame now = ground arith

supersede-slew_finish :
    (s : Scheduler) (event : TelescopeEvent) (context : Option TelescopeContext) (p : SlewFinish)
    → s.slew_finish ≡ some p
    → same_source p.context context ≡ false
    → (supersede s event context).slew_finish ≡ some p
unfolding supersede
supersede-slew_finish s event context p e other = ground arith

slew_completed_other :
    (s : Scheduler) (context : Option TelescopeContext) (frame : Frame) (now wall_ms : ℕ)
    (p : SlewFinish)
    → s.slew_finish ≡ some p
    → now < p.deadline
    → same_source p.context context ≡ false
    → (on_slew_completed s context frame now wall_ms).slew_finish ≡ some p
unfolding on_slew_completed
slew_completed_other s context frame now wall_ms p e in_time other = ground arith

-- Before the deadline of a request, no event of another telescope replaces or ends it.
pub other_source_keeps_request :
    (s : Scheduler) (event : TelescopeEvent) (context : Option TelescopeContext) (frame : Frame)
    (now wall_ms : ℕ) (p : SlewFinish)
    → s.slew_finish ≡ some p
    → now < p.deadline
    → same_source p.context context ≡ false
    → (on_event s event context frame now wall_ms).slew_finish ≡ some p
unfolding on_event
other_source_keeps_request s event context frame now wall_ms p e in_time other =
    if_split (λ (t : Scheduler). t.slew_finish ≡ some p) (event_eq event slew_completed)
      (λ _. slew_completed_other s context frame now wall_ms p e in_time other)
      (λ _.
        attach-slew_finish _ event context frame now
        ∙ expire_burst-slew_finish _ frame now
        ∙ supersede-slew_finish s event context p e other)

-- A burst that is on still, with the images left, the next date and the deadline of `b`.
abbrev pub StillOn : Burst → Option Burst → Type 0
StillOn b none = ⊥
StillOn b (some c) =
    (c.kind ≡ b.kind)
    × (c.remaining ≡ b.remaining)
    × (c.total ≡ b.total)
    × (c.due ≡ b.due)
    × (c.deadline ≡ b.deadline)

attach-StillOn :
    (s : Scheduler) (event : TelescopeEvent) (context : Option TelescopeContext) (frame : Frame)
    (now : ℕ) (b : Burst)
    → s.burst ≡ some b
    → StillOn b (attach s event context frame now).burst
unfolding attach relabel
attach-StillOn s event context frame now b e = ground arith

slew_completed-StillOn :
    (s : Scheduler) (context : Option TelescopeContext) (frame : Frame) (now wall_ms : ℕ)
    (b : Burst)
    → s.burst ≡ some b
    → StillOn b (on_slew_completed s context frame now wall_ms).burst
unfolding on_slew_completed
slew_completed-StillOn s context frame now wall_ms b e = ground arith

expired-burst :
    (s : Scheduler) (event : TelescopeEvent) (context : Option TelescopeContext) (frame : Frame)
    (now : ℕ) (b : Burst)
    → s.burst ≡ some b
    → b.session ≡ frame.session
    → now < b.deadline
    → (expire_burst (supersede s event context) frame now).burst ≡ some b
unfolding expire_burst supersede
expired-burst s event context frame now b e session in_time = ground arith

-- A burst of the frame's session is not prolonged by events before its deadline: whatever a telescope
-- reports, its kind, its images, its next date and its deadline stay.
pub event_keeps_burst :
    (s : Scheduler) (event : TelescopeEvent) (context : Option TelescopeContext) (frame : Frame)
    (now wall_ms : ℕ) (b : Burst)
    → s.burst ≡ some b
    → b.session ≡ frame.session
    → now < b.deadline
    → StillOn b (on_event s event context frame now wall_ms).burst
unfolding on_event
event_keeps_burst s event context frame now wall_ms b e session in_time =
    if_split (λ (t : Scheduler). StillOn b t.burst) (event_eq event slew_completed)
      (λ _. slew_completed-StillOn s context frame now wall_ms b e)
      (λ _.
        attach-StillOn _ event context frame now b
          (expired-burst s event context frame now b e session in_time))
