-- ===== src/Exposure/Votes.antt =====
-- How long the evidence for the other mode must last.
use autopiercam.Base.{◌+◌, ◌≤◌, ◌≡◌, true, ◌&&◌, arith, if◌then◌else◌, leb}
use autopiercam.Exposure.{
  Floats, other_mode, ExposureSetting, LumaStats, AdaptiveExposure, opposite, vote, observe,
}

module _ {F : Type 0} where
  -- A frame with evidence adds a vote, up to the third, which changes the mode; one without clears
  -- the votes.
  vote-mode :
      (s : AdaptiveExposure F) (current : ExposureSetting)
      → s.votes ≤ 2
      → ((vote s current).mode
          ≡ (if opposite s.mode current && leb 2 s.votes then other_mode s.mode else s.mode))
        × ((vote s current).votes
            ≡ (if opposite s.mode current && leb s.votes 1 then s.votes + 1 else 0))
  unfolding vote
  vote-mode s current h = ground arith

module _ {F : Type 0} (fl : Floats F) where
  -- A controller without votes, on three frames of any brightness: the mode is kept after the first and
  -- after the second, and changes with the third exactly if all three settings are evidence for the
  -- other mode, which leaves no votes.
  pub observe_three :
      (s : AdaptiveExposure F) (a b c : ExposureSetting) (x y z : LumaStats F)
      → s.votes ≡ 0
      → let first = (observe fl s a x).0 in
        let second = (observe fl first b y).0 in
        let third = (observe fl second c z).0 in
        let all = opposite s.mode a && opposite s.mode b && opposite s.mode c in
        (first.mode ≡ s.mode)
        × (second.mode ≡ s.mode)
        × (third.mode ≡ (if all then other_mode s.mode else s.mode))
        × (all ≡ true → third.votes ≡ 0)
  unfolding observe
  observe_three s a b c x y z h =
      let (m, v) = vote-mode s a (omega arith) in
      let kept : (vote s a).mode ≡ s.mode = ground (arith, m, h) in
      let one : (vote s a).votes ≡ (if opposite s.mode a then 1 else 0) = ground (arith, v, h) in
      let (m', v') = vote-mode (vote s a) b (ground (arith, one)) in
      let kept' : (vote (vote s a) b).mode ≡ s.mode = ground (arith, m', kept, one) in
      let two : (vote (vote s a) b).votes
          ≡ (if opposite s.mode b then (if opposite s.mode a then 2 else 1) else 0) =
        ground (arith, v', kept, one) in
      let (m'', v'') = vote-mode (vote (vote s a) b) c (ground (arith, two)) in
      (kept, kept', ground (arith, m'', kept', two), ground (arith, v'', kept', two))
