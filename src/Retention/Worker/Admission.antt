-- ===== src/Retention/Worker/Admission.antt =====
-- When a movie is admitted (`RetentionSink::check_video_space`).
use Prim.Native.String.{String}
use autopiercam.Base.{
  ℕ, ◌+◌, ◌-◌, is_some, if◌then◌else◌, ◌>>=◌, ◌≤◌, ◌≡◌, ◌↔◌, refl, sym, ◌∙◌, not, ◌⊎◌, Bool, true,
  false, ◌&&◌, Option, none, some, List, [], ◌∷◌, arith, min, u64_max, leb, is_none_or, is_some_and,
  if_split, map_option, saturating_add, Result, ok, err, Result-cases, inl, inr,
}
use autopiercam.Retention.Policy.{
  RetentionPolicy, has_byte_quota, needs_free_space, quotas_satisfied,
}
use autopiercam.Retention.Candidates.{ManagedArtifact}
use autopiercam.Retention.Environment.{Environment}
use autopiercam.Retention.Worker.{
  Shared, video_space, check_quota, probe_free, add_artifacts, wake_on_error, check_video_space,
  try_wake, try_send,
}

module _ {P : Type 0} where
  -- The sum of the sizes, unbounded.
  abbrev pub artifact_total : List (ManagedArtifact P) → ℕ
  artifact_total [] = 0
  artifact_total (file ∷ rest) = file.file_size_bytes + artifact_total rest

  add_artifacts-total :
      (t : ℕ) (files : List (ManagedArtifact P)) (additional : ℕ)
      → saturating_add (add_artifacts t files) additional
        ≡ min (t + artifact_total files + additional) u64_max
  unfolding add_artifacts
  add_artifacts-total t [] additional = omega arith
  add_artifacts-total t (file ∷ rest) additional =
      omega (arith, add_artifacts-total (saturating_add t file.file_size_bytes) rest additional)

-- A number of bytes, counted up to `u64::MAX`, is within an optional maximum.
abbrev pub IsWithin : Option ℕ → ℕ → Type 0
IsWithin none bytes = Unit
IsWithin (some maximum) bytes = min bytes u64_max ≤ maximum

IsWithin-iff :
    (m : Option ℕ) (bytes : ℕ)
    → (is_none_or m (λ maximum. leb (min bytes u64_max) maximum) ≡ true) ↔ IsWithin m bytes
IsWithin-iff none bytes = ((λ h. tt), (λ h. refl))
IsWithin-iff (some maximum) bytes = ((λ h. ground (arith, h)), (λ h. ground (arith, h)))

-- A wake-up is under way, or the thread is stopped.
abbrev pub IsAwake : Shared → Type 0
IsAwake s = (s.wake ≡ true) ⊎ (s.stop ≡ true)

and_iff : (a b : Bool) → ((a && b) ≡ true) ↔ ((a ≡ true) × (b ≡ true))
and_iff a b = ((λ h. ground (arith, h)), (λ h. ground (arith, h)))

-- The free bytes can be read, and an optional minimum of them is left after the movie.
abbrev pub LeavesFree : Option ℕ → Result ℕ → ℕ → Type 0
LeavesFree none available additional = Unit
LeavesFree (some minimum) available additional =
    (bytes : ℕ) × (available ≡ ok bytes) × (minimum ≤ bytes - additional)

abbrev probed : Bool → Result ℕ → Result (Option ℕ)
probed asked available = if asked then (do bytes ← available; ok (some bytes)) else ok none

abbrev enough : Option ℕ → ℕ → Option ℕ → Bool
enough m additional free = is_none_or m (λ minimum.
    is_some_and (map_option (λ bytes. bytes - additional) free) (λ bytes. leb minimum bytes))

-- The probe succeeds and is enough exactly if the movie leaves the minimum.
probed_enough :
    (m : Option ℕ) (available : Result ℕ) (additional : ℕ) (free : Option ℕ)
    → probed (is_some m) available ≡ ok free
    → enough m additional free ≡ true
    → LeavesFree m available additional
probed_enough none available additional free h k = tt
probed_enough (some minimum) (ok bytes) additional (some b) h k =
    (b, ground (arith, h), ground (arith, h, k))
probed_enough (some minimum) (ok bytes) additional none h k = cc k
probed_enough (some minimum) (err e) additional free h k = cc h

enough_probed :
    (m : Option ℕ) (available : Result ℕ) (additional : ℕ)
    → LeavesFree m available additional
    → (free : Option ℕ) × (probed (is_some m) available ≡ ok free)
      × (enough m additional free ≡ true)
enough_probed none available additional h = (none, refl, refl)
enough_probed (some minimum) available additional (bytes, e, h) =
    (some bytes, rw e refl, ground (arith, h))

module _ {P W : Type 0} (env : Environment P W) (policy : RetentionPolicy) where
  -- The files and the private bytes can be read, with the movie they are within the maximum, and it
  -- leaves the minimum of free bytes.
  abbrev pub Fits : W → ℕ → Type 0
  Fits w additional =
      (inventory : List (ManagedArtifact P)) × (private : ℕ) × (env.inventory w ≡ ok inventory)
      × (env.private_bytes w ≡ ok private)
      × IsWithin policy.max_managed_bytes (private + artifact_total inventory + additional)
      × LeavesFree policy.min_free_bytes (env.available_bytes w) additional

  satisfied_iff :
      (inventory : List (ManagedArtifact P)) (private additional : ℕ) (free : Option ℕ)
      → (quotas_satisfied policy
            (saturating_add (add_artifacts private inventory) additional)
            (map_option (λ bytes. bytes - additional) free)
          ≡ true)
        ↔ (IsWithin policy.max_managed_bytes (private + artifact_total inventory + additional)
            × (enough policy.min_free_bytes additional free ≡ true))
  unfolding quotas_satisfied
  satisfied_iff inventory private additional free =
      let total = private + artifact_total inventory + additional in
      let within = IsWithin-iff policy.max_managed_bytes total in
      let both =
        and_iff (is_none_or policy.max_managed_bytes (λ maximum. leb (min total u64_max) maximum))
          (enough policy.min_free_bytes additional free) in
      rw (add_artifacts-total private inventory additional)
        ((λ h. (within.0 (both.0 h).0, (both.0 h).1)), (λ h. both.1 (within.1 h.0, h.1)))

  check_quota-Fits :
      (w : W) (additional : ℕ) → check_quota env policy w additional ≡ ok tt → Fits w additional
  unfolding check_quota probe_free needs_free_space
  check_quota-Fits w additional h = elim (Result-cases (env.inventory w)) [
    | inl (inventory, e) ↦ elim (Result-cases (env.private_bytes w)) [
      | inl (private, k) ↦ elim (Result-cases (probe_free env policy w)) [
        | inl (free, l) ↦
            let (within, left) =
              (satisfied_iff inventory private additional free).0 (ground (arith, h, e, k, l)) in
            (
              inventory,
              private,
              e,
              k,
              within,
              probed_enough policy.min_free_bytes (env.available_bytes w) additional free l left,
            )
        | inr (x, l) ↦ ground (arith, h, e, k, l)
      ]
      | inr (x, k) ↦ ground (arith, h, e, k)
    ]
    | inr (x, e) ↦ ground (arith, h, e)
  ]

  Fits-check_quota :
      (w : W) (additional : ℕ) → Fits w additional → check_quota env policy w additional ≡ ok tt
  unfolding check_quota probe_free needs_free_space
  Fits-check_quota w additional (inventory, private, e, k, within, left) =
      let (free, l, m) =
        enough_probed policy.min_free_bytes (env.available_bytes w) additional left in
      rw (e, k, l, (satisfied_iff inventory private additional free).1 (within, m)) refl

  try_wake-wakes : (s : Shared) → IsAwake (try_wake s).0
  unfolding try_wake try_send
  try_wake-wakes s = ground arith

  -- While the thread has not been stopped, a movie may be made where there is no byte quota, or it
  -- fits.
  abbrev pub MayFilm : Shared → W → ℕ → Type 0
  MayFilm s w additional = (s.stop ≡ false) × ((has_byte_quota policy ≡ false) ⊎ Fits w additional)

  video_space_iff :
      (s : Shared) (w : W) (additional : ℕ)
      → (video_space env policy s w additional ≡ ok tt) ↔ MayFilm s w additional
  unfolding video_space
  video_space_iff s w additional =
      if_split Admits s.stop (λ i. ((λ h. cc h), (λ h. cc (i, h.0))))
        (λ i.
          if_split Admits (not (has_byte_quota policy))
            (λ j. ((λ h. (i, inl (ground (arith, j)))), (λ h. refl)))
            (λ j. (
              (λ h. (i, inr (check_quota-Fits w additional h))),
              (λ h. elim h.1 [
                | inl unlimited ↦ cc (j, unlimited)
                | inr fits ↦ Fits-check_quota w additional fits
              ]),
            )))
    where
      Admits : Result (Unit {0}) → Type 0
      Admits r = (r ≡ ok tt) ↔ MayFilm s w additional

  wake_on_error-result : (s : Shared) (r : Result (Unit {0})) → (wake_on_error s r).1 ≡ r
  wake_on_error-result s (ok u) = refl
  wake_on_error-result s (err e) = refl

  wake_on_error-state :
      (s : Shared) (r : Result (Unit {0}))
      → (r ≡ ok tt → (wake_on_error s r).0 ≡ s)
        × ((e : String) → r ≡ err e → IsAwake (wake_on_error s r).0)
  wake_on_error-state s (ok u) = ((λ h. refl), (λ e h. cc h))
  wake_on_error-state s (err x) = ((λ h. cc h), (λ e h. try_wake-wakes s))

  -- A movie is let through exactly if the thread has not been stopped and there is no byte quota or
  -- the movie fits: the inventory and the private bytes can be read, their sum with its bytes (counted
  -- up to `u64::MAX`) is within the maximum, and, if the policy asks for a minimum of free bytes, the
  -- free bytes can be read and leave it when its bytes are taken from them. A check that lets it
  -- through changes nothing, and one that fails wakes the thread or finds it stopped.
  pub check_video_space_lem :
      (s : Shared) (w : W) (additional : ℕ)
      → let (t, result) = check_video_space env policy s w additional in
        ((result ≡ ok tt) ↔ MayFilm s w additional)
        × (result ≡ ok tt → t ≡ s)
        × ((e : String) → result ≡ err e → IsAwake t)
  unfolding check_video_space
  check_video_space_lem s w additional =
      let r = video_space env policy s w additional in
      let same = wake_on_error-result s r in
      let (passed, failed) = wake_on_error-state s r in
      let exact = video_space_iff s w additional in
      (
        ((λ h. exact.0 (sym same ∙ h)), (λ h. same ∙ exact.1 h)),
        (λ h. passed (sym same ∙ h)),
        (λ e h. failed e (sym same ∙ h)),
      )
