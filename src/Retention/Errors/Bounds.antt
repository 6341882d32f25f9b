-- ===== src/Retention/Errors/Bounds.antt =====
-- The bounds on the error messages of a sweep.
use Prim.Native.String.{String, len, slice}
use text.Mathlib.Text.{is_char_boundary}
use text.Mathlib.TextPositions.{len-append, boundary-zero}
use mathlib.Core.List.{append-nil, append_assoc}
use autopiercam.Base.{
  ℕ, zero, suc, ◌+◌, ◌-◌, ◌≤◌, ◌<◌, ◌≡◌, refl, sym, ap, ◌∙◌, inl, inr, true, false, List, [], ◌∷◌,
  ◌++◌, map, leb, ◌==◌, if_split, length, length-append, arith, saturating_add, u64_max, Bool-cases,
  leb→le, lt→leb_false, le→leb,
}
use autopiercam.Base.Text.{◌+++◌}
use autopiercam.Retention.Errors.{
  bounded_error_message, floor_boundary, RetentionErrors, no_errors, push,
}

boundary-len-slice : (m : String) (e : ℕ) → is_char_boundary m e ≡ true → len (slice m 0 e) ≡ e
boundary-len-slice m e h = ground arith

floor_boundary-le : (m : String) (n : ℕ) → floor_boundary m n ≤ n
unfolding floor_boundary
floor_boundary-le m zero = omega arith
floor_boundary-le m (suc n) =
    if_split (λ t. t ≤ suc n) (is_char_boundary m (suc n)) (λ h. omega arith)
      (λ h. omega (arith, floor_boundary-le m n))

floor_boundary-true : (m : String) (n : ℕ) → is_char_boundary m (floor_boundary m n) ≡ true
unfolding floor_boundary
floor_boundary-true m zero = boundary-zero m
floor_boundary-true m (suc n) =
    if_split (λ t. is_char_boundary m t ≡ true) (is_char_boundary m (suc n)) (λ h. h)
      (λ h. floor_boundary-true m n)

-- No later boundary fits.
floor_boundary-last :
    (m : String) (n k : ℕ) → is_char_boundary m k ≡ true → k ≤ n → k ≤ floor_boundary m n
unfolding floor_boundary
floor_boundary-last m zero k b h = omega arith
floor_boundary-last m (suc n) k b h =
    if_split (λ t. k ≤ t) (is_char_boundary m (suc n)) (λ e. h)
      (λ e. floor_boundary-last m n k b (earlier e))
  where
    earlier : is_char_boundary m (suc n) ≡ false → k ≤ n
    earlier e = elim (Bool-cases (leb k n)) [ inl i ↦ leb→le k n i | inr i ↦ cc (b, e, last i) ]
      where
        last : leb k n ≡ false → k ≡ suc n
        last i = ground arith

module _ (m : String) where
  end : ℕ
  end = floor_boundary m 1021

  short : len m ≤ 1024 → bounded_error_message m ≡ m
  unfolding bounded_error_message
  short h = rw (le→leb (len m) 1024 h) refl

  long : 1024 < len m → bounded_error_message m ≡ slice m 0 end +++ "…"
  unfolding bounded_error_message end
  long h = rw (lt→leb_false (len m) 1024 h) refl

  kept-len : len (slice m 0 end) ≡ end
  unfolding end
  kept-len = boundary-len-slice m (floor_boundary m 1021) (floor_boundary-true m 1021)

  end-le : end ≤ 1021
  unfolding end
  end-le = floor_boundary-le m 1021

  end-last : (k : ℕ) → is_char_boundary m k ≡ true → k ≤ 1021 → k ≤ end
  unfolding end
  end-last k b h = floor_boundary-last m 1021 k b h

  fits : len (bounded_error_message m) ≤ 1024
  fits = elim (Bool-cases (leb (len m) 1024)) [
    | inl i ↦ rw (short (leb→le (len m) 1024 i)) (leb→le (len m) 1024 i)
    | inr i ↦ rw (long (over i), len-append (slice m 0 end) "…", kept-len) (omega (arith, end-le))
  ]
    where
      over : leb (len m) 1024 ≡ false → 1024 < len m
      over i = ground arith

  -- A message of at most 1,024 bytes is kept. A longer one becomes its longest part, cut at a
  -- character, of at most 1,021 bytes, and an ellipsis. What results has at most 1,024 bytes.
  pub bounded_error_message_lem :
      (len m ≤ 1024 → bounded_error_message m ≡ m)
      × (1024 < len m
          → (end : ℕ) × (bounded_error_message m ≡ slice m 0 end +++ "…")
            × (len (slice m 0 end) ≡ end)
            × (end ≤ 1021)
            × ((k : ℕ) → is_char_boundary m k ≡ true → k ≤ 1021 → k ≤ end))
      × (len (bounded_error_message m) ≤ 1024)
  bounded_error_message_lem = (short, (λ h. (end, long h, kept-len, end-le, end-last)), fits)

abbrev pub push_all : RetentionErrors → List String → RetentionErrors
push_all errors [] = errors
push_all errors (m ∷ ms) = push_all (push errors m) ms

abbrev pub first : ℕ → List String → List String
first zero ms = []
first (suc n) [] = []
first (suc n) (m ∷ ms) = m ∷ first n ms

-- What `push` does, by the room that is left.
push-full :
    (errors : RetentionErrors) (m : String)
    → length errors.messages ≡ 8
    → (push errors m).messages ≡ errors.messages
      × ((push errors m).omitted ≡ saturating_add errors.omitted 1)
unfolding push
push-full errors m h = rw h (refl, refl)

push-room :
    (errors : RetentionErrors) (m : String)
    → length errors.messages < 8
    → (push errors m).messages ≡ errors.messages ++ bounded_error_message m ∷ []
      × ((push errors m).omitted ≡ errors.omitted)
unfolding push
push-room errors m h = rw (no (length errors.messages) h) (refl, refl)
  where
    no : (n : ℕ) → n < 8 → (n == 8) ≡ false
    no n h = ground arith

push_all-full :
    (errors : RetentionErrors) (ms : List String)
    → length errors.messages ≡ 8
    → errors.omitted + length ms ≤ u64_max
    → (push_all errors ms).messages ≡ errors.messages
      × ((push_all errors ms).omitted ≡ errors.omitted + length ms)
push_all-full errors [] h k = (refl, omega arith)
push_all-full errors (m ∷ ms) h k =
    let (e, o) = push-full errors m h in
    let (e', o') = push_all-full (push errors m) ms (ap length e ∙ h) (omega (arith, o)) in
    (e' ∙ e, omega (arith, o, o'))

push_all-room :
    (errors : RetentionErrors) (room : ℕ) (ms : List String)
    → length errors.messages + room ≡ 8
    → errors.omitted ≡ 0
    → length ms ≤ u64_max
    → (push_all errors ms).messages ≡ errors.messages ++ map bounded_error_message (first room ms)
      × ((push_all errors ms).omitted ≡ length ms - room)
push_all-room errors zero ms h o k =
    let (e, p) = push_all-full errors ms (omega arith) (omega arith) in
    (e ∙ sym (append-nil errors.messages), omega arith)
push_all-room errors (suc room) [] h o k = (sym (append-nil errors.messages), omega arith)
push_all-room errors (suc room) (m ∷ ms) h o k =
    let (e, p) = push-room errors m (omega arith) in
    let (e', p') =
      push_all-room (push errors m) room ms
        (ap (λ xs. length xs + room) e
          ∙ omega (arith, length-append errors.messages (bounded_error_message m ∷ [])))
        (p ∙ o) (omega arith) in
    (
      e'
          ∙ ap (λ xs. xs ++ map bounded_error_message (first room ms)) e
          ∙ append_assoc errors.messages (bounded_error_message m ∷ [])
              (map bounded_error_message (first room ms)),
      omega arith,
    )

-- Of the messages pushed one after another, the first eight are kept, each cut to its bound, and
-- the others are counted.
pub push_all-no_errors :
    (ms : List String)
    → length ms ≤ u64_max
    → (push_all no_errors ms).messages ≡ map bounded_error_message (first 8 ms)
      × ((push_all no_errors ms).omitted ≡ length ms - 8)
push_all-no_errors ms h = push_all-room no_errors 8 ms refl refl h
