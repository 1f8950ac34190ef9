-- ===== src/Shifts/PositionSession/Corrections.antt =====
-- What a supervisor's correction of a session may be.
use aytrackerv.Prelude.{
  ◌≤◌, ◌≡◌, ◌↔◌, ◌⊎◌, inl, inr, refl, Bool, true, false, Option, none, some, List, [], ◌∷◌, arith,
  ltb, All, find?, is_some, Bool-cases,
}
use aytrackerv.Domain.Errors.{DomainError, ◌>>◌, throw_if, is_ok}
use aytrackerv.Domain.Time.{Instant}
use aytrackerv.Shifts.PositionSession.Defs.{
  PositionSessionState, Correction, overlaps, before_end, ends_before, ends_after_shift,
  validate_correction,
}

-- `a` is no later than the end, if there is one.
abbrev pub EndsFrom : Instant → Option Instant → Type 0
EndsFrom a none = Unit
EndsFrom a (some e) = a ≤ e

-- The end, if there is one, is no later than `b`; an open session never ends.
abbrev pub EndsBy : Option Instant → Instant → Type 0
EndsBy none b = ⊥
EndsBy (some e) b = e ≤ b

-- No end passes another; an end that is missing on either side is not compared.
abbrev pub EndsWithin : Option Instant → Option Instant → Type 0
EndsWithin (some shift_end) (some e) = e ≤ shift_end
EndsWithin _ _ = Unit

-- The sibling is over when the corrected session starts, or starts when that is over.
abbrev pub Apart : Correction → PositionSessionState → Type 0
Apart input sibling =
    EndsBy sibling.ended_at input.new_started_at ⊎ EndsBy input.new_ended_at sibling.started_at

pub record IsAcceptable (input : Correction) : Type 0 where
  pub reasoned : 3 ≤ input.reason_length
  pub ordered : EndsFrom input.new_started_at input.new_ended_at
  pub after_shift_start : input.shift_start ≤ input.new_started_at
  pub before_shift_end : EndsWithin input.shift_end input.new_ended_at
  pub apart : All (Apart input) input.sibling_sessions

-- `before_end` fails exactly if the end is no later.
before_end-EndsBy : (a : Instant) (e : Option Instant) → (before_end a e ≡ false) ↔ EndsBy e a
before_end-EndsBy a none = ((λ h. cc), (λ h. absurd h))
before_end-EndsBy a (some e) = ((λ h. ground arith), (λ h. ground arith))

overlaps-Apart :
    (input : Correction) (s : PositionSessionState) → overlaps input s ≡ false → Apart input s
overlaps-Apart input s h = elim (Bool-cases (before_end s.started_at input.new_ended_at)) [
  | inl starts_before ↦
      inl ((before_end-EndsBy input.new_started_at s.ended_at).0 (rw starts_before at h))
  | inr starts_after ↦ inr ((before_end-EndsBy s.started_at input.new_ended_at).0 starts_after)
]

Apart-overlaps :
    (input : Correction) (s : PositionSessionState) → Apart input s → overlaps input s ≡ false
Apart-overlaps input s (inl h) =
    ground (arith, (before_end-EndsBy input.new_started_at s.ended_at).1 h)
Apart-overlaps input s (inr h) =
    ground (arith, (before_end-EndsBy s.started_at input.new_ended_at).1 h)

Apart-siblings :
    (input : Correction) (ss : List PositionSessionState)
    → is_some (find? (overlaps input) ss) ≡ false
    → All (Apart input) ss
Apart-siblings input [] h = tt
Apart-siblings input (s ∷ ss) h =
    (overlaps-Apart input s (ground arith), Apart-siblings input ss (ground arith))

siblings-Apart :
    (input : Correction) (ss : List PositionSessionState)
    → All (Apart input) ss
    → is_some (find? (overlaps input) ss) ≡ false
siblings-Apart input [] h = refl
siblings-Apart input (s ∷ ss) h = rw (Apart-overlaps input s h.0) (siblings-Apart input ss h.1)

ends_before-EndsFrom : (e : Option Instant) (a : Instant) → (ends_before e a ≡ false) ↔ EndsFrom a e
ends_before-EndsFrom none a = ((λ h. tt), (λ h. refl))
ends_before-EndsFrom (some e) a = ((λ h. ground arith), (λ h. ground arith))

ends_after_shift-EndsWithin :
    (e f : Option Instant) → (ends_after_shift e f ≡ false) ↔ EndsWithin e f
ends_after_shift-EndsWithin (some e) (some f) = ((λ h. ground arith), (λ h. ground arith))
ends_after_shift-EndsWithin none f = ((λ h. tt), (λ h. refl))
ends_after_shift-EndsWithin (some e) none = ((λ h. tt), (λ h. refl))

guards_pass :
    (a b c d e : Bool) (x y z u v : DomainError)
    → is_ok (throw_if a x >> throw_if b y >> throw_if c z >> throw_if d u >> throw_if e v) ≡ true
    → (a ≡ false) × (b ≡ false) × (c ≡ false) × (d ≡ false) × (e ≡ false)
guards_pass a b c d e x y z u v h = ground arith

-- The tests that an accepted correction has passed.
abbrev Passes : Correction → Type 0
Passes input =
    (ltb input.reason_length 3 ≡ false)
    × (ends_before input.new_ended_at input.new_started_at ≡ false)
    × (ltb input.new_started_at input.shift_start ≡ false)
    × (ends_after_shift input.shift_end input.new_ended_at ≡ false)
    × (is_some (find? (overlaps input) input.sibling_sessions) ≡ false)

validate_correction-Passes :
    (input : Correction) → is_ok (validate_correction input) ≡ true → Passes input
unfolding validate_correction
validate_correction-Passes input h =
    guards_pass (ltb input.reason_length 3) (ends_before input.new_ended_at input.new_started_at)
      (ltb input.new_started_at input.shift_start)
      (ends_after_shift input.shift_end input.new_ended_at)
      (is_some (find? (overlaps input) input.sibling_sessions)) _ _ _ _ _ h

Passes-validate_correction :
    (input : Correction) → Passes input → is_ok (validate_correction input) ≡ true
unfolding validate_correction
Passes-validate_correction input (a, b, c, d, e) = rw (a, b, c, d, e)

-- A correction is accepted exactly if its reason has three characters, it does not end before it
-- starts, it lies in the shift as far as both have an end, and each sibling session is over when
-- it starts or starts when it is over.
pub validate_correction_iff :
    (input : Correction) → (is_ok (validate_correction input) ≡ true) ↔ IsAcceptable input
validate_correction_iff input = (
  (λ h.
      let (a, b, c, d, e) = validate_correction-Passes input h in
      record {
        reasoned = ground arith;
        ordered = (ends_before-EndsFrom _ _).0 b;
        after_shift_start = ground arith;
        before_shift_end = (ends_after_shift-EndsWithin _ _).0 d;
        apart = Apart-siblings input input.sibling_sessions e;
      }),
  (λ v. Passes-validate_correction input (
    ground arith,
    (ends_before-EndsFrom _ _).1 v.ordered,
    ground arith,
    (ends_after_shift-EndsWithin _ _).1 v.before_shift_end,
    siblings-Apart input input.sibling_sessions v.apart,
  )),
)
