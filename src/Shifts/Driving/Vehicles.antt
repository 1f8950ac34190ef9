-- ===== src/Shifts/Driving/Vehicles.antt =====
-- Who holds which vehicle: the picker, the assignment that a handoff makes, and its release.
use aytrackerv.Prelude.{
  ℕ, ◌≡◌, ◌≢◌, ◌⊎◌, inl, inr, refl, Bool, true, false, not, ◌&&◌, ◌||◌, none, some, String, List,
  [], ◌∷◌, ◌++◌, Perm, arith, any, filter, find?, is_some, Option-cases, All,
}
use aytrackerv.Prelude.Sort.{sort-perm, IsSorted, IsComparator, sort-IsSorted}
use aytrackerv.Domain.Errors.{ok}
use aytrackerv.Domain.Time.{Instant}
use aytrackerv.Shifts.Driving.Defs.{
  SelectableVehicle, is_active_vehicle, own_first, selectable_vehicles, Assignment, AssignmentPlan,
  reuse, create, plan_assignment, load_assignment_context, apply_assignment,
  close_automatic_assignment, is_open_for_vehicle, is_open_for_driver, is_released,
}

-- The row is closed, or no other open row is for its driver or for its vehicle.
abbrev pub IsAlone : Assignment → List Assignment → Type 0
IsAlone a rows =
    (is_some a.ended_at ≡ true)
    ⊎ ((find? (is_open_for_driver a.driver_id) rows ≡ none)
        × (find? (is_open_for_vehicle a.vehicle_id) rows ≡ none))

-- No driver holds two vehicles, and no vehicle is held twice.
abbrev pub IsExclusive : List Assignment → Type 0
IsExclusive [] = Unit
IsExclusive (a ∷ rows) = IsAlone a rows × IsExclusive rows

-- Where a vehicle's open row names the driver, it is the driver's own open row.
holder-find? :
    (v d : ℕ) (h : Assignment) (rows : List Assignment)
    → IsExclusive rows
    → find? (is_open_for_vehicle v) rows ≡ some h
    → h.driver_id ≡ d
    → find? (is_open_for_driver d) rows ≡ some h
holder-find? v d h [] x e k = cc
holder-find? v d h (a ∷ rows) x e k = ground (arith, holder-find? v d h rows x.1)

-- A driver's open row on a vehicle is an open row of that vehicle.
driver-find? :
    (v d : ℕ) (a : Assignment) (rows : List Assignment)
    → find? (is_open_for_driver d) rows ≡ some a
    → a.vehicle_id ≡ v
    → find? (is_open_for_vehicle v) rows ≢ none
driver-find? v d a [] e k = cc
driver-find? v d a (b ∷ rows) e k = ground (arith, driver-find? v d a rows)

module _ (d : ℕ) (vehicle : SelectableVehicle) (fresh : ℕ) (rows : List Assignment) where
  -- The rows once the plan has been carried out.
  abbrev pub assigned : AssignmentPlan → List Assignment
  assigned p = apply_assignment p fresh d vehicle.vehicle_id rows

  planned_create :
      (p : AssignmentPlan)
      → find? (is_open_for_vehicle vehicle.vehicle_id) rows ≡ none
      → plan_assignment (load_assignment_context rows vehicle d) d ≡ ok p
      → (p ≡ create) × (find? (is_open_for_driver d) rows ≡ none)
  unfolding plan_assignment load_assignment_context
  planned_create p unheld h = elim (Option-cases (find? (is_open_for_driver d) rows)) [
    | inl free ↦ ground arith
    | inr (b, busy) ↦ ground (arith, driver-find? vehicle.vehicle_id d b rows)
  ]

  planned_reuse :
      (p : AssignmentPlan) (a : Assignment)
      → find? (is_open_for_vehicle vehicle.vehicle_id) rows ≡ some a
      → plan_assignment (load_assignment_context rows vehicle d) d ≡ ok p
      → (p ≡ reuse a.id) × (a.driver_id ≡ d)
  unfolding plan_assignment load_assignment_context
  planned_reuse p a held h = ground arith

  abbrev new_row : Assignment
  new_row = record {
    id = fresh;
    driver_id = d;
    vehicle_id = vehicle.vehicle_id;
    ended_at = none;
    is_automatic = true;
  }

  -- The rows are exclusive, and the driver's open row is the vehicle's.
  abbrev pub IsHeld : List Assignment → Type 0
  IsHeld rs =
      IsExclusive rs
      × ((a : Assignment) × (find? (is_open_for_driver d) rs ≡ some a)
          × (find? (is_open_for_vehicle vehicle.vehicle_id) rs ≡ some a))

  -- Where no driver holds two vehicles and no vehicle is held twice, that stays so after any
  -- assignment that is planned, and the driver and the vehicle then hold each other: the open row
  -- of the one is the open row of the other.
  pub plan_assignment-IsExclusive :
      (p : AssignmentPlan)
      → IsExclusive rows
      → plan_assignment (load_assignment_context rows vehicle d) d ≡ ok p
      → IsHeld (assigned p)
  unfolding apply_assignment
  plan_assignment-IsExclusive p x h =
      elim (Option-cases (find? (is_open_for_vehicle vehicle.vehicle_id) rows)) [
        | inl unheld ↦
            let (created, free) = planned_create p unheld h in
            rw created ((inr (free, unheld), x), (new_row, ground arith, ground arith))
        | inr (a, held) ↦
            let (reused, own) = planned_reuse p a held h in
            rw reused (x, (a, holder-find? vehicle.vehicle_id d a rows x held own, held))
      ]

close_unreleased :
    (d v : ℕ) (at : Instant) (rows : List Assignment)
    → any (is_released d v) rows ≡ false
    → close_automatic_assignment d v at rows ≡ rows
unfolding close_automatic_assignment
close_unreleased d v at [] h = refl
close_unreleased d v at (a ∷ rows) h = ground (arith, close_unreleased d v at rows)

-- What a handoff leaves behind once it is over: the assignment that it created, closed.
abbrev pub left_behind : AssignmentPlan → ℕ → ℕ → ℕ → Instant → List Assignment
left_behind (reuse _) fresh d v at = []
left_behind create fresh d v at =
    record { id = fresh; driver_id = d; vehicle_id = v; ended_at = some at; is_automatic = true }
    ∷ []

-- The row is of another driver or vehicle, has ended, or was made by hand.
abbrev pub IsNotHandoff : ℕ → ℕ → Assignment → Type 0
IsNotHandoff d v a =
    (a.driver_id ≢ d) ⊎ (a.vehicle_id ≢ v) ⊎ (is_some a.ended_at ≡ true) ⊎ (a.is_automatic ≡ false)

IsNotHandoff-released : (d v : ℕ) (a : Assignment) → IsNotHandoff d v a → is_released d v a ≡ false
IsNotHandoff-released d v a (inl other) = ground arith
IsNotHandoff-released d v a (inr (inl other)) = ground arith
IsNotHandoff-released d v a (inr (inr (inl ended))) = ground arith
IsNotHandoff-released d v a (inr (inr (inr manual))) = ground arith

All-unreleased :
    (d v : ℕ) (rows : List Assignment)
    → All (IsNotHandoff d v) rows
    → any (is_released d v) rows ≡ false
All-unreleased d v [] h = refl
All-unreleased d v (a ∷ rows) h =
    ground (arith, IsNotHandoff-released d v a h.0, All-unreleased d v rows h.1)

-- The end of a handoff releases what the handoff took and nothing else: where each row of before is
-- of another driver or vehicle, has ended or was made by hand, every row of before is as it was, and
-- only an assignment that the handoff created is closed.
pub close_automatic_assignment-apply_assignment :
    (p : AssignmentPlan) (fresh d v : ℕ) (at : Instant) (rows : List Assignment)
    → All (IsNotHandoff d v) rows
    → close_automatic_assignment d v at (apply_assignment p fresh d v rows)
      ≡ left_behind p fresh d v at ++ rows
unfolding apply_assignment close_automatic_assignment
close_automatic_assignment-apply_assignment (reuse _) fresh d v at rows h =
    close_unreleased d v at rows (All-unreleased d v rows h)
close_automatic_assignment-apply_assignment create fresh d v at rows h =
    ground (arith, close_unreleased d v at rows (All-unreleased d v rows h))

-- Active, and free or the driver's own.
abbrev pub is_selectable : SelectableVehicle → Bool
is_selectable v =
    is_active_vehicle v.status && (not (is_some v.assigned_to_driver_id) || v.assigned_to_self)

filter-selectable :
    (vs : List SelectableVehicle)
    → filter
        (λ v. not (is_some v.assigned_to_driver_id) || v.assigned_to_self)
        (filter (λ v. is_active_vehicle v.status) vs)
      ≡ filter is_selectable vs
filter-selectable [] = refl
filter-selectable (v ∷ vs) = ground (arith, filter-selectable vs)

module _ (locale_le : String → String → Bool) (c : IsComparator locale_le) where
  own_first-IsComparator : IsComparator (own_first locale_le)
  own_first-IsComparator = record {
    total = λ x y h. ground (arith, c.total x.registration_number y.registration_number);
    trans = λ x y z h k.
        ground (arith, c.trans x.registration_number y.registration_number z.registration_number);
  }

  -- Where `localeCompare` orders the registration numbers, the picker holds exactly the active
  -- vehicles that are free or the driver's own, each as often as it is listed, the driver's own
  -- before the free ones and either kind by registration number.
  selectable_vehicles-IsSorted :
      (vs : List SelectableVehicle)
      → Perm (selectable_vehicles locale_le vs) (filter is_selectable vs)
        × IsSorted (own_first locale_le) (selectable_vehicles locale_le vs)
  unfolding selectable_vehicles
  selectable_vehicles-IsSorted vs = (
    rw (filter-selectable vs) (sort-perm (own_first locale_le) (filter is_selectable vs)),
    sort-IsSorted (own_first locale_le) own_first-IsComparator _,
  )
