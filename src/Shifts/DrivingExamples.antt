-- ===== src/Shifts/DrivingExamples.antt =====
-- Runs of the rules of driving, and their theorems at concrete inputs.
use aytrackerv.Prelude.{
  ◌≡◌, refl, inl, inr, Bool, true, false, none, some, String, List, [], ◌∷◌, ◌++◌,
}
use aytrackerv.Prelude.Sort.{le_by}
use aytrackerv.Domain.Errors.{ok, is_ok, err, conflict_error}
use aytrackerv.Drivers.Trip.{active}
use aytrackerv.Shifts.Driving.{
  DriverProfile, DriverStatus, VehicleStatus, SelectableVehicle, Assignment, create,
  assert_can_end_driving, plan_assignment, load_assignment_context, apply_assignment,
  close_automatic_assignment,
}
use aytrackerv.Shifts.Driving.Vehicles.{
  IsExclusive, IsHeld, assigned, left_behind, plan_assignment-IsExclusive,
  close_automatic_assignment-apply_assignment,
}

abbrev ana : DriverProfile
ana = record {
  driver_id = 1;
  worker_id = 10;
  status = DriverStatus.active;
  license_expires_at = some 500;
}

end_of_trip : is_ok (assert_can_end_driving active 900 (some 400)) ≡ true
unfolding assert_can_end_driving
end_of_trip = refl

-- Shorter strings first.
abbrev shorter : String → String → Bool
shorter = le_by Prim.Native.String.len

abbrev van : SelectableVehicle
van = record {
  vehicle_id = 7;
  registration_number = "B-101";
  status = VehicleStatus.active;
  assigned_to_driver_id = none;
  assigned_to_self = false;
}

abbrev own : SelectableVehicle
own = record van { vehicle_id = 8; assigned_to_driver_id = some 1; assigned_to_self = true }

-- Driver 2 has vehicle 9, and a closed row of vehicle 7.
abbrev rows : List Assignment
rows =
    record { id = 30; driver_id = 2; vehicle_id = 7; ended_at = some 90; is_automatic = true }
    ∷ record { id = 31; driver_id = 2; vehicle_id = 9; ended_at = none; is_automatic = false }
    ∷ []

rows-IsExclusive : IsExclusive rows
rows-IsExclusive = (inl refl, (inr (refl, refl), tt))

van_is_planned : plan_assignment (load_assignment_context rows van 1) 1 ≡ ok create
unfolding plan_assignment load_assignment_context
van_is_planned = refl

van_is_refused :
    plan_assignment (load_assignment_context rows van 2) 2
    ≡ err (conflict_error "driving.already_holds_vehicle")
unfolding plan_assignment load_assignment_context
van_is_refused = refl

plan_assignment-IsExclusive_example : IsHeld 1 van 32 rows (assigned 1 van 32 rows create)
plan_assignment-IsExclusive_example =
    plan_assignment-IsExclusive 1 van 32 rows create rows-IsExclusive van_is_planned

close_automatic_assignment-apply_assignment_example :
    close_automatic_assignment 1 7 800 (apply_assignment create 32 1 7 rows)
    ≡ left_behind create 32 1 7 800 ++ rows
close_automatic_assignment-apply_assignment_example =
    close_automatic_assignment-apply_assignment create 32 1 7 800 rows
      (inr (inr (inl refl)), (inr (inr (inr refl)), tt))
