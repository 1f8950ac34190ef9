-- ===== src/Fleet/Assignment.antt =====
-- modules/fleet/src/domain/assignment.ts
use aytrackerv.Prelude.{ℕ, Bool, true, false, not, Option, is_some, ltb}
use aytrackerv.Domain.Errors.{Result, ◌>>◌, throw_if, conflict_error, validation_error}
use aytrackerv.Domain.Time.{Instant}

pub record AssignmentState : Type 0 where
  pub id : ℕ
  pub driver_id : ℕ
  pub vehicle_id : ℕ
  pub started_at : Instant
  pub ended_at : Option Instant

pub data VehicleStatus : Type 0 where
  active in_maintenance out_of_service sold archived : VehicleStatus

pub data DriverStatus : Type 0 where
  active inactive suspended : DriverStatus

unfoldable pub is_open_assignment : AssignmentState → Bool
is_open_assignment assignment = not (is_some assignment.ended_at)

abbrev pub is_available : VehicleStatus → Bool
is_available VehicleStatus.active = true
is_available in_maintenance = false
is_available out_of_service = false
is_available sold = false
is_available archived = false

abbrev pub is_active_driver : DriverStatus → Bool
is_active_driver DriverStatus.active = true
is_active_driver inactive = false
is_active_driver suspended = false

unfoldable pub assert_can_assign :
    Option AssignmentState
    → Option AssignmentState
    → VehicleStatus
    → DriverStatus
    → Result (Unit {0})
assert_can_assign vehicle_open_assignment driver_open_assignment vehicle_status driver_status =
    throw_if (not (is_available vehicle_status)) (conflict_error "fleet.vehicle_not_available")
    >> throw_if (not (is_active_driver driver_status)) (conflict_error "fleet.driver_not_active")
    >> throw_if (is_some vehicle_open_assignment) (conflict_error "fleet.vehicle_already_assigned")
    >> throw_if (is_some driver_open_assignment) (conflict_error "fleet.driver_already_assigned")

unfoldable pub assert_can_unassign : AssignmentState → Bool → Instant → Result (Unit {0})
unfolding is_open_assignment
assert_can_unassign assignment has_open_trip at =
    throw_if (not (is_open_assignment assignment)) (conflict_error "fleet.assignment_already_ended")
    >> throw_if (ltb at assignment.started_at) (validation_error "fleet.unassign_before_start")
    >> throw_if has_open_trip (conflict_error "fleet.driver_on_active_trip")
