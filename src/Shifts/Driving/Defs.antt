-- ===== src/Shifts/Driving/Defs.antt =====
-- modules/shifts/src/domain/driving.ts, and of infrastructure/prisma-driving-repository.ts what
-- loads and creates a vehicle assignment. Identifiers are only compared, so they are numbers. Of a
-- vehicle the fields that are only displayed are left out.
use text.Mathlib.Text.{◌==◌ as str_eq}
use aytrackerv.Prelude.{
  ℕ, Bool, true, false, not, ◌&&◌, ◌||◌, Option, none, some, List, [], ◌∷◌, ◌++◌, map, String, leb,
  ltb, ◌==◌, if◌then◌else◌, any, filter, find?, is_some,
}
use aytrackerv.Prelude.Sort.{sort}
use aytrackerv.Domain.Errors.{
  Result, ok, err, ◌>>◌, throw_if, conflict_error, forbidden_error, precondition_failed_error,
}
use aytrackerv.Domain.Time.{Instant}
use aytrackerv.Drivers.Trip.{TripStatus, planned, paused, completed, cancelled}

pub data DriverStatus : Type 0 where
  active inactive suspended : DriverStatus

pub record DriverProfile : Type 0 where
  pub driver_id : ℕ
  pub worker_id : ℕ
  pub status : DriverStatus
  pub license_expires_at : Option Instant

pub data VehicleStatus : Type 0 where
  active in_maintenance out_of_service sold archived : VehicleStatus

pub record SelectableVehicle : Type 0 where
  pub vehicle_id : ℕ
  pub registration_number : String
  pub status : VehicleStatus
  pub assigned_to_driver_id : Option ℕ
  pub assigned_to_self : Bool

abbrev pub is_active_driver : DriverStatus → Bool
is_active_driver DriverStatus.active = true
is_active_driver inactive = false
is_active_driver suspended = false

abbrev pub is_active_vehicle : VehicleStatus → Bool
is_active_vehicle VehicleStatus.active = true
is_active_vehicle in_maintenance = false
is_active_vehicle out_of_service = false
is_active_vehicle sold = false
is_active_vehicle archived = false

-- `licenseExpiresAt && licenseExpiresAt.getTime() <= now`
abbrev pub is_expired : Option Instant → Instant → Bool
is_expired none now = false
is_expired (some at) now = leb at now

unfoldable pub assert_can_drive : Option DriverProfile → Instant → Result DriverProfile
assert_can_drive none now = err (forbidden_error "driving.no_driver_profile")
assert_can_drive (some profile) now =
    throw_if (not (is_active_driver profile.status)) (forbidden_error "driving.driver_not_active")
    >> throw_if (is_expired profile.license_expires_at now)
        (forbidden_error "driving.license_expired")
    >> ok profile

-- `a === b`
abbrev pub same_side : Bool → Bool → Bool
same_side true b = b
same_side false b = not b

-- `locale_le a b` is `a.registrationNumber.localeCompare(b.registrationNumber) <= 0`.
module _ (locale_le : String → String → Bool) where
  -- The comparator of the picker is at most 0.
  abbrev pub own_first : SelectableVehicle → SelectableVehicle → Bool
  own_first a b =
      if same_side a.assigned_to_self b.assigned_to_self
      then locale_le a.registration_number b.registration_number
      else a.assigned_to_self

  unfoldable pub selectable_vehicles : List SelectableVehicle → List SelectableVehicle
  selectable_vehicles vehicles = sort own_first (
      filter (λ vehicle. not (is_some vehicle.assigned_to_driver_id) || vehicle.assigned_to_self)
        (filter (λ vehicle. is_active_vehicle vehicle.status) vehicles))

pub data AssignmentPlan : Type 0 where
  reuse : ℕ → AssignmentPlan
  create : AssignmentPlan

pub record VehicleHolder : Type 0 where
  pub id : ℕ
  pub driver_id : ℕ

pub record HeldVehicle : Type 0 where
  pub id : ℕ
  pub vehicle_id : ℕ

pub record AssignmentContext : Type 0 where
  pub vehicle : SelectableVehicle
  pub vehicle_assignment : Option VehicleHolder
  pub driver_assignment : Option HeldVehicle

-- `vehicleAssignment && vehicleAssignment.driverId !== driverId`
abbrev pub held_by_other : Option VehicleHolder → ℕ → Bool
held_by_other none driver_id = false
held_by_other (some a) driver_id = not (a.driver_id == driver_id)

-- `driverAssignment && driverAssignment.vehicleId !== vehicle.vehicleId`
abbrev pub holds_other : Option HeldVehicle → ℕ → Bool
holds_other none vehicle_id = false
holds_other (some a) vehicle_id = not (a.vehicle_id == vehicle_id)

abbrev pub reuse_or_create : Option VehicleHolder → AssignmentPlan
reuse_or_create none = create
reuse_or_create (some a) = reuse a.id

unfoldable pub plan_assignment : AssignmentContext → ℕ → Result AssignmentPlan
plan_assignment context driver_id =
    throw_if (not (is_active_vehicle context.vehicle.status))
      (conflict_error "driving.vehicle_not_available")
    >> throw_if (held_by_other context.vehicle_assignment driver_id)
        (conflict_error "driving.vehicle_taken")
    >> throw_if (holds_other context.driver_assignment context.vehicle.vehicle_id)
        (conflict_error "driving.already_holds_vehicle")
    >> ok (reuse_or_create context.vehicle_assignment)

-- `tripStatus === 'COMPLETED' || tripStatus === 'CANCELLED'`
abbrev pub is_trip_over : TripStatus → Bool
is_trip_over completed = true
is_trip_over cancelled = true
is_trip_over planned = false
is_trip_over TripStatus.active = false
is_trip_over paused = false

abbrev pub assert_started_by : Option Instant → Instant → Result (Unit {0})
assert_started_by none at = err (precondition_failed_error "driving.trip_not_started")
assert_started_by (some started_at) at =
    throw_if (ltb at started_at) (precondition_failed_error "driving.end_before_start")

unfoldable pub assert_can_end_driving : TripStatus → Instant → Option Instant → Result (Unit {0})
assert_can_end_driving trip_status at trip_started_at =
    if is_trip_over trip_status then ok tt else assert_started_by trip_started_at at

unfoldable pub driving_session_permissions : List String
driving_session_permissions =
    "driver.portal.access" ∷ "driver.trip.start" ∷ "driver.trip.stop" ∷ "driver.trip.history"
    ∷ "driver.vehicle.view" ∷ []

-- `permissions.includes(permission)`, and a `Set`'s `has`.
abbrev pub includes : List String → String → Bool
includes permissions permission = any (str_eq permission) permissions

-- `new Set(...)`: the first of equal strings is kept.
unfoldable pub dedupe : List String → List String
dedupe [] = []
dedupe (p ∷ ps) = p ∷ filter (λ q. not (str_eq q p)) (dedupe ps)

-- `code_le` is the order of `sort()` on strings, by UTF-16 code units.
unfoldable pub with_driving_permissions : (String → String → Bool) → List String → List String
unfolding dedupe
with_driving_permissions code_le base = sort code_le (dedupe (base ++ driving_session_permissions))

unfoldable pub without_driving_permissions : List String → List String
without_driving_permissions base =
    filter (λ permission. not (includes driving_session_permissions permission)) base

-- A row of `vehicle_assignments`.
pub record Assignment : Type 0 where
  pub id : ℕ
  pub driver_id : ℕ
  pub vehicle_id : ℕ
  pub ended_at : Option Instant
  pub is_automatic : Bool

abbrev pub is_open_for_vehicle : ℕ → Assignment → Bool
is_open_for_vehicle vehicle_id a = (a.vehicle_id == vehicle_id) && not (is_some a.ended_at)

abbrev pub is_open_for_driver : ℕ → Assignment → Bool
is_open_for_driver driver_id a = (a.driver_id == driver_id) && not (is_some a.ended_at)

abbrev pub as_holder : Assignment → VehicleHolder
as_holder a = record { id = a.id; driver_id = a.driver_id }

abbrev pub as_held : Assignment → HeldVehicle
as_held a = record { id = a.id; vehicle_id = a.vehicle_id }

abbrev pub option_map {ℓ κ} : {A : Type ℓ} {B : Type κ} → (A → B) → Option A → Option B
option_map f none = none
option_map f (some a) = some (f a)

-- `assignedToDriverId === input.driverId`
abbrev pub is_self : ℕ → Option ℕ → Bool
is_self driver_id none = false
is_self driver_id (some holder) = holder == driver_id

-- `loadAssignmentContext` of a vehicle that exists; the rows are those of the organization.
unfoldable pub load_assignment_context : List Assignment → SelectableVehicle → ℕ → AssignmentContext
load_assignment_context rows vehicle driver_id =
    let holder = option_map as_holder (find? (is_open_for_vehicle vehicle.vehicle_id) rows) in
    let assigned_to = option_map (λ h. h.driver_id) holder in
    record {
      vehicle = record vehicle {
        assigned_to_driver_id = assigned_to;
        assigned_to_self = is_self driver_id assigned_to;
      };
      vehicle_assignment = holder;
      driver_assignment = option_map as_held (find? (is_open_for_driver driver_id) rows);
    }

-- The plan carried out: `createAssignment` inserts an open row, and a reused one stays.
unfoldable pub apply_assignment : AssignmentPlan → ℕ → ℕ → ℕ → List Assignment → List Assignment
apply_assignment (reuse _) fresh driver_id vehicle_id rows = rows
apply_assignment create fresh driver_id vehicle_id rows =
    record {
      id = fresh;
      driver_id = driver_id;
      vehicle_id = vehicle_id;
      ended_at = none;
      is_automatic = true;
    }
    ∷ rows

abbrev pub is_released : ℕ → ℕ → Assignment → Bool
is_released driver_id vehicle_id a =
    (a.driver_id == driver_id)
    && (a.vehicle_id == vehicle_id)
    && not (is_some a.ended_at)
    && a.is_automatic

-- `closeAutomaticAssignment`
unfoldable pub close_automatic_assignment : ℕ → ℕ → Instant → List Assignment → List Assignment
close_automatic_assignment driver_id vehicle_id ended_at =
    map
      (λ a. if is_released driver_id vehicle_id a then record a { ended_at = some ended_at } else a)
