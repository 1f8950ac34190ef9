-- ===== src/Shifts/Driving/Guards.antt =====
-- Who may drive.
use aytrackerv.Prelude.{◌<◌, ◌≡◌, ◌↔◌, refl, false, Option, none, some, arith}
use aytrackerv.Domain.Errors.{ok}
use aytrackerv.Domain.Time.{Instant}
use aytrackerv.Shifts.Driving.Defs.{DriverProfile, DriverStatus, is_expired, assert_can_drive}

-- A licence without an end, or with one that is still to come.
abbrev pub IsLicensed : Option Instant → Instant → Type 0
IsLicensed none now = Unit
IsLicensed (some at) now = now < at

abbrev pub CanDrive : Option DriverProfile → Instant → Type 0
CanDrive none now = ⊥
CanDrive (some p) now = (p.status ≡ DriverStatus.active) × IsLicensed p.license_expires_at now

licensed :
    (now : Instant) (expiry : Option Instant)
    → (is_expired expiry now ≡ false) ↔ IsLicensed expiry now
licensed now none = ((λ h. tt), (λ h. refl))
licensed now (some at) = ((λ h. ground arith), (λ h. ground arith))

-- A worker may drive exactly with a driver profile that is active and whose licence, if it has an
-- end, ends later; the profile is then the one that was found.
assert_can_drive_iff :
    (profile : Option DriverProfile) (now : Instant)
    → ((p : DriverProfile) × (assert_can_drive profile now ≡ ok p) × (profile ≡ some p))
      ↔ CanDrive profile now
unfolding assert_can_drive
assert_can_drive_iff none now = ((λ h. cc), (λ h. absurd h))
assert_can_drive_iff (some p) now = (
  (λ h. ground (arith, licensed now p.license_expires_at)),
  (λ h. (p, ground (arith, licensed now p.license_expires_at), refl)),
)
