-- ===== src/Fleet/Expiration.antt =====
-- modules/fleet/src/domain/expiration.ts. Of an item its identifier, its end and its reminder days
-- are kept; a configured number of days is a whole number that is not negative.
pub mod Urgency
use aytrackerv.Prelude.{
  ℕ, ◌-◌, ◌*◌, ◌+◌, ◌/◌, Bool, true, false, not, Option, none, some, List, [], map, filter, ltb,
  leb, ◌==◌, if◌then◌else◌,
}
use aytrackerv.Prelude.Int.{ℤ, pos, negsuc, pos_part, neg_part, is_negative}
use aytrackerv.Prelude.Sort.{sort}
use aytrackerv.Domain.Time.{Instant}

pub data ExpirationSeverity : Type 0 where
  fine due_soon critical expired : ExpirationSeverity

pub record ExpirableItem : Type 0 where
  pub id : ℕ
  pub expires_at : Option Instant
  pub reminder_days : ℕ

pub data MessageKey : Type 0 where
  document_expiring document_expired : MessageKey

pub record ExpirationStatus : Type 0 where
  pub item : ExpirableItem
  pub severity : ExpirationSeverity
  pub days_remaining : Option ℤ
  pub message_key : Option MessageKey

abbrev pub critical_threshold_days : ℕ
critical_threshold_days = 7

abbrev pub day : ℕ
day = 86_400_000

-- `Math.floor((expiresAt - now) / (24 * 60 * 60 * 1000))`
unfoldable pub days_between : Instant → Instant → ℤ
days_between now expires_at =
    if leb now expires_at
    then pos ((expires_at - now) / day)
    else negsuc ((now - expires_at - 1) / day)

abbrev pub le_ℤ : ℤ → ℤ → Bool
le_ℤ a b = leb (pos_part a + neg_part b) (pos_part b + neg_part a)

abbrev pub status_in : ExpirableItem → ℤ → ExpirationStatus
status_in item days =
    if is_negative days
    then record {
      item = item;
      severity = expired;
      days_remaining = some days;
      message_key = some document_expired;
    }
    else if le_ℤ days (pos critical_threshold_days)
    then record {
      item = item;
      severity = critical;
      days_remaining = some days;
      message_key = some document_expiring;
    }
    else if le_ℤ days (pos item.reminder_days)
    then record {
      item = item;
      severity = due_soon;
      days_remaining = some days;
      message_key = some document_expiring;
    }
    else record { item = item; severity = fine; days_remaining = some days; message_key = none }

abbrev pub status_until : ExpirableItem → Instant → Option Instant → ExpirationStatus
status_until item now none = record {
  item = item;
  severity = fine;
  days_remaining = none;
  message_key = none;
}
status_until item now (some at) = status_in item (days_between now at)

unfoldable pub evaluate_expiration : ExpirableItem → Instant → ExpirationStatus
unfolding days_between
evaluate_expiration item now = status_until item now item.expires_at

-- `severityOrder`
abbrev pub severity_order : ExpirationSeverity → ℕ
severity_order expired = 0
severity_order critical = 1
severity_order due_soon = 2
severity_order fine = 3

abbrev pub is_fine : ExpirationSeverity → Bool
is_fine expired = false
is_fine critical = false
is_fine due_soon = false
is_fine fine = true

-- `daysRemaining ?? 0`
abbrev pub days_or_zero : Option ℤ → ℤ
days_or_zero none = pos 0
days_or_zero (some days) = days

-- The comparator of the sort, as "not after".
abbrev pub is_as_urgent : ExpirationStatus → ExpirationStatus → Bool
is_as_urgent a b =
    if severity_order a.severity == severity_order b.severity
    then le_ℤ (days_or_zero a.days_remaining) (days_or_zero b.days_remaining)
    else ltb (severity_order a.severity) (severity_order b.severity)

unfoldable pub pending_expirations : List ExpirableItem → Instant → List ExpirationStatus
unfolding evaluate_expiration
pending_expirations items now = sort is_as_urgent (
    filter (λ status. not (is_fine status.severity))
      (map (λ item. evaluate_expiration item now) items))
