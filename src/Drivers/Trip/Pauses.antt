-- ===== src/Drivers/Trip/Pauses.antt =====
-- `listPauses` of modules/drivers/src/infrastructure/prisma-repositories.ts: the pauses of a trip,
-- read back from the log of tracking events.
use aytrackerv.Prelude.{
  ◌≤◌, ◌≡◌, refl, Bool, true, false, ◌&&◌, Option, none, some, List, [], ◌∷◌, ◌++◌, any, is_some,
  arith, ltb, leb, if◌then◌else◌,
}
use aytrackerv.Domain.Time.{Instant}
use aytrackerv.Drivers.Trip.Defs.{PauseInterval}

pub data PauseEventType : Type 0 where
  tracking_paused tracking_resumed : PauseEventType

-- A row of `tracking_events` that the query selects.
pub record PauseEvent : Type 0 where
  pub event_type : PauseEventType
  pub occurred_at : Instant

-- `openPause` after an event.
abbrev pub next_open : Option Instant → PauseEventType → Instant → Option Instant
next_open none tracking_paused at = some at
next_open (some open_pause) tracking_paused at = some open_pause
next_open _ tracking_resumed at = none

-- What an event pushes on `pauses`.
abbrev pub ended_pause : Option Instant → PauseEventType → Instant → List PauseInterval
ended_pause none _ at = []
ended_pause (some open_pause) tracking_paused at = []
ended_pause (some open_pause) tracking_resumed at =
    record { started_at = open_pause; ended_at = some at } ∷ []

-- The loop and the pause that is open after it.
unfoldable pub pauses_from : Option Instant → List PauseEvent → List PauseInterval
pauses_from none [] = []
pauses_from (some open_pause) [] = record { started_at = open_pause; ended_at = none } ∷ []
pauses_from open_pause (event ∷ events) =
    ended_pause open_pause event.event_type event.occurred_at
    ++ pauses_from (next_open open_pause event.event_type event.occurred_at) events

-- The events are those of one trip that the query returns, in the order of their times.
unfoldable pub list_pauses : List PauseEvent → List PauseInterval
unfolding pauses_from
list_pauses events = pauses_from none events

abbrev pub is_before_end : Instant → Option Instant → Bool
is_before_end t none = true
is_before_end t (some end) = ltb t end

-- The instant lies in the pause, whose end is not part of it.
abbrev pub covers : Instant → PauseInterval → Bool
covers t pause = leb pause.started_at t && is_before_end t pause.ended_at

abbrev pub is_pause : PauseEventType → Bool
is_pause tracking_paused = true
is_pause tracking_resumed = false

-- Whether the trip is paused at an instant: the events up to it, replayed one after another.
abbrev pub paused_at : Instant → Bool → List PauseEvent → Bool
paused_at t paused [] = paused
paused_at t paused (event ∷ events) =
    paused_at t (if leb event.occurred_at t then is_pause event.event_type else paused) events

-- The events are in order of time, none of them before an instant.
abbrev pub IsOrderedFrom : Instant → List PauseEvent → Type 0
IsOrderedFrom from [] = Unit
IsOrderedFrom from (event ∷ events) =
    (from ≤ event.occurred_at) × IsOrderedFrom event.occurred_at events

-- Events after the instant change nothing.
paused_at-later :
    (t : Instant) (paused : Bool) (from : Instant) (events : List PauseEvent)
    → IsOrderedFrom from events
    → ltb t from ≡ true
    → paused_at t paused events ≡ paused
paused_at-later t paused from [] o h = refl
paused_at-later t paused from (event ∷ events) (l, o) h =
    ground (arith, paused_at-later t paused event.occurred_at events o)

-- A pause that is open has started by the instant.
abbrev started_by : Instant → Option Instant → Bool
started_by t none = true
started_by t (some open_pause) = leb open_pause t

abbrev OpensBefore : Instant → Option Instant → Type 0
OpensBefore from none = Unit
OpensBefore from (some open_pause) = open_pause ≤ from

-- The pauses found from events on cover an instant when the replay ends paused there.
Replays : Instant → Option Instant → List PauseEvent → Type 0
Replays t o events =
    any (covers t) (pauses_from o events) ≡ (started_by t o && paused_at t (is_some o) events)

pauses_from-step :
    (t : Instant) (o : Option Instant) (event_type : PauseEventType) (at : Instant)
    → (events : List PauseEvent) → OpensBefore at o
    → IsOrderedFrom at events
    → Replays t (next_open o event_type at) events
    → any (covers t) (ended_pause o event_type at ++ pauses_from (next_open o event_type at) events)
      ≡ (started_by t o && paused_at t (if leb at t then is_pause event_type else is_some o) events)
unfolding Replays
pauses_from-step t none tracking_paused at events b o e =
    ground (arith, paused_at-later t false at events o)
pauses_from-step t none tracking_resumed at events b o e = ground arith
pauses_from-step t (some s) tracking_paused at events b o e = ground arith
pauses_from-step t (some s) tracking_resumed at events b o e =
    ground (arith, paused_at-later t false at events o, paused_at-later t true at events o)

next_open-OpensBefore :
    (o : Option Instant) (event_type : PauseEventType) (at : Instant)
    → OpensBefore at o
    → OpensBefore at (next_open o event_type at)
next_open-OpensBefore none tracking_paused at b = omega arith
next_open-OpensBefore none tracking_resumed at b = tt
next_open-OpensBefore (some s) tracking_paused at b = b
next_open-OpensBefore (some s) tracking_resumed at b = tt

OpensBefore-later :
    (o : Option Instant) (from at : Instant) → from ≤ at → OpensBefore from o → OpensBefore at o
OpensBefore-later none from at l b = tt
OpensBefore-later (some s) from at l b = omega arith

pauses_from-Replays :
    (t : Instant) (o : Option Instant) (from : Instant) (events : List PauseEvent)
    → OpensBefore from o
    → IsOrderedFrom from events
    → Replays t o events
unfolding Replays pauses_from
pauses_from-Replays t none from [] b h = refl
pauses_from-Replays t (some s) from [] b h = ground arith
pauses_from-Replays t o from (event ∷ events) b (l, h) =
    let at = event.occurred_at in
    let later = OpensBefore-later o from at l b in
    pauses_from-step t o event.event_type at events later h (
      pauses_from-Replays t (next_open o event.event_type at) at events
        (next_open-OpensBefore o event.event_type at later) h)

-- For events in order of time, an instant lies in one of the pauses that listPauses reads from
-- them exactly when the trip is paused after the events up to that instant.
pub list_pauses-paused_at :
    (events : List PauseEvent) (t : Instant)
    → IsOrderedFrom 0 events
    → any (covers t) (list_pauses events) ≡ paused_at t false events
unfolding list_pauses Replays
list_pauses-paused_at events t h = pauses_from-Replays t none 0 events tt h
