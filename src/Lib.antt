-- ===== src/Lib.antt =====
-- AyTracker: a workforce tracker. Workers clock in at a terminal, move between positions, take
-- breaks, and drive vehicles on trips; devices report locations while a session is open.
--
-- Parts, and the files that model them (paths from the repository's root):
--   Domain       packages/domain/src: errors.ts (Domain/Errors) and of time.ts the arithmetic of
--                instants and intervals (Domain/Time), and money.ts on texts as lists of codes
--                (Domain/Money). Domain/Numbers has the comparisons of
--                JavaScript numbers.
--   Shifts       modules/shifts/src/domain: shift.ts (Shifts/Shift), position-session.ts
--                (Shifts/PositionSession) and driving.ts (Shifts/Driving), the last with the
--                assignments of infrastructure/prisma-driving-repository.ts. The commands of
--                application/shift-commands.ts and driving-commands.ts: on breaks
--                (Shifts/Breaks), on shifts (Shifts/Commands), moves and corrections
--                (Shifts/Commands/Moves) and the job that closes forgotten shifts
--                (Shifts/Commands/AutoClose), with the queries of infrastructure over a store
--                of rows (Shifts/Store). What the store shows of a worker is
--                Shifts/Commands/View, and sequences of commands Shifts/Commands/Days; the other
--                files below Shifts/Commands have the lemmas on each command.
--   Workforce    modules/workforce/src/domain/eligibility.ts (Workforce/Eligibility).
--   Drivers      modules/drivers/src: domain/trip.ts (Drivers/Trip), the pauses of a trip
--                (Drivers/Trip/Pauses) and the commands of application/trip-commands.ts
--                (Drivers/Commands), with the queries of infrastructure over a store of rows
--                (Drivers/Store).
--   Tracking     packages/tracking/src: tracking-state.ts (Tracking/State) and sampling.ts
--                (Tracking/Sampling); modules/tracking/src/domain: session.ts (Tracking/Session)
--                and admission.ts (Tracking/Admission); of packages/tracking-client/src/queue.ts
--                the queue in memory (Tracking/Queue), and of its web-collector.ts what is kept and
--                uploaded (Tracking/Collector).
--   Auth         packages/auth/src: authorization.ts (Auth/Authorization), lockout.ts (Auth/Lockout)
--                and of session.ts the checks of a loaded session (Auth/Session).
--   Billing      of packages/billing/src/entitlements.ts the class Entitlements
--                (Billing/Entitlements) and isInRollout (Billing/Rollout).
--   Fleet        modules/fleet/src/domain: expiration.ts (Fleet/Expiration) and assignment.ts
--                (Fleet/Assignment).
--   Recommendations  modules/recommendations/src/domain/recommendation.ts (Recommendations).
--   Reporting    modules/reporting/src/domain/attendance.ts (Reporting/Attendance).
-- A shift has breaks and position sessions; a move to a position is decided by Workforce and planned
-- by PositionSession; a move to the driving position starts a trip of Drivers on a vehicle that
-- Driving assigns, with the permissions that Driving adds to the session. While a shift or a trip
-- runs, a device samples its location, queues the points and sends them in batches, of which the
-- server admits points into a tracking session; the gaps between them are the untracked time of a
-- trip. Auth and Billing have the guards of requests.
--
-- Correspondence: a function of the source is a definition with its name in snake case, with the
-- guards in their order; a closure or a loop body of its own has a name of its own. An interface is a
-- record, a union of string literals a data type, `null` and `undefined` are `none`. A function that
-- throws returns a `Result`, whose error has the kind and the code of the source's error; the messages
-- in English and the details are left out. A class is a record or the list that it keeps, and a method
-- a function on it.
--
-- Numbers: an instant is the number of milliseconds since the epoch, an unbounded natural number. A
-- `Date` reaches at most 8.64e15 milliseconds, so each sum and difference of the source is exact in a
-- JavaScript number. Invalid dates and times before 1970 are left out. Where the source subtracts and
-- bounds the difference by 0 from below, the subtraction of natural numbers does both; elsewhere a
-- guard or a hypothesis orders the two operands, which the theorem names. `Math.round(ms / 1000)` is
-- `(ms + 500) / 1000` rounded down. A test such as `seconds >= limit` on a quotient by 1000 is made on
-- milliseconds, without the division, and `Math.ceil` of such a quotient is `(ms + 999) / 1000`
-- rounded down; a configured number of seconds or minutes is a whole number. Coordinates, accuracies,
-- speeds and battery levels are only compared, and are doubles: NaN, an infinity, or a multiple of
-- 2^-1074. Identifiers are natural numbers, as they are only compared.
--
-- A command is one transaction: a function from the store to a `Result` of the store, where an error
-- leaves the store as it was. startTrip alone has two, so that a vehicle it claimed stays claimed when
-- its trip is refused. The store is that of one organization; an index or a CHECK of the
-- database that a command can violate is a guard, which throws. Identifiers of new rows and loaded
-- decisions are arguments. Commands run one after another: the lost updates of transactions that
-- overlap are not modelled, which the unique indexes are there to refuse. The collector of a browser
-- goes on while an upload awaits its answer; the server may have stored a batch whose answer is lost.
-- That ingest refuses a point that is stored already is the unique index of the database, and not
-- modelled.
--
-- Each loop of the source over a list is a recursion on that list. The one loop that is not, in
-- `flush`, has fuel for one round more than there are queued points, as a round removes a point at
-- least. The digits of a number are printed with the number and one as fuel, as a division by ten makes
-- a positive number smaller.
-- The sort of the source, `Array.prototype.sort`, is stable; it is modelled by insertion sort, which
-- gives the same list for the comparators used. The order of `localeCompare` and of strings, and the
-- distance between two points, are parameters.
--
-- Not modelled: the time zones of time.ts (Intl of the platform), the commands of tracking, the costs
-- of the fleet, production, audit, events, tokens and hashes, the queue on IndexedDB, HTTP, the web
-- application, the user interface, and the floating-point geometry of packages/tracking.
pub mod Prelude
pub mod Domain
pub mod Auth
pub mod Billing
pub mod Drivers
pub mod Fleet
pub mod Recommendations
pub mod Reporting
pub mod Shifts
pub mod Tracking
pub mod Workforce
