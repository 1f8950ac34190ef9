-- ===== src/Tracking/Collector/Flushes.antt =====
-- What a flush sends, and what it keeps.
use aytrackerv.Prelude.{
  ℕ, zero, suc, ◌+◌, ◌<◌, ◌≡◌, refl, ap, ◌∙◌, false, is_some, if◌then◌else◌, none, some, List, [],
  ◌∷◌, length, take, arith, All,
}
use aytrackerv.Tracking.State.{TrackingState}
use aytrackerv.Tracking.Queue.{RawPoint, QueuedPoint, clear}
use aytrackerv.Tracking.Collector.{
  Uplink, Collector, Answer, refused, begin_round, answer, drain, flush, stop, raw_points,
  after_upload, gone_offline, stopped,
}
use aytrackerv.Tracking.Collector.Rounds.{with_queue, begin_round-nil, begin_round-cons}

module _ (answers : ℕ → List RawPoint → Answer) where
  drain_idle :
      (fuel : ℕ) (c : Collector) → 0 < fuel → c.in_flight ≡ none → drain answers fuel c ≡ some c
  unfolding drain
  drain_idle zero c h e = elim h [ ]
  drain_idle (suc fuel) c h e = rw e refl

  module _ (fuel : ℕ) (c : Collector) (u : Uplink) (p : QueuedPoint)
      (queue : List QueuedPoint) where
    abbrev batch : List QueuedPoint
    batch = take 200 (p ∷ queue)

    abbrev in_round : Collector
    in_round = record (with_queue c u (p ∷ queue)) { in_flight = some batch }

    drain-answered :
        (a : Answer)
        → answers u.attempts (raw_points batch) ≡ a
        → drain answers (suc fuel) in_round ≡ drain answers fuel (after_upload a batch in_round)
    unfolding drain answer
    drain-answered a e = ap (λ b. drain answers fuel (after_upload b batch in_round)) e

  flush_idle :
      (c : Collector)
      → c.in_flight ≡ none
      → flush answers c ≡ drain answers (suc (length c.queue)) (begin_round c)
  unfolding flush
  flush_idle c idle =
      ap (λ o. if is_some o then some c else drain answers (suc (length c.queue)) (begin_round c))
        idle

  -- What a flush leaves whose first upload is refused, if there is one.
  drain_refused :
      (c : Collector) (u : Uplink) (queue : List QueuedPoint)
      → answers u.attempts (raw_points (take 200 queue)) ≡ refused
      → (after : Collector) × (drain answers
            (suc (length queue))
            (begin_round (with_queue c u queue))
          ≡ some after)
        × (after.queue ≡ queue)
        × (after.uplink.received ≡ u.received)
        × (after.options ≡ c.options)
  drain_refused c u [] e =
      let done = record (with_queue c u []) {
        in_flight = none;
        current = record c.current { queued_points = 0 };
      } in
      (done, rw (begin_round-nil c u) (drain_idle 1 done (omega arith) refl), refl, refl, refl)
  drain_refused c u (p ∷ queue) e =
      let tried : Uplink = record u { attempts = u.attempts + 1 } in
      let fuel = suc (length queue) in
      let off = gone_offline (record (in_round fuel c u p queue) { uplink = tried }) in
      (
        off,
        rw (begin_round-cons c u p queue)
            (drain-answered fuel c u p queue refused e ∙ drain_idle fuel off (omega arith) refl),
        refl,
        refl,
        refl,
      )

  All-cleared :
      (session : ℕ) (queue : List QueuedPoint)
      → All (λ p. p.session_id ≡ session) queue
      → clear session queue ≡ []
  unfolding clear
  All-cleared session [] h = refl
  All-cleared session (p ∷ queue) h = ground (arith, All-cleared session queue h.1)

  -- A collector that is stopped while the server refuses its first upload loses every queued point
  -- of its session, though the server has received none of them.
  pub stop_refused :
      (c : Collector)
      → c.in_flight ≡ none
      → All (λ p. p.session_id ≡ c.options.session_id) c.queue
      → answers c.uplink.attempts (raw_points (take 200 c.queue)) ≡ refused
      → (after : Collector) × (stop answers c ≡ some after)
        × (after.queue ≡ [])
        × (after.uplink.received ≡ c.uplink.received)
  unfolding stop
  stop_refused c idle own e =
      let (d, ran, kept, received, options) =
        drain_refused (record c { is_watching = false }) c.uplink c.queue e in
      (
        record d {
          queue = clear d.options.session_id d.queue;
          current = record d.current { state = TrackingState.stopped };
        },
        ap (stopped answers) (flush_idle (record c { is_watching = false }) idle ∙ ran),
        ap (λ o. clear o.session_id d.queue) options
            ∙ ap (clear c.options.session_id) kept
            ∙ All-cleared c.options.session_id c.queue own,
        received,
      )
