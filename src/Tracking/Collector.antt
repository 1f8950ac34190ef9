-- ===== src/Tracking/Collector.antt =====
-- packages/tracking-client/src/web-collector.ts with sampling-bridge.ts: what the collector of a
-- browser keeps, over the queue in memory. A method runs to its end before the next begins, but for
-- an upload: between the upload of a batch and its answer other methods run, and a flush that is
-- started meanwhile does nothing. Only `stop` waits for its flush. The screen lock and the listeners
-- of the page are left out. What becomes of an upload is a parameter, and so is the distance between
-- two points.
pub mod Points
pub mod Rounds
pub mod Safety
pub mod Flushes
pub mod Fixes
use aytrackerv.Prelude.{
  ℕ, zero, suc, ◌+◌, ◌*◌, ◌^◌, Bool, true, false, not, Option, none, some, List, [], ◌∷◌, ◌++◌, map,
  length, is_some, ◌==◌, if◌then◌else◌,
}
use aytrackerv.Domain.Numbers.{JsNumber, positive, number}
use aytrackerv.Domain.Time.{Instant}
use aytrackerv.Tracking.State.{TrackingState}
use aytrackerv.Tracking.Sampling.{SamplingPolicy, decide_sampling}
use aytrackerv.Tracking.Queue.{RawPoint, QueuedPoint, gps, enqueue, peek, remove, clear}

pub record GeoPointLike : Type 0 where
  pub latitude : JsNumber
  pub longitude : JsNumber

pub data Permission : Type 0 where
  granted denied prompt unknown : Permission

pub record CollectorStatus : Type 0 where
  pub state : TrackingState
  pub last_fix_at : Option Instant
  pub last_accuracy_meters : Option JsNumber
  pub queued_points : ℕ
  pub permission : Permission
  pub dropped_points : ℕ

pub record CollectorOptions : Type 0 where
  pub session_id : ℕ
  pub min_interval_seconds : ℕ
  pub min_distance_meters : JsNumber

-- What becomes of an upload: the server stores the batch and answers, it stores the batch and the
-- answer is lost, or the batch does not reach it or is refused. The last two look the same to the
-- collector: `upload` throws.
pub data Answer : Type 0 where
  accepted lost refused : Answer

-- What the server has stored, and the number of uploads tried.
pub record Uplink : Type 0 where
  pub attempts : ℕ
  pub received : List RawPoint

-- `in_flight` is `uploading`, with the batch whose answer is awaited.
pub record Collector : Type 0 where
  pub options : CollectorOptions
  pub is_watching : Bool
  pub queue : List QueuedPoint
  pub seq : ℕ
  pub in_flight : Option (List QueuedPoint)
  pub last_sent_at : Option Instant
  pub last_sent_point : Option GeoPointLike
  pub current : CollectorStatus
  pub uplink : Uplink

pub record GeolocationPosition : Type 0 where
  pub timestamp : Instant
  pub latitude : JsNumber
  pub longitude : JsNumber
  pub accuracy : JsNumber
  pub speed : Option JsNumber
  pub heading : Option JsNumber
  pub altitude : Option JsNumber

-- `DEFAULT_SAMPLING_POLICY`, of which 1.5 and 0.15 are the doubles.
abbrev pub default_sampling_policy : SamplingPolicy
default_sampling_policy = record {
  min_interval_seconds = 15;
  max_interval_seconds = 60;
  min_distance_meters = number 50;
  stationary_speed_mps = positive (3 * 2 ^ 1073);
  stationary_interval_seconds = 120;
  low_battery_threshold = positive (0x13333333333333 * 2 ^ 1019);
  low_battery_interval_seconds = 180;
}

abbrev pub seqs_of : List QueuedPoint → List ℕ
seqs_of points = map (λ p. p.seq) points

abbrev pub raw_points : List QueuedPoint → List RawPoint
raw_points points = map (λ p. p.point) points

-- `onError`, of an error that is PERMISSION_DENIED or another one.
unfoldable pub on_error : Bool → Collector → Collector
on_error is_denied c = record c {
  current = record c.current {
    state = TrackingState.interrupted;
    permission = if is_denied then denied else c.current.permission;
  };
}

-- A round of the loop of `flush`, up to its upload of at most 200 points, or its end.
unfoldable pub begin_round : Collector → Collector
begin_round c =
    let batch = peek 200 c.queue in
    if length batch == 0
    then record c {
      in_flight = none;
      current = record c.current { queued_points = length c.queue };
    }
    else record c { in_flight = some batch }

-- `flush`, up to its first upload.
unfoldable pub begin_flush : Collector → Collector
unfolding begin_round
begin_flush c = if is_some c.in_flight then c else begin_round c

abbrev pub stored : List QueuedPoint → Uplink → Uplink
stored batch u = record { attempts = u.attempts + 1; received = u.received ++ raw_points batch }

-- The `catch` and the `finally` of `flush`.
abbrev pub gone_offline : Collector → Collector
gone_offline c = record c {
  in_flight = none;
  current = record c.current { state = TrackingState.offline; queued_points = length c.queue };
}

-- What `flush` does with the answer to a batch.
abbrev pub after_upload : Answer → List QueuedPoint → Collector → Collector
after_upload accepted batch c =
    begin_round
      (record c { queue = remove (seqs_of batch) c.queue; uplink = stored batch c.uplink })
after_upload lost batch c = gone_offline (record c { uplink = stored batch c.uplink })
after_upload refused batch c =
    gone_offline (record c { uplink = record c.uplink { attempts = c.uplink.attempts + 1 } })

abbrev pub answer_to : Answer → Option (List QueuedPoint) → Collector → Collector
answer_to a none c = c
answer_to a (some batch) c = after_upload a batch c

unfoldable pub answer : Answer → Collector → Collector
unfolding begin_round
answer a c = answer_to a c.in_flight c

-- `onVisibilityChange`
unfoldable pub on_visibility_change : Bool → Collector → Collector
unfolding begin_flush
on_visibility_change is_hidden c = begin_flush (record c {
  current = record c.current {
    state = if is_hidden then TrackingState.degraded else TrackingState.active;
  };
})

abbrev pub batch_of : Option (List QueuedPoint) → List QueuedPoint
batch_of none = []
batch_of (some batch) = batch

module _ (answers : ℕ → List RawPoint → Answer) where
  -- The rounds that are left until a flush ends; `none` means that the fuel ran out.
  unfoldable pub drain : ℕ → Collector → Option Collector
  unfolding answer
  drain zero c = none
  drain (suc fuel) c =
      let a = answers c.uplink.attempts (raw_points (batch_of c.in_flight)) in
      let rest = drain fuel (answer a c) in if is_some c.in_flight then rest else some c

  -- `flush` where it is waited for, and nothing runs meanwhile.
  unfoldable pub flush : Collector → Option Collector
  unfolding drain begin_round
  flush c =
      let sent = drain (suc (length c.queue)) (begin_round c) in
      if is_some c.in_flight then some c else sent

  abbrev pub stopped : Option Collector → Option Collector
  stopped none = none
  stopped (some c) = some (record c {
    queue = clear c.options.session_id c.queue;
    current = record c.current { state = TrackingState.stopped };
  })

  unfoldable pub stop : Collector → Option Collector
  stop c = stopped (flush (record c { is_watching = false }))

abbrev pub queued_point : ℕ → ℕ → GeolocationPosition → QueuedPoint
queued_point session_id seq position = record {
  session_id = session_id;
  seq = seq;
  point = record {
    timestamp = position.timestamp;
    latitude = position.latitude;
    longitude = position.longitude;
    accuracy_meters = some position.accuracy;
    speed_mps = position.speed;
    heading = position.heading;
    altitude = position.altitude;
    source = gps;
  };
}

-- What a fix adds to the queue.
unfoldable pub keep_fix : Collector → GeolocationPosition → Collector
keep_fix c position =
    let e = enqueue (queued_point c.options.session_id (c.seq + 1) position ∷ []) c.queue in
    record c {
      seq = c.seq + 1;
      queue = e.points;
      last_sent_at = some position.timestamp;
      last_sent_point =
          some (record { latitude = position.latitude; longitude = position.longitude });
      current = record c.current {
        queued_points = length e.points;
        dropped_points = c.current.dropped_points + e.dropped;
      };
    }

-- The status once a fix has come.
abbrev pub seen_fix : Bool → GeolocationPosition → Collector → Collector
seen_fix is_visible position c = record c {
  current = record c.current {
    last_fix_at = some position.timestamp;
    last_accuracy_meters = some position.accuracy;
    state = if is_visible then TrackingState.active else TrackingState.degraded;
  };
}

module _ (haversine_meters : GeoPointLike → GeoPointLike → JsNumber) where
  -- `decideSampling` of sampling-bridge.ts, with what `onFix` passes to it.
  unfoldable pub should_send : Collector → GeolocationPosition → Bool
  should_send c position =
      (decide_sampling haversine_meters (record {
        last_sent_at = c.last_sent_at;
        last_sent_point = c.last_sent_point;
        current = record { latitude = position.latitude; longitude = position.longitude };
        current_speed_mps = position.speed;
        battery_level = none;
        now = position.timestamp;
        policy = record default_sampling_policy {
          min_interval_seconds = c.options.min_interval_seconds;
          min_distance_meters = c.options.min_distance_meters;
        };
      })).should_send

  unfoldable pub on_fix : Bool → GeolocationPosition → Collector → Collector
  unfolding begin_flush should_send keep_fix
  on_fix is_visible position c =
      if should_send c position
      then begin_flush (keep_fix (seen_fix is_visible position c) position)
      else seen_fix is_visible position c
