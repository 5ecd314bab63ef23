-- ===== src/Analytics.antt =====
-- The analytics client: frontend/src/core/analytics/analyticsClient.ts, with the sink that it gives
-- requestFailures.ts. Its callbacks are events: the answer of
-- getServerConfig, the result of a batch, the timer, and the page that is hidden or left. What
-- sendBatch got is a list of batches.
pub mod Bounded
pub mod Delivered
mod Tests
use runway_the_game.Prelude.{
  ℕ, suc, ◌+◌, ◌-◌, ltb, leb, String, Bool, true, false, not, ◌&&◌, ◌||◌, Option, none, some, List,
  [], ◌∷◌, ◌++◌, length, take, drop, includes, eqb, if◌then◌else◌,
}

pub record QueuedEvent : Type 0 where
  pub name : String
  pub props : List (String × String)

pub data SendResult : Type 0 where
  ok refused failed : SendResult

-- `enabled` is none until the config is known, `listening` says that init installed the sink and the
-- listeners, `asking` that the config is not answered, and `in_flight` counts the batches that are not.
pub record AnalyticsClient : Type 0 where
  pub queue : List QueuedEvent
  pub timer : Bool
  pub enabled : Option Bool
  pub failures : ℕ
  pub dead : Bool
  pub started : Bool
  pub listening : Bool
  pub asking : Bool
  pub sent : List (List QueuedEvent)
  pub in_flight : ℕ

abbrev pub max_batch : ℕ
max_batch = 25

abbrev pub max_queue : ℕ
max_queue = 200

abbrev pub max_failures : ℕ
max_failures = 3

abbrev pub no_events : AnalyticsClient
no_events = record {
  queue = [];
  timer = false;
  enabled = none;
  failures = 0;
  dead = false;
  started = false;
  listening = false;
  asking = false;
  sent = [];
  in_flight = 0;
}

abbrev pub is_on : Option Bool → Bool
is_on none = false
is_on (some b) = b

abbrev pub is_off : Option Bool → Bool
is_off none = false
is_off (some b) = not b

abbrev pub stop_timer : AnalyticsClient → AnalyticsClient
stop_timer s = record s { timer = false }

abbrev pub discard : AnalyticsClient → AnalyticsClient
discard s = stop_timer (record s { queue = [] })

abbrev pub schedule : AnalyticsClient → AnalyticsClient
schedule s = if s.timer || s.dead || is_off s.enabled then s else record s { timer = true }

abbrev pub send_batch : AnalyticsClient → AnalyticsClient
send_batch s = record s {
  queue = drop max_batch s.queue;
  sent = s.sent ++ take max_batch s.queue ∷ [];
  in_flight = suc s.in_flight;
}

abbrev pub flush : AnalyticsClient → AnalyticsClient
flush s =
    if s.dead || not (is_on s.enabled) || eqb (length s.queue) 0
    then stop_timer s
    else send_batch (stop_timer s)

-- `queue.shift()` of a full queue, and `queue.push`.
abbrev pub make_room : List QueuedEvent → List QueuedEvent
make_room queue = if leb max_queue (length queue) then drop 1 queue else queue

abbrev pub push_event : QueuedEvent → AnalyticsClient → AnalyticsClient
push_event e s = record s { queue = make_room s.queue ++ e ∷ [] }

abbrev pub flush_or_schedule : AnalyticsClient → AnalyticsClient
flush_or_schedule s = if leb max_batch (length s.queue) then flush s else schedule s

abbrev pub track : QueuedEvent → AnalyticsClient → AnalyticsClient
track e s = if s.dead || is_off s.enabled then s else flush_or_schedule (push_event e s)

abbrev pub give_up : AnalyticsClient → AnalyticsClient
give_up s = discard (record s { dead = true })

abbrev pub landed : AnalyticsClient → AnalyticsClient
landed s = record s { in_flight = s.in_flight - 1 }

abbrev pub count_failure : AnalyticsClient → AnalyticsClient
count_failure s = record s { failures = suc s.failures }

-- The callback of sendBatch.
abbrev pub on_result : SendResult → AnalyticsClient → AnalyticsClient
on_result ok s =
    let t = record s { failures = 0 } in if ltb 0 (length t.queue) then schedule t else t
on_result refused s = give_up s
on_result failed s = let t = count_failure s in if leb max_failures t.failures then give_up t else t

-- Whether the browser asks not to be tracked: doNotTrack, or globalPrivacyControl.
abbrev pub init : Bool → AnalyticsClient → AnalyticsClient
init opted_out s =
    if s.started
    then s
    else if opted_out
    then record s { started = true; dead = true }
    else record s { started = true; listening = true; asking = true }

-- `cfg.analytics === true`; a config that cannot be read counts as false.
abbrev pub on_config : Bool → AnalyticsClient → AnalyticsClient
on_config analytics s =
    let t = record s { enabled = some analytics; asking = false } in
    if analytics then t else discard t

abbrev pub on_timer : AnalyticsClient → AnalyticsClient
on_timer s = flush (record s { timer = false })

-- How a batch went: the answer of sendBeacon, the response of fetch, or no response.
pub data Delivery : Type 0 where
  beacon : Bool → Delivery
  response : ℕ → Delivery
  unreachable : Delivery

abbrev pub send_result : Delivery → SendResult
send_result (beacon queued) = if queued then ok else failed
send_result (response status) =
    if leb 400 status && ltb status 500
    then refused
    else if leb 200 status && leb status 299
    then ok
    else failed
send_result unreachable = failed

-- What can happen to the client: a request that failed is tracked through the sink that init
-- installs, and a hidden page flushes through its listeners.
pub data Event : Type 0 where
  tracked request_failed : QueuedEvent → Event
  initialised configured : Bool → Event
  timed hidden : Event
  answered : Delivery → Event

unfoldable pub handle : Event → AnalyticsClient → AnalyticsClient
handle (tracked e) s = track e s
handle (request_failed e) s = if s.listening then track e s else s
handle (initialised opted_out) s = init opted_out s
handle (configured analytics) s = if s.asking then on_config analytics s else s
handle timed s = if s.timer then on_timer s else s
handle hidden s = if s.listening then flush s else s
handle (answered d) s = if ltb 0 s.in_flight then on_result (send_result d) (landed s) else s

unfoldable pub handle_all : List Event → AnalyticsClient → AnalyticsClient
unfolding handle
handle_all [] s = s
handle_all (e ∷ es) s = handle_all es (handle e s)
