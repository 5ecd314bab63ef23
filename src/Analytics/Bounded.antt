-- ===== src/Analytics/Bounded.antt =====
-- What the client of frontend/src/core/analytics/analyticsClient.ts keeps and sends, and when.
use runway_the_game.Prelude.{
  ℕ, suc, ◌≤◌, ltb, leb, eqb, ◌≡◌, refl, sym, ◌∙◌, ◌⊎◌, inl, inr, Bool, true, false, not, ◌||◌,
  Option, none, some, List, [], ◌∷◌, ◌++◌, length, length-append, length-drop, take, drop,
  length-take_le, All, All-append, arith, Bool-cases, if◌then◌else◌,
}
use runway_the_game.Analytics.{
  AnalyticsClient, QueuedEvent, SendResult, ok, refused, failed, send_result, Event, tracked,
  request_failed, initialised, configured, timed, hidden, answered, handle, handle_all, no_events,
  is_on, is_off, track, flush, flush_or_schedule, push_event, make_room, schedule, stop_timer,
  send_batch, discard, give_up, landed, count_failure, on_result, on_config, on_timer, init,
}

abbrev pub IsBatch : List QueuedEvent → Type 0
IsBatch b = (1 ≤ length b) × (length b ≤ 25)

-- The queue and the batches have their bounds, nothing is sent before the config allows it, and the
-- config is asked for once.
pub record Bounded (queue : List QueuedEvent) (sent : List (List QueuedEvent))
    (enabled : Option Bool) (asking started : Bool) : Type 0 where
  pub queue_bound : length queue ≤ 200
  pub batches : All IsBatch sent
  pub consent : (sent ≡ []) ⊎ (enabled ≡ some true)
  pub unasked : asking ≡ true → (enabled ≡ none) × (started ≡ true)
  pub unstarted : started ≡ false → enabled ≡ none

abbrev pub IsBounded : AnalyticsClient → Type 0
IsBounded s = Bounded s.queue s.sent s.enabled s.asking s.started

emptied :
    {q : List QueuedEvent} {sent : List (List QueuedEvent)} {enabled : Option Bool}
    {asking started : Bool}
    → Bounded q sent enabled asking started
    → Bounded [] sent enabled asking started
emptied h = record {
  queue_bound = omega arith;
  batches = h.batches;
  consent = h.consent;
  unasked = h.unasked;
  unstarted = h.unstarted;
}

true-false : true ≡ false → ⊥
true-false e = ground (arith, e)

if-IsBounded :
    (b : Bool) (s t : AnalyticsClient)
    → (b ≡ true → IsBounded s)
    → (b ≡ false → IsBounded t)
    → IsBounded (if b then s else t)
if-IsBounded true s t h k = h refl
if-IsBounded false s t h k = k refl

stop_timer-IsBounded : (s : AnalyticsClient) → IsBounded s → IsBounded (stop_timer s)
stop_timer-IsBounded s h = h

discard-IsBounded : (s : AnalyticsClient) → IsBounded s → IsBounded (discard s)
discard-IsBounded s h = emptied h

schedule-IsBounded : (s : AnalyticsClient) → IsBounded s → IsBounded (schedule s)
schedule-IsBounded s h =
    if-IsBounded (s.timer || s.dead || is_off s.enabled) s (record s { timer = true }) (λ e. h)
      (λ e. h)

length-take_some :
    (n : ℕ) (q : List QueuedEvent) → eqb (length q) 0 ≡ false → 1 ≤ length (take (suc n) q)
length-take_some n [] h = ground (arith, h)
length-take_some n (x ∷ q) h = omega arith

is_on-some : (o : Option Bool) → is_on o ≡ true → o ≡ some true
is_on-some none h = ground (arith, h)
is_on-some (some true) h = refl
is_on-some (some false) h = ground (arith, h)

may_send : (a b c : Bool) → (a || not b || c) ≡ false → (b ≡ true) × (c ≡ false)
may_send a b c h = (ground (arith, h), ground (arith, h))

flush-IsBounded : (s : AnalyticsClient) → IsBounded s → IsBounded (flush s)
flush-IsBounded s h =
    if-IsBounded (s.dead || not (is_on s.enabled) || eqb (length s.queue) 0) (stop_timer s)
      (send_batch (stop_timer s)) (λ e. stop_timer-IsBounded s h)
      (λ e.
        let may = may_send s.dead (is_on s.enabled) (eqb (length s.queue) 0) e in
        record {
          queue_bound = omega (arith, length-drop 25 s.queue, h.queue_bound);
          batches =
              All-append IsBatch s.sent (take 25 s.queue ∷ []) h.batches
                ((length-take_some 24 s.queue may.1, length-take_le 25 s.queue), tt);
          consent = inr (is_on-some s.enabled may.0);
          unasked = h.unasked;
          unstarted = h.unstarted;
        })

push_bound :
    (e : QueuedEvent) (q : List QueuedEvent) → length q ≤ 200 → length (make_room q ++ e ∷ []) ≤ 200
push_bound e q h = elim (Bool-cases (leb 200 (length q))) [
  | inl t ↦ rw t (omega (arith, h, length-append (drop 1 q) (e ∷ []), length-drop 1 q))
  | inr t ↦ rw t (ground (arith, t, h, length-append q (e ∷ [])))
]

push-IsBounded : (e : QueuedEvent) (s : AnalyticsClient) → IsBounded s → IsBounded (push_event e s)
push-IsBounded e s h = record {
  queue_bound = push_bound e s.queue h.queue_bound;
  batches = h.batches;
  consent = h.consent;
  unasked = h.unasked;
  unstarted = h.unstarted;
}

track-IsBounded : (e : QueuedEvent) (s : AnalyticsClient) → IsBounded s → IsBounded (track e s)
track-IsBounded e s h =
    let p = push-IsBounded e s h in
    if-IsBounded (s.dead || is_off s.enabled) s (flush_or_schedule (push_event e s)) (λ _. h)
      (λ _.
        if-IsBounded (leb 25 (length (push_event e s).queue)) (flush (push_event e s))
          (schedule (push_event e s)) (λ _. flush-IsBounded (push_event e s) p)
          (λ _. schedule-IsBounded (push_event e s) p))

result-IsBounded : (r : SendResult) (s : AnalyticsClient) → IsBounded s → IsBounded (on_result r s)
result-IsBounded ok s h =
    let t = record s { failures = 0 } in
    if-IsBounded (ltb 0 (length s.queue)) (schedule t) t (λ _. schedule-IsBounded t h) (λ _. h)
result-IsBounded refused s h = emptied h
result-IsBounded failed s h =
    if-IsBounded (leb 3 (suc s.failures)) (give_up (count_failure s)) (count_failure s)
      (λ _. emptied h) (λ _. h)

init-IsBounded : (b : Bool) (s : AnalyticsClient) → IsBounded s → IsBounded (init b s)
init-IsBounded b s h =
    if-IsBounded s.started s _ (λ _. h)
      (λ e.
        if-IsBounded b (record s { started = true; dead = true })
          (record s { started = true; listening = true; asking = true })
          (λ _. record {
            queue_bound = h.queue_bound;
            batches = h.batches;
            consent = h.consent;
            unasked = λ a. ((h.unasked a).0, refl);
            unstarted = λ f. absurd (true-false f);
          })
          (λ _. record {
            queue_bound = h.queue_bound;
            batches = h.batches;
            consent = h.consent;
            unasked = λ _. (h.unstarted e, refl);
            unstarted = λ f. absurd (true-false f);
          }))

unsent :
    {sent : List (List QueuedEvent)} {enabled : Option Bool}
    → (sent ≡ []) ⊎ (enabled ≡ some true)
    → enabled ≡ none
    → sent ≡ []
unsent (inl e) k = e
unsent (inr e) k = absurd (ground (arith, e, k))

config-IsBounded :
    (b : Bool) (s : AnalyticsClient) → s.asking ≡ true → IsBounded s → IsBounded (on_config b s)
config-IsBounded true s e h = record {
  queue_bound = h.queue_bound;
  batches = h.batches;
  consent = inr refl;
  unasked = λ f. absurd (true-false (sym f));
  unstarted = λ f. absurd (true-false (sym (h.unasked e).1 ∙ f));
}
config-IsBounded false s e h = record {
  queue_bound = omega arith;
  batches = h.batches;
  consent = inl (unsent h.consent (h.unasked e).0);
  unasked = λ f. absurd (true-false (sym f));
  unstarted = λ f. absurd (true-false (sym (h.unasked e).1 ∙ f));
}

pub handle-IsBounded : (e : Event) (s : AnalyticsClient) → IsBounded s → IsBounded (handle e s)
unfolding handle
handle-IsBounded (tracked e) s h = track-IsBounded e s h
handle-IsBounded (request_failed e) s h =
    if-IsBounded s.listening (track e s) s (λ _. track-IsBounded e s h) (λ _. h)
handle-IsBounded (initialised b) s h = init-IsBounded b s h
handle-IsBounded (configured b) s h =
    if-IsBounded s.asking (on_config b s) s (λ e. config-IsBounded b s e h) (λ _. h)
handle-IsBounded timed s h =
    if-IsBounded s.timer (on_timer s) s (λ _. flush-IsBounded (record s { timer = false }) h)
      (λ _. h)
handle-IsBounded hidden s h =
    if-IsBounded s.listening (flush s) s (λ _. flush-IsBounded s h) (λ _. h)
handle-IsBounded (answered d) s h =
    if-IsBounded (ltb 0 s.in_flight) (on_result (send_result d) (landed s)) s
      (λ _. result-IsBounded (send_result d) (landed s) h) (λ _. h)

-- After any events the queue has at most 200 entries, each batch that was sent has 1 to 25 events, and
-- if one was sent then the server's config has allowed it.
pub handle_all-IsBounded :
    (es : List Event) (s : AnalyticsClient) → IsBounded s → IsBounded (handle_all es s)
unfolding handle_all
handle_all-IsBounded [] s h = h
handle_all-IsBounded (e ∷ es) s h = handle_all-IsBounded es (handle e s) (handle-IsBounded e s h)

pub no_events-IsBounded : IsBounded no_events
no_events-IsBounded = record {
  queue_bound = omega arith;
  batches = tt;
  consent = inl refl;
  unasked = λ e. absurd (true-false (sym e));
  unstarted = λ e. refl;
}
