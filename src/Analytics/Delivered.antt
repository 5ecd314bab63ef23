-- ===== src/Analytics/Delivered.antt =====
-- What becomes of the events that the client of frontend/src/core/analytics/analyticsClient.ts tracks.
use runway_the_game.Prelude.{
  ℕ, zero, suc, ltb, leb, eqb, ◌≡◌, refl, sym, ap, ◌∙◌, inl, inr, Bool, true, false, not, ◌||◌,
  List, [], ◌∷◌, ◌++◌, length, take, drop, Bool-cases, if◌then◌else◌,
}
use mathlib.Core.Path.{subst}
use mathlib.Core.List.{Sublistᴰ, append_assoc, append-nil}
use mathlib.Core.List.Sublistᴰ
use mathlib.Core.List.Sublistᴰ.{slnil, cons, cons-cons}
use runway_the_game.Analytics.{
  AnalyticsClient, QueuedEvent, SendResult, ok, refused, failed, send_result, Event, tracked,
  request_failed, initialised, configured, timed, hidden, answered, handle, handle_all, is_on,
  is_off, track, flush, flush_or_schedule, push_event, make_room, schedule, stop_timer, send_batch,
  discard, give_up, landed, count_failure, on_result, on_config, on_timer, init,
}

abbrev pub concat : List (List QueuedEvent) → List QueuedEvent
concat [] = []
concat (b ∷ bs) = b ++ concat bs

-- What the client was told to track, in order.
abbrev pub events_of : List Event → List QueuedEvent
events_of [] = []
events_of (tracked e ∷ es) = e ∷ events_of es
events_of (request_failed e ∷ es) = e ∷ events_of es
events_of (_ ∷ es) = events_of es

-- The events of the batches, then those of the queue, are some of the log's, in its order.
abbrev pub Ordered : AnalyticsClient → List QueuedEvent → Type 0
Ordered s log = Sublistᴰ (concat s.sent ++ s.queue) log

Sublist-snoc :
    {xs ys : List QueuedEvent} (e : QueuedEvent)
    → Sublistᴰ xs ys
    → Sublistᴰ (xs ++ e ∷ []) (ys ++ e ∷ [])
Sublist-snoc e slnil = cons-cons refl slnil
Sublist-snoc e (cons h) = cons (Sublist-snoc e h)
Sublist-snoc e (cons-cons p h) = cons-cons p (Sublist-snoc e h)

Sublist-skip :
    {xs ys : List QueuedEvent} (e : QueuedEvent) → Sublistᴰ xs ys → Sublistᴰ xs (ys ++ e ∷ [])
Sublist-skip e slnil = cons slnil
Sublist-skip e (cons h) = cons (Sublist-skip e h)
Sublist-skip e (cons-cons p h) = cons-cons p (Sublist-skip e h)

Sublist-without : (xs zs : List QueuedEvent) (x : QueuedEvent) → Sublistᴰ (xs ++ zs) (xs ++ x ∷ zs)
Sublist-without [] zs x = cons (Sublistᴰ.refl zs)
Sublist-without (y ∷ xs) zs x = cons-cons refl (Sublist-without xs zs x)

Sublist-left :
    (xs zs : List QueuedEvent) {ys : List QueuedEvent}
    → Sublistᴰ (xs ++ zs) ys
    → Sublistᴰ (xs ++ []) ys
Sublist-left xs [] h = h
Sublist-left xs (z ∷ zs) h = Sublist-left xs zs (Sublistᴰ.trans (Sublist-without xs zs z) h)

concat-snoc :
    (bs : List (List QueuedEvent)) (b : List QueuedEvent) → concat (bs ++ b ∷ []) ≡ concat bs ++ b
concat-snoc [] b = append-nil b
concat-snoc (c ∷ bs) b = ap (λ l. c ++ l) (concat-snoc bs b) ∙ sym (append_assoc c (concat bs) b)

take-drop : (n : ℕ) (q : List QueuedEvent) → take n q ++ drop n q ≡ q
take-drop zero q = refl
take-drop (suc n) [] = refl
take-drop (suc n) (x ∷ q) = ap (λ l. x ∷ l) (take-drop n q)

module _ (log : List QueuedEvent) where
  if-Ordered :
      (b : Bool) (s t : AnalyticsClient)
      → Ordered s log
      → Ordered t log
      → Ordered (if b then s else t) log
  if-Ordered true s t h k = h
  if-Ordered false s t h k = k

  schedule-Ordered : (s : AnalyticsClient) → Ordered s log → Ordered (schedule s) log
  schedule-Ordered s h =
      if-Ordered (s.timer || s.dead || is_off s.enabled) s (record s { timer = true }) h h

  flush-Ordered : (s : AnalyticsClient) → Ordered s log → Ordered (flush s) log
  flush-Ordered s h =
      let same : concat s.sent ++ s.queue
          ≡ concat (s.sent ++ take 25 s.queue ∷ []) ++ drop 25 s.queue =
        ap (λ q. concat s.sent ++ q) (sym (take-drop 25 s.queue))
        ∙ sym (append_assoc (concat s.sent) (take 25 s.queue) (drop 25 s.queue))
        ∙ ap (λ l. l ++ drop 25 s.queue) (sym (concat-snoc s.sent (take 25 s.queue))) in
      if-Ordered (s.dead || not (is_on s.enabled) || eqb (length s.queue) 0) (stop_timer s)
        (send_batch (stop_timer s)) h (subst (λ l. Sublistᴰ l log) same h)

  give_up-Ordered : (s : AnalyticsClient) → Ordered s log → Ordered (discard s) log
  give_up-Ordered s h = Sublist-left (concat s.sent) s.queue h

  result-Ordered :
      (r : SendResult) (s : AnalyticsClient) → Ordered s log → Ordered (on_result r s) log
  result-Ordered ok s h =
      let t = record s { failures = 0 } in
      if-Ordered (ltb 0 (length s.queue)) (schedule t) t (schedule-Ordered t h) h
  result-Ordered refused s h = give_up-Ordered s h
  result-Ordered failed s h =
      if-Ordered (leb 3 (suc s.failures)) (give_up (count_failure s)) (count_failure s)
        (give_up-Ordered s h) h

  init-Ordered : (b : Bool) (s : AnalyticsClient) → Ordered s log → Ordered (init b s) log
  init-Ordered b s h = if-Ordered s.started s _ h (if-Ordered b _ _ h h)

  config-Ordered : (b : Bool) (s : AnalyticsClient) → Ordered s log → Ordered (on_config b s) log
  config-Ordered true s h = h
  config-Ordered false s h = give_up-Ordered s h

make_room-Ordered :
    (sent q log : List QueuedEvent) → Sublistᴰ (sent ++ q) log → Sublistᴰ (sent ++ make_room q) log
make_room-Ordered sent [] log h = h
make_room-Ordered sent (x ∷ q) log h = elim (Bool-cases (leb 200 (length (x ∷ q)))) [
  | inl e ↦ rw e (Sublistᴰ.trans (Sublist-without sent q x) h)
  | inr e ↦ rw e h
]

track-Ordered :
    (e : QueuedEvent) (s : AnalyticsClient) (log : List QueuedEvent)
    → Ordered s log
    → Ordered (track e s) (log ++ e ∷ [])
track-Ordered e s log h =
    let p : Ordered (push_event e s) (log ++ e ∷ []) =
      subst (λ l. Sublistᴰ l (log ++ e ∷ []))
        (append_assoc (concat s.sent) (make_room s.queue) (e ∷ []))
        (Sublist-snoc e (make_room-Ordered (concat s.sent) s.queue log h)) in
    if-Ordered (log ++ e ∷ []) (s.dead || is_off s.enabled) s (flush_or_schedule (push_event e s))
      (Sublist-skip e h)
      (if-Ordered (log ++ e ∷ []) (leb 25 (length (push_event e s).queue)) (flush (push_event e s))
        (schedule (push_event e s)) (flush-Ordered (log ++ e ∷ []) (push_event e s) p)
        (schedule-Ordered (log ++ e ∷ []) (push_event e s) p))

abbrev log_after : Event → List QueuedEvent → List QueuedEvent
log_after e log = log ++ events_of (e ∷ [])

unlogged : (s : AnalyticsClient) (log : List QueuedEvent) → Ordered s log → Ordered s (log ++ [])
unlogged s log h = subst (λ l. Ordered s l) (sym (append-nil log)) h

handle-Ordered :
    (e : Event) (s : AnalyticsClient) (log : List QueuedEvent)
    → Ordered s log
    → Ordered (handle e s) (log_after e log)
unfolding handle
handle-Ordered (tracked e) s log h = track-Ordered e s log h
handle-Ordered (request_failed e) s log h =
    if-Ordered (log ++ e ∷ []) s.listening (track e s) s (track-Ordered e s log h)
      (Sublist-skip e h)
handle-Ordered (initialised b) s log h = unlogged (init b s) log (init-Ordered log b s h)
handle-Ordered (configured b) s log h =
    unlogged (if s.asking then on_config b s else s) log
      (if-Ordered log s.asking (on_config b s) s (config-Ordered log b s h) h)
handle-Ordered timed s log h =
    unlogged (if s.timer then on_timer s else s) log
      (if-Ordered log s.timer (on_timer s) s (flush-Ordered log (record s { timer = false }) h) h)
handle-Ordered hidden s log h =
    unlogged (if s.listening then flush s else s) log
      (if-Ordered log s.listening (flush s) s (flush-Ordered log s h) h)
handle-Ordered (answered d) s log h =
    unlogged (if ltb 0 s.in_flight then on_result (send_result d) (landed s) else s) log (
      if-Ordered log (ltb 0 s.in_flight) (on_result (send_result d) (landed s)) s
        (result-Ordered log (send_result d) (landed s) h) h)

events_of-cons :
    (e : Event) (es : List Event) → events_of (e ∷ es) ≡ events_of (e ∷ []) ++ events_of es
events_of-cons (tracked e) es = refl
events_of-cons (request_failed e) es = refl
events_of-cons (initialised b) es = refl
events_of-cons (configured b) es = refl
events_of-cons timed es = refl
events_of-cons hidden es = refl
events_of-cons (answered d) es = refl

-- After any events, what was sent, batch after batch, and then what is queued are events that the
-- client was told to track, each at most once and in the order in which they were tracked.
pub handle_all-Ordered :
    (es : List Event) (s : AnalyticsClient) (log : List QueuedEvent)
    → Ordered s log
    → Ordered (handle_all es s) (log ++ events_of es)
unfolding handle_all
handle_all-Ordered [] s log h = unlogged s log h
handle_all-Ordered (e ∷ es) s log h =
    subst (λ l. Ordered (handle_all es (handle e s)) l)
      (append_assoc log (events_of (e ∷ [])) (events_of es)
        ∙ ap (λ l. log ++ l) (sym (events_of-cons e es)))
      (handle_all-Ordered es (handle e s) (log_after e log) (handle-Ordered e s log h))
