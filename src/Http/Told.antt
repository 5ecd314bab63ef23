-- ===== src/Http/Told.antt =====
-- What a request of frontend/src/core/api/http.ts gives, and what it tells of a failure.
use runway_the_game.Prelude.{
  ℕ, ◌+◌, eqb, String, ◌≡◌, refl, sym, ap, ◌∙◌, inl, inr, Bool, true, false, ◌&&◌, ◌||◌, ◌⊎◌, not,
  Option, none, some, [], ◌∷◌, length, length-append, truthy, or_default, arith, Bool-cases,
  number_text, if◌then◌else◌,
}
use runway_the_game.Http.{
  Response, Fetched, threw, answered, Result, thrown, api_error, undefined, parsed, read_json,
  is_ok, starts_with, Session, error_message, report_request_failure, record_failure, request,
}

abbrev pub fails {ℓ} : {J : Type ℓ} → Result J → Bool
fails (thrown err) = true
fails (api_error status message) = true
fails undefined = false
fails (parsed json) = false

abbrev pub failed {ℓ} : {J : Type ℓ} → Fetched J → Bool
failed (threw err) = true
failed (answered res) = not (is_ok res.status)

-- A body that is wanted and does not parse.
abbrev pub unparsable {ℓ} : {J : Type ℓ} → Fetched J → Bool
unparsable (threw err) = false
unparsable (answered res) =
    is_ok res.status && not (eqb res.status 204) && fails (read_json res.json)

-- The message of an error that has a status.
abbrev pub message_of {ℓ} : {J : Type ℓ} → Result J → Option String
message_of (api_error status message) = some message
message_of _ = none

abbrev pub status_text_of {ℓ} : {J : Type ℓ} → Fetched J → String
status_text_of (threw err) = ""
status_text_of (answered res) = res.status_text

none-some : {s : String} → none ≡ some s → ⊥
none-some e = ground (arith, e)

no_message {ℓ} : {J : Type ℓ} (j : String ⊎ J) → message_of (read_json j) ≡ none
no_message (inl err) = refl
no_message (inr json) = refl

true-false : true ≡ false → ⊥
true-false e = ground (arith, e)

if-truthy :
    (b : Bool) (x y : String)
    → (b ≡ true → truthy x ≡ true)
    → (b ≡ false → truthy y ≡ true)
    → truthy (if b then x else y) ≡ true
if-truthy true x y h k = h refl
if-truthy false x y h k = k refl

module _ (json_error : String → Option String) (route_shape : String → String → String)
    (redact_secrets : String → String) (at : String) (path method : String) where
  abbrev pub run : {J : Type 0} → Fetched J → Session → Result J × Session
  run f s = request json_error route_shape redact_secrets at path method f s

  -- Whether the failure of a request is reported: a request for the analytics endpoint is not.
  abbrev pub is_reported : Session → Bool
  is_reported s = s.has_sink && not (starts_with "/api/analytics" path)

  abbrev pub Counted : Session → Session → Type 0
  Counted s t = length t.reports ≡ length s.reports + (if is_reported s then 1 else 0)

  reported :
      (status : ℕ) (s : Session)
      → Counted s
          (report_request_failure json_error route_shape redact_secrets at path method status s)
  reported status s = elim (Bool-cases s.has_sink) [
    | inl e ↦ elim (Bool-cases (starts_with "/api/analytics" path)) [
      | inl f ↦ rw (e, f) (omega arith)
      | inr f ↦
          rw (e, f) (length-append s.reports ((route_shape path method, number_text status) ∷ []))
    ]
    | inr e ↦ rw e (omega arith)
  ]

  message_said :
      {J : Type 0} (res : Response J)
      → truthy res.status_text ≡ true
      → truthy (error_message json_error route_shape redact_secrets at res) ≡ true
  message_said res h =
      let body = or_default res.text "" in
      let said = or_default (json_error body) "" in
      if-truthy (truthy body) (if truthy said then said else body) res.status_text
        (λ e. if-truthy (truthy said) said body (λ f. f) (λ f. e)) (λ e. h)

  abbrev pub Told : {J : Type 0} → Fetched J → Session → Result J × Session → Type 0
  Told f s t =
      (fails t.0 ≡ (failed f || unparsable f))
      × (failed f ≡ true → Counted s t.1)
      × (failed f ≡ false → t.1 ≡ s)
      × ((m : String)
          → truthy (status_text_of f) ≡ true
          → message_of t.0 ≡ some m
          → truthy m ≡ true)

  -- A request throws exactly when there was no response, or its status is not of the two hundreds, or
  -- its status is of them but 204 and the body does not parse. In the first two cases one failure more
  -- is reported, or none when there is no sink or the path is the analytics endpoint's; else, also for
  -- a body that does not parse, nothing is recorded or reported. The message of an error with a status
  -- is not empty when the response has a status text.
  pub request-Told : {J : Type 0} (f : Fetched J) (s : Session) → Told f s (run f s)
  unfolding request
  request-Told (threw err) s =
      (refl, (λ e. reported 0 s), (λ e. absurd (true-false e)), (λ m e k. absurd (none-some k)))
  request-Told (answered res) s = elim (Bool-cases (is_ok res.status)) [
    | inl e ↦ elim (Bool-cases (eqb res.status 204)) [
      | inl f ↦
          rw (e, f)
            (refl, (λ k. absurd (true-false (sym k))), (λ k. refl), (λ m k l. absurd (none-some l)))
      | inr f ↦
          rw (e, f)
            (
              refl,
              (λ k. absurd (true-false (sym k))),
              (λ k. refl),
              (λ m k l. absurd (none-some (sym (no_message res.json) ∙ l))),
            )
    ]
    | inr e ↦ rw e (
      refl,
      (λ k. reported res.status (
          record_failure json_error route_shape redact_secrets at path method res.status
            (error_message json_error route_shape redact_secrets at res) s)),
      (λ k. absurd (true-false k)),
      (λ m k l. ap (λ o. truthy (or_default o "")) (sym l) ∙ message_said res k),
    )
  ]
