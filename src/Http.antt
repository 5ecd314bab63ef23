-- ===== src/Http.antt =====
-- The HTTP client: frontend/src/core/api/http.ts, with reportRequestFailure of
-- frontend/src/core/analytics/requestFailures.ts. What the browser answers is an argument: the origin
-- of a text that is a URL, the response of fetch, and the shape that routeShape gives a path.
pub mod Trusted
pub mod Told
mod Tests
use Prim.Native.Char.{code}
use runway_the_game.Prelude.{
  ℕ, ◌-◌, leb, eqb, String, ◌==◌, Bool, true, false, ◌&&◌, ◌||◌, not, Option, ◌⊎◌, inl, inr, none,
  some, List, [], ◌∷◌, ◌++◌, filter_map, includes, add_text, truthy, or_default, or_text, joined,
  number_text, if◌then◌else◌,
}
use runway_the_game.Diagnostics.{record_diagnostic}

-- What localStorage has under PINNED_ORIGINS_KEY: a list, whose entries are texts or not, or nothing
-- that can be read.
abbrev pub Pinned : Type 0
Pinned = Option (List (Option String))

abbrev pub read_pinned_origins : Pinned → List String
read_pinned_origins none = []
read_pinned_origins (some xs) = filter_map (λ x. x) xs

abbrev written : List String → List (Option String)
written [] = []
written (s ∷ ss) = some s ∷ written ss

-- `value.replace(/\/+$/, '')`
abbrev pub without_slashes : String → String
without_slashes String.[] = ""
without_slashes (String.◌∷◌ c s) =
    let rest = without_slashes s in
    if eqb (code c) b'/' && rest == "" then "" else String.◌∷◌ c rest

abbrev pub dev_server_ports : List String
dev_server_ports = "5173" ∷ "4173" ∷ "3000" ∷ []

pub record Location : Type 0 where
  pub origin : String
  pub protocol : String
  pub hostname : String
  pub port : String

abbrev pub is_same : Option String → String → Bool
is_same none o = false
is_same (some a) o = a == o

abbrev pub default_base : Location → String
default_base here =
    if includes here.port dev_server_ports
    then joined (here.protocol ∷ "//" ∷ here.hostname ∷ ":8080" ∷ [])
    else here.origin

module _ (origin_of : String → Option String) where
  -- Registers a backend origin that this device trusts, when the write succeeds.
  abbrev pub pin_trusted_api_origin : Bool → String → Pinned → Pinned
  pin_trusted_api_origin saved origin pinned = elim (origin_of origin) [
    | none ↦ pinned
    | some o ↦ if saved then some (written (add_text o (read_pinned_origins pinned))) else pinned
  ]

  abbrev pub configured_origin : Option String → Option String
  configured_origin none = none
  configured_origin (some base) = if truthy base then origin_of base else none

  abbrev pub is_trusted_origin : Option String → Pinned → Location → String → Bool
  is_trusted_origin configured pinned here o =
      is_same (origin_of here.origin) o
      || is_same (configured_origin configured) o
      || includes o (read_pinned_origins pinned)

  abbrev pub is_trusted_api_base_url : Option String → Pinned → Location → String → Bool
  is_trusted_api_base_url configured pinned here value = elim (origin_of value) [
    | none ↦ false
    | some o ↦ is_trusted_origin configured pinned here o
  ]

  -- `v || configuredBase`
  abbrev pub explicit_api_base : Option String → Option String → Option String
  explicit_api_base none configured = configured
  explicit_api_base (some v) configured = if truthy v then some v else configured

  abbrev pub honoured : Option String → Pinned → Location → String → String
  honoured configured pinned here candidate =
      if is_trusted_api_base_url configured pinned here candidate
      then candidate
      else default_base here

  -- The base, from the api parameter of the address, if any.
  unfoldable pub resolve_api_base_url : Option String → Option String → Pinned → Location → String
  resolve_api_base_url api configured pinned here = elim (explicit_api_base api configured) [
    | none ↦ default_base here
    | some base ↦
        if truthy base
        then honoured configured pinned here (without_slashes base)
        else default_base here
  ]

-- A response: its text is none when it cannot be read, and its JSON the error of reading or parsing
-- it, or what was parsed.
pub record Response {ℓ} (J : Type ℓ) : Type ℓ where
  pub status : ℕ
  pub text : Option String
  pub status_text : String
  pub json : String ⊎ J

-- fetch threw, or gave a response.
pub data Fetched {ℓ} (J : Type ℓ) : Type ℓ where
  threw : String → Fetched J
  answered : Response J → Fetched J

pub data Result {ℓ} (J : Type ℓ) : Type ℓ where
  thrown : String → Result J
  api_error : ℕ → String → Result J
  undefined : Result J
  parsed : J → Result J

-- `res.json()`, whose promise rejects or gives the JSON.
abbrev pub read_json {ℓ} : {J : Type ℓ} → String ⊎ J → Result J
read_json (inl err) = thrown err
read_json (inr json) = parsed json

abbrev pub is_ok : ℕ → Bool
is_ok status = leb 200 status && leb status 299

-- `/api/analytics` and what it is followed by.
abbrev pub starts_with : String → String → Bool
starts_with String.[] s = true
starts_with (String.◌∷◌ c p) String.[] = false
starts_with (String.◌∷◌ c p) (String.◌∷◌ d s) = eqb (code c) (code d) && starts_with p s

-- The diagnostics, what the sink was told, and whether there is a sink.
pub record Session : Type 0 where
  pub entries : List String
  pub reports : List (String × String)
  pub has_sink : Bool

abbrev pub network_failure_status : ℕ
network_failure_status = 0

module _ (json_error : String → Option String) (route_shape : String → String → String)
    (redact_secrets : String → String) (at : String) where
  -- The error text of a body that is JSON with one, else the body, else the status text.
  abbrev pub error_message {ℓ} : {J : Type ℓ} → Response J → String
  error_message res =
      let body = or_default res.text "" in
      let said = or_default (json_error body) "" in
      if truthy body then (if truthy said then said else body) else res.status_text

  abbrev pub report_request_failure : String → String → ℕ → Session → Session
  report_request_failure path method status s =
      if not s.has_sink
      then s
      else if starts_with "/api/analytics" path
      then s
      else record s { reports = s.reports ++ (route_shape path method, number_text status) ∷ [] }

  abbrev pub record_failure : String → String → ℕ → String → Session → Session
  unfolding record_diagnostic
  record_failure path method status message s = record s {
    entries =
        record_diagnostic redact_secrets at "request"
          (joined (number_text status ∷ " " ∷ method ∷ " " ∷ path ∷ ": " ∷ message ∷ [])) s.entries;
  }

  unfoldable pub request {ℓ} :
      {J : Type ℓ} → String → String → Fetched J → Session → Result J × Session
  unfolding record_failure
  request path method (threw err) s =
      (thrown err, report_request_failure path method network_failure_status s)
  request path method (answered res) s =
      if not (is_ok res.status)
      then (let message = error_message res in
          (
            api_error res.status message,
            report_request_failure path method res.status
                (record_failure path method res.status message s),
          ))
      else if eqb res.status 204
      then (undefined, s)
      else (read_json res.json, s)
