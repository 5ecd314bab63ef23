-- ===== src/Http/Tests.antt =====
-- A base that no one pinned, and a request whose body says what is wrong.
use runway_the_game.Prelude.{
  String, ◌==◌, refl, true, inl, none, some, [], if◌then◌else◌, Option, ◌≡◌,
}
use runway_the_game.Http.{
  Location, pin_trusted_api_origin, resolve_api_base_url, Fetched, answered, thrown, request,
  Session,
}
use runway_the_game.Http.Trusted.{IsSafe, resolve_api_base_url-IsSafe}
use runway_the_game.Http.Told.{Told, run, request-Told}

abbrev origin_of : String → Option String
origin_of s = if s == "not a url" then none else some s

abbrev here : Location
here = record {
  origin = "https://runway.app";
  protocol = "https:";
  hostname = "runway.app";
  port = "";
}

unpinned :
    resolve_api_base_url origin_of (some "https://evil.example/") none none here
    ≡ "https://runway.app"
unfolding resolve_api_base_url
unpinned = refl

pinned :
    resolve_api_base_url origin_of
      (some "https://race.example//")
      none
      (pin_trusted_api_origin origin_of true "https://race.example" none)
      here
    ≡ "https://race.example"
unfolding resolve_api_base_url
pinned = refl

resolve_api_base_url-IsSafe_example :
    IsSafe origin_of none none here
      (resolve_api_base_url origin_of (some "https://evil.example/") none none here)
resolve_api_base_url-IsSafe_example =
    resolve_api_base_url-IsSafe origin_of (some "https://evil.example/") none none here

abbrev json_error : String → Option String
json_error s = if s == "{gone}" then some "That race is gone" else none

abbrev shape : String → String → String
shape path method = "games.get"

abbrev whole : String → String
whole s = s

abbrev gone : Fetched String
gone =
    answered
      (record { status = 410; text = some "{gone}"; status_text = "Gone"; json = inl "no JSON" })

abbrev quiet : Session
quiet = record { entries = []; reports = []; has_sink = true }

request-Told_example :
    Told json_error shape whole "10:00:00" "/api/games/1" "GET" gone quiet
      (run json_error shape whole "10:00:00" "/api/games/1" "GET" gone quiet)
request-Told_example =
    request-Told json_error shape whole "10:00:00" "/api/games/1" "GET" gone quiet

abbrev page_response : Fetched String
page_response = answered (record {
  status = 200;
  text = some "<html>";
  status_text = "OK";
  json = inl "Unexpected token";
})

-- A page that answers 200 throws and is not reported.
page :
    run json_error shape whole "10:00:00" "/api/games/1" "GET" page_response quiet
    ≡ (thrown "Unexpected token", quiet)
unfolding request
page = refl
