-- ===== src/Diagnostics/Tests.antt =====
-- Three faults, one of them without a message.
use runway_the_game.Prelude.{String, some, List, [], ◌∷◌, length, last_of, ◌≤◌, ◌≡◌}
use runway_the_game.Diagnostics.{
  DiagnosticCall, clear_diagnostics, record_diagnostic_at, fault_call, error, max_entries, reason,
  record_calls,
}
use runway_the_game.Diagnostics.Recent.{log_all, record_calls-log_all}

abbrev whole : String → String
whole s = s

abbrev calls : List DiagnosticCall
calls =
    fault_call "10:00:00" (reason "gone")
    ∷ clear_diagnostics
    ∷ fault_call "10:00:01" (error "x is null" (some ("app.js", 12)))
    ∷ record_diagnostic_at "10:00:02" "request" ""
    ∷ []

record_calls-log_all_example :
    (record_calls whole calls [] ≡ last_of max_entries (log_all whole calls []))
    × (length (record_calls whole calls []) ≤ 10)
record_calls-log_all_example = record_calls-log_all whole calls []
