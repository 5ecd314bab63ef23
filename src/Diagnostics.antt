-- ===== src/Diagnostics.antt =====
-- The ring of recent client faults: frontend/src/core/diagnostics/errorBuffer.ts. The wall-clock text
-- of a fault and redactSecrets, which is three replacements of regular expressions, are arguments.
pub mod Recent
mod Tests
use runway_the_game.Prelude.{
  ℕ, ltb, String, Option, none, some, List, [], ◌∷◌, ◌++◌, length, last_of, truthy, joined,
  number_text, slice_to, if◌then◌else◌,
}

abbrev pub max_entries : ℕ
max_entries = 10

-- An uncaught error, or a rejected promise; the reason of the latter is an Error, or a value as a text.
pub data Fault : Type 0 where
  error : String → Option (String × ℕ) → Fault
  rejection : String → String → Fault
  reason : String → Fault

-- A call of recordDiagnostic at a time, or of clearDiagnostics.
pub data DiagnosticCall : Type 0 where
  record_diagnostic_at : String → String → String → DiagnosticCall
  clear_diagnostics : DiagnosticCall

abbrev place_of : Option (String × ℕ) → String
place_of none = ""
place_of (some (file, line)) =
    if truthy file then joined (" (" ∷ file ∷ ":" ∷ number_text line ∷ ")" ∷ []) else ""

-- What the two listeners record of a fault.
abbrev pub fault_call : String → Fault → DiagnosticCall
fault_call at (error message place) =
    record_diagnostic_at at "error" (joined (message ∷ place_of place ∷ []))
fault_call at (rejection name message) =
    record_diagnostic_at at "unhandled" (joined (name ∷ ": " ∷ message ∷ []))
fault_call at (reason text) = record_diagnostic_at at "unhandled" text

module _ (redact_secrets : String → String) where
  abbrev pub stamp : String → String → String → String
  stamp at kind message =
      slice_to 400 (redact_secrets (joined ("[" ∷ at ∷ "] " ∷ kind ∷ ": " ∷ message ∷ [])))

  unfoldable pub record_diagnostic : String → String → String → List String → List String
  record_diagnostic at kind message entries =
      if truthy message
      then (let pushed = entries ++ stamp at kind message ∷ [] in
          if ltb max_entries (length pushed) then last_of max_entries pushed else pushed)
      else entries

  unfoldable pub record_call : DiagnosticCall → List String → List String
  unfolding record_diagnostic
  record_call (record_diagnostic_at at kind message) entries =
      record_diagnostic at kind message entries
  record_call clear_diagnostics entries = []

  unfoldable pub record_calls : List DiagnosticCall → List String → List String
  unfolding record_call
  record_calls [] entries = entries
  record_calls (c ∷ cs) entries = record_calls cs (record_call c entries)
