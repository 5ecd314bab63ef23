-- ===== src/Diagnostics/Recent.antt =====
-- The ring of frontend/src/core/diagnostics/errorBuffer.ts against a log that keeps every fault.
use runway_the_game.Prelude.{
  ℕ, ◌-◌, ◌≤◌, ltb, String, ◌≡◌, refl, sym, ap, ◌∙◌, inl, inr, List, [], ◌∷◌, ◌++◌, length,
  length-append, length-drop, drop, drop-append, drop-drop, last_of, truthy, arith, Bool-cases,
  if◌then◌else◌,
}
use mathlib.Core.Path.{subst}
use runway_the_game.Diagnostics.{
  DiagnosticCall, record_diagnostic_at, clear_diagnostics, max_entries, stamp, record_call,
  record_calls,
}

-- One more entry, and no more than n.
abbrev pushed {ℓ} : {A : Type ℓ} → ℕ → A → List A → List A
pushed n x xs =
    let longer = xs ++ x ∷ [] in if ltb n (length longer) then last_of n longer else longer

last_of-pushed {ℓ} :
    {A : Type ℓ} (n : ℕ) (x : A) (xs : List A)
    → 1 ≤ n
    → pushed n x (last_of n xs) ≡ last_of n (xs ++ x ∷ [])
last_of-pushed n x xs h =
    let k = length xs - n in
    let kept : drop k xs ++ x ∷ [] ≡ drop k (xs ++ x ∷ []) =
      sym (drop-append k xs (x ∷ []) (omega arith)) in
    let long = length-append (drop k xs) (x ∷ []) in
    let short = length-drop k xs in
    let whole = length-append xs (x ∷ []) in
    let j = length (drop k xs ++ x ∷ []) - n in
    elim (Bool-cases (ltb n (length (drop k xs ++ x ∷ [])))) [
      | inl e ↦ rw e (
          ap (drop j) kept
          ∙ drop-drop j k (xs ++ x ∷ [])
          ∙ ap (λ m. drop m (xs ++ x ∷ [])) (ground (arith, e, long, short, whole, h)))
      | inr e ↦
          rw e (kept ∙ ap (λ m. drop m (xs ++ x ∷ [])) (ground (arith, e, long, short, whole, h)))
    ]

module _ (redact_secrets : String → String) where
  -- What a log without a bound does on a call.
  abbrev pub log_call : DiagnosticCall → List String → List String
  log_call (record_diagnostic_at at kind message) log =
      if truthy message then log ++ stamp redact_secrets at kind message ∷ [] else log
  log_call clear_diagnostics log = []

  abbrev pub log_all : List DiagnosticCall → List String → List String
  log_all [] log = log
  log_all (c ∷ cs) log = log_all cs (log_call c log)

  record_call-last_of :
      (c : DiagnosticCall) (log : List String)
      → record_call redact_secrets c (last_of max_entries log)
        ≡ last_of max_entries (log_call c log)
  unfolding record_call
  record_call-last_of (record_diagnostic_at at kind message) log =
      elim (Bool-cases (truthy message)) [
        | inl e ↦
            rw e
              (last_of-pushed max_entries (stamp redact_secrets at kind message) log (omega arith))
        | inr e ↦ rw e refl
      ]
  record_call-last_of clear_diagnostics log = refl

  -- After any calls the ring holds the last ten faults, in order, of a log that keeps every fault
  -- since the last clear, and so never more than ten.
  pub record_calls-log_all :
      (cs : List DiagnosticCall) (log : List String)
      → (record_calls redact_secrets cs (last_of max_entries log)
          ≡ last_of max_entries (log_all cs log))
        × (length (record_calls redact_secrets cs (last_of max_entries log)) ≤ 10)
  unfolding record_calls
  record_calls-log_all [] log = (refl, omega (arith, length-drop (length log - 10) log))
  record_calls-log_all (c ∷ cs) log =
      let first = ap (record_calls redact_secrets cs) (record_call-last_of c log) in
      let rest = record_calls-log_all cs (log_call c log) in
      (first ∙ rest.0, subst (λ l. length l ≤ 10) (sym first) rest.1)
