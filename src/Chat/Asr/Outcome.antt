-- ===== src/Chat/Asr/Outcome.antt =====
-- The task of `restart_asr_recognition` that reads the recogniser's results and gives the outcome of
-- the turn.
use xiaozhi_esp32_server_rus.Common.{
  ◌≡◌, Bool, true, false, Option, none, some, List, [], ◌∷◌, if◌then◌else◌, arith,
}
use xiaozhi_esp32_server_rus.Common.Text.{Text, is_empty, trim}
use xiaozhi_esp32_server_rus.Chat.Asr.Pipeline.{AsrTurnOutcome, text, empty, error}

-- crates/xiaozhi-asr/src/traits.rs. `failure` is the field `error`; the confidence, a float, is left out.
pub record StreamingResult : Type 0 where
  pub text : Text
  pub is_final : Bool
  pub failure : Option Text

unfoldable outcome_of : Text → AsrTurnOutcome
outcome_of final_text = if is_empty (trim final_text) then empty else text final_text

-- The results from here on, the end of the channel behind them: the outcome, and whether a first
-- text was marked in the session.
unfoldable pub read_results : Text → Bool → List StreamingResult → AsrTurnOutcome × Bool
unfolding outcome_of
read_results final_text marked [] = (outcome_of final_text, marked)
read_results final_text marked (r ∷ rs) =
    let text' = if is_empty r.text then final_text else r.text in
    let marked' = if is_empty r.text then marked else true in
    let rest = read_results text' marked' rs in
    elim r.failure [
      | some e ↦ (error e, marked)
      | none ↦ if r.is_final then (outcome_of text', marked') else rest
    ]

-- The results that count: up to the first one that is final, and before the first error.
abbrev pub counted : List StreamingResult → List StreamingResult
counted [] = []
counted (r ∷ rs) =
    let rest = counted rs in
    elim r.failure [ some e ↦ [] | none ↦ if r.is_final then r ∷ [] else r ∷ rest ]

abbrev first_error : List StreamingResult → Option Text
first_error [] = none
first_error (r ∷ rs) =
    let rest = first_error rs in
    elim r.failure [ some e ↦ some e | none ↦ if r.is_final then none else rest ]

-- The last text that is not empty, or `t`.
abbrev last_text : Text → List StreamingResult → Text
last_text t [] = t
last_text t (r ∷ rs) = last_text (if is_empty r.text then t else r.text) rs

abbrev has_text : List StreamingResult → Bool
has_text [] = false
has_text (r ∷ rs) = let rest = has_text rs in if is_empty r.text then rest else true

abbrev spec_outcome : Option Text → Text → AsrTurnOutcome
spec_outcome (some e) t = error e
spec_outcome none t = if is_empty (trim t) then empty else text t

read_results_from :
    (t : Text) (m : Bool) (rs : List StreamingResult)
    → read_results t m rs ≡ (
      spec_outcome (first_error rs) (last_text t (counted rs)),
      (if m then true else has_text (counted rs)),
    )
unfolding read_results
read_results_from t m [] = ground arith
read_results_from t m (r ∷ rs) = ground (
  arith,
  read_results_from (if is_empty r.text then t else r.text) (if is_empty r.text then m else true)
      rs,
)

-- The outcome of a turn is the first error before a final result, if there is one; otherwise the
-- last text that is not empty up to the final result or the end, which counts as empty when it is
-- blank. A first text is marked exactly when a result that counts has a text that is not empty.
read_results_lem :
    (rs : List StreamingResult)
    → read_results [] false rs
      ≡ (spec_outcome (first_error rs) (last_text [] (counted rs)), has_text (counted rs))
read_results_lem rs = read_results_from [] false rs
