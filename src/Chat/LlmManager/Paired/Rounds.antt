-- ===== src/Chat/LlmManager/Paired/Rounds.antt =====
-- The rounds of a turn of llm_manager.rs keep the calls of the dialogue answered.
use xiaozhi_esp32_server_rus.Common.{
  ℕ, zero, suc, ◌+◌, ◌≡◌, refl, Bool, true, false, not, ◌&&◌, Option, none, some, List, [], ◌∷◌,
  ◌++◌, all, ltb, if◌then◌else◌,
}
use xiaozhi_esp32_server_rus.Common.Text.{Text, is_empty}
use xiaozhi_esp32_server_rus.Llm.Common.{ChatMessage}
use xiaozhi_esp32_server_rus.Chat.LlmManager.{
  ToolCall, LlmCompletion, ToolInfo, system, to_assistant_message, complete_with_context,
  has_tool_calls, food_delivery_tool_retry_hint,
}
use xiaozhi_esp32_server_rus.Chat.LlmManager.Request.{
  max_tool_rounds, Outside, failed, stopped, fell_through, answered, Rounds, execute_all, executed,
  and_then, run_tools, after_completion, tool_rounds,
}
use xiaozhi_esp32_server_rus.Chat.LlmManager.Paired.{
  answers, tools-answers, grown, asks_well, IsPaired, append-IsPaired,
}

executed-well : (cs : List ToolCall) → all asks_well (executed cs) ≡ true
executed-well [] = refl
executed-well (c ∷ cs) = executed-well cs

run_tools-IsPaired :
    (o : Outside) (round : ℕ) (rest : List ChatMessage → Rounds) (d : List ChatMessage)
    (c : LlmCompletion)
    → ((d' : List ChatMessage) → answers [] d' ≡ true → IsPaired (rest d'))
    → answers [] d ≡ true
    → IsPaired (run_tools o round rest d c)
unfolding run_tools
run_tools-IsPaired o round rest d c r h =
    let d' =
      d ++ (to_assistant_message o.print c ∷ (execute_all (o.execute round) c.tool_calls).0) in
    let k = grown d _ h (tools-answers o.print (o.execute round) c) in
    elim (execute_all (o.execute round) c.tool_calls).1
      as (λ stop.
        IsPaired (and_then (executed c.tool_calls) (if stop then (stopped, d', []) else rest d'))) [
          | true ↦
              append-IsPaired stopped d' (executed c.tool_calls) [] (executed-well c.tool_calls)
                (k, refl)
          | false ↦
              append-IsPaired (rest d').0 (rest d').1 (executed c.tool_calls) (rest d').2
                (executed-well c.tool_calls) (r d' k)
        ]

hint_answers : answers [] (system food_delivery_tool_retry_hint ∷ []) ≡ true
unfolding system
hint_answers = refl

completion-IsPaired :
    (o : Outside) (tools : List ToolInfo) (text : Text) (round : ℕ)
    (rest : List ChatMessage → Rounds) (d : List ChatMessage) (r : Option LlmCompletion)
    → ((d' : List ChatMessage) → answers [] d' ≡ true → IsPaired (rest d'))
    → answers [] d ≡ true
    → IsPaired (after_completion o tools text round rest d r)
unfolding after_completion
completion-IsPaired o tools text round rest d none r h = (h, refl)
completion-IsPaired o tools text round rest d (some c) r h =
    branches (has_tool_calls c.tool_calls && ltb (round + 1) max_tool_rounds) (is_empty c.content) _
  where
    branches :
        (calls silent hint : Bool)
        → IsPaired (
            if calls
            then run_tools o round rest d c
            else if silent
            then (fell_through, d, [])
            else if hint
            then rest (d ++ system food_delivery_tool_retry_hint ∷ [])
            else (answered c.content, d, []))
    branches true silent hint = run_tools-IsPaired o round rest d c r h
    branches false true hint = (h, refl)
    branches false false true =
        r _ (grown d (system food_delivery_tool_retry_hint ∷ []) h hint_answers)
    branches false false false = (h, refl)

pub rounds-IsPaired :
    (o : Outside) (tools : List ToolInfo) (text : Text) (left round : ℕ) (d : List ChatMessage)
    → answers [] d ≡ true
    → IsPaired (tool_rounds o tools text left round d)
unfolding tool_rounds
rounds-IsPaired o tools text zero round d h = (h, refl)
rounds-IsPaired o tools text (suc left) round d h =
    let rest = λ (x : List ChatMessage). tool_rounds o tools text left (round + 1) x in
    let next = after_completion o tools text round rest d (o.complete round d) in
    let k =
      completion-IsPaired o tools text round rest d (o.complete round d)
        (rounds-IsPaired o tools text left (round + 1)) h in
    elim (o.aborted round)
      as (λ b. IsPaired (
        if b
        then (fell_through, d, [])
        else if not (o.has_media round)
        then (failed, d, [])
        else and_then (complete_with_context d ∷ []) next)) [
          | true ↦ (h, refl)
          | false ↦
              elim (o.has_media round)
                as (λ b. IsPaired (
                  if not b
                  then (failed, d, [])
                  else and_then (complete_with_context d ∷ []) next)) [
                    | true ↦
                        append-IsPaired next.0 next.1 (complete_with_context d ∷ []) next.2
                          (rw h refl) k
                    | false ↦ (h, refl)
                  ]
        ]
