-- ===== src/Chat/LlmManager/Request.antt =====
-- `handle_llm_request_sync` of llm_manager.rs: the rounds in which the model may call tools, and what
-- is said in the end.
use xiaozhi_esp32_server_rus.Common.{
  ℕ, zero, suc, ◌+◌, Bool, true, false, not, ◌&&◌, ◌||◌, Option, none, some, List, [], ◌∷◌, ◌++◌,
  ltb, ◌==◌, if◌then◌else◌,
}
use xiaozhi_esp32_server_rus.Common.Text.{Text, is_empty, trim}
use xiaozhi_esp32_server_rus.Common.Json.{Json}
use xiaozhi_esp32_server_rus.Llm.Common.{MessageRole, ChatMessage}
use xiaozhi_esp32_server_rus.Chat.LlmManager.{
  ToolCall, LlmCompletion, ToolInfo, McpToolLlmOutcome, system, tool, has_tool_calls, no_tools,
  to_assistant_message, user_text_prefers_food_delivery_tools, food_delivery_tool_retry_hint,
  fallback, Effect, clear_session_abort, complete_with_context, execute_mcp_tool_for_llm,
}
use xiaozhi_esp32_server_rus.Chat.LlmManager.Stream.{
  Delta, LlmTurnResult, run_streaming_llm_turn, run_tts_for_text,
}

abbrev pub max_tool_rounds : ℕ
max_tool_rounds = 5

-- What is outside of a turn: by the round, whether the session is aborted and has its media, what the
-- model completes and what a tool gives; and the same for the answer at the end.
pub record Outside : Type 0 where
  pub print : Json → Text
  pub lower : Text → Text
  pub aborted : ℕ → Bool
  pub has_media : ℕ → Bool
  pub complete : ℕ → List ChatMessage → Option LlmCompletion
  pub execute : ℕ → ToolCall → McpToolLlmOutcome
  pub has_session : Bool
  pub answer_media : Bool
  pub fallback_media : Bool
  pub deltas : List ChatMessage → Option (List Delta)
  pub chunk_aborted : ℕ → Bool

pub data RoundsEnd : Type 0 where
  failed stopped fell_through : RoundsEnd
  answered : Text → RoundsEnd

abbrev pub Rounds : Type 0
Rounds = RoundsEnd × List ChatMessage × List Effect

abbrev is_user : MessageRole → Bool
is_user MessageRole.user = true
is_user MessageRole.system = false
is_user MessageRole.assistant = false
is_user MessageRole.tool = false

-- The content of the last message of the user, or the text given.
abbrev pub last_user_text : Text → List ChatMessage → Text
last_user_text t [] = t
last_user_text t (m ∷ ms) = last_user_text (if is_user m.role then m.content else t) ms

-- The messages of the tools, one for each call, and whether one of them stops the model.
abbrev pub execute_all : (ToolCall → McpToolLlmOutcome) → List ToolCall → List ChatMessage × Bool
execute_all execute [] = ([], false)
execute_all execute (c ∷ cs) =
    let (ms, stop) = execute_all execute cs in
    (tool (execute c).text c.id ∷ ms, (execute c).stop_llm || stop)

abbrev pub executed : List ToolCall → List Effect
executed [] = []
executed (c ∷ cs) = execute_mcp_tool_for_llm c ∷ executed cs

abbrev pub and_then : List Effect → Rounds → Rounds
and_then es (ending, dialogue, es') = (ending, dialogue, es ++ es')

-- A completion with calls that are run: `rest` is the later rounds.
unfoldable pub run_tools :
    Outside → ℕ → (List ChatMessage → Rounds) → List ChatMessage → LlmCompletion → Rounds
run_tools o round rest dialogue c =
    let (ms, stop) = execute_all (o.execute round) c.tool_calls in
    let dialogue' = dialogue ++ (to_assistant_message o.print c ∷ ms) in
    and_then (executed c.tool_calls) (if stop then (stopped, dialogue', []) else rest dialogue')

unfoldable pub after_completion :
    Outside
    → List ToolInfo
    → Text
    → ℕ
    → (List ChatMessage → Rounds)
    → List ChatMessage
    → Option LlmCompletion
    → Rounds
after_completion o tools user_text round rest dialogue none = (failed, dialogue, [])
after_completion o tools user_text round rest dialogue (some c) =
    if has_tool_calls c.tool_calls && ltb (round + 1) max_tool_rounds
    then run_tools o round rest dialogue c
    else if is_empty c.content
    then (fell_through, dialogue, [])
    else if (round == 0)
        && (not (has_tool_calls c.tool_calls)
            && user_text_prefers_food_delivery_tools o.lower user_text tools)
    then rest (dialogue ++ system food_delivery_tool_retry_hint ∷ [])
    else (answered c.content, dialogue, [])

-- The loop from a round on, with the count of those left.
unfoldable pub tool_rounds : Outside → List ToolInfo → Text → ℕ → ℕ → List ChatMessage → Rounds
tool_rounds o tools user_text zero round dialogue = (fell_through, dialogue, [])
tool_rounds o tools user_text (suc left) round dialogue =
    if o.aborted round
    then (fell_through, dialogue, [])
    else if not (o.has_media round)
    then (failed, dialogue, [])
    else and_then (complete_with_context dialogue ∷ []) (
        after_completion o tools user_text round
          (λ d. tool_rounds o tools user_text left (round + 1) d) dialogue
          (o.complete round dialogue))

abbrev pub TurnEnd : Type 0
TurnEnd = Option LlmTurnResult × List ChatMessage × List Effect

abbrev pub before : List Effect → TurnEnd → TurnEnd
before es (r, dialogue, es') = (r, dialogue, es ++ es')

-- When the streamed answer is blank, the fixed text is spoken; the messages were taken by the former.
unfoldable pub or_fallback : Outside → TurnEnd → TurnEnd
or_fallback o (none, dialogue, es) = (none, dialogue, es)
or_fallback o (some r, dialogue, es) =
    if is_empty (trim r.full_text)
    then before es (run_tts_for_text o.fallback_media o.has_session dialogue fallback [])
    else (some r, dialogue, es)

unfoldable pub stream_answer : Outside → List ChatMessage → TurnEnd
stream_answer o dialogue =
    run_streaming_llm_turn o.answer_media o.has_session (o.deltas dialogue) o.chunk_aborted dialogue
      []

unfoldable pub after_rounds : Outside → Rounds → TurnEnd
after_rounds o (failed, dialogue, es) = (none, dialogue, es)
after_rounds o (stopped, dialogue, es) =
    (some (record { full_text = []; messages = [] }), dialogue, es)
after_rounds o (answered text, dialogue, es) =
    before es (run_tts_for_text o.answer_media o.has_session dialogue text [])
after_rounds o (fell_through, dialogue, es) =
    before (es ++ clear_session_abort ∷ []) (or_fallback o (stream_answer o dialogue))

unfoldable pub handle_llm_request_sync : Outside → List ToolInfo → List ChatMessage → TurnEnd
handle_llm_request_sync o tools dialogue = before (clear_session_abort ∷ []) (
    if no_tools tools
    then stream_answer o dialogue
    else after_rounds o
        (tool_rounds o tools (last_user_text [] dialogue) max_tool_rounds 0 dialogue))
