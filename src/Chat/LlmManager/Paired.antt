-- ===== src/Chat/LlmManager/Paired.antt =====
-- The dialogue of a turn of llm_manager.rs as the model's interface wants it: the calls of a message
-- are answered right behind it.
pub mod Rounds
pub mod Turns
use xiaozhi_esp32_server_rus.Common.{
  ℕ, zero, suc, ◌+◌, ◌≡◌, refl, sym, ap, ◌∙◌, Bool, true, false, not, ◌&&◌, Bool-cases, inl, inr,
  Option, none, some, List, [], ◌∷◌, ◌++◌, map, all, all-append, ltb, if◌then◌else◌, arith,
}
use xiaozhi_esp32_server_rus.Common.Text.{Text, is_empty, trim, text_eq, text_eq_refl}
use xiaozhi_esp32_server_rus.Common.Assoc.{Assoc}
use xiaozhi_esp32_server_rus.Common.Json.{
  Json, null, boolean, number, string, array, object, JsonItems, none_left, item, JsonFields, end,
  field,
}
use xiaozhi_esp32_server_rus.Llm.Common.{ChatMessage}
use xiaozhi_esp32_server_rus.Chat.LlmManager.{
  ToolCall, LlmCompletion, ToolInfo, McpToolLlmOutcome, system, assistant, tool,
  to_assistant_message, call_value, call_values, Effect, clear_session_abort, complete_with_context,
  response_with_context, execute_mcp_tool_for_llm, enqueue_tts_start, finish_tts_turn,
  handle_text_response, persist_assistant_reply, has_tool_calls, food_delivery_tool_retry_hint,
  no_tools, fallback,
}
use xiaozhi_esp32_server_rus.Chat.LlmManager.Request.{
  max_tool_rounds, Outside, RoundsEnd, failed, stopped, fell_through, answered, execute_all,
  executed, and_then, run_tools, after_completion, tool_rounds, TurnEnd, before, or_fallback,
  stream_answer, after_rounds, last_user_text, handle_llm_request_sync,
}
use xiaozhi_esp32_server_rus.Chat.LlmManager.Stream.{
  LlmResponseChunk, LlmTurnResult, Delta, persist, said, handle_llm_response, response_chunks,
  run_streaming_llm_turn, run_tts_for_text,
}

-- The ids of the calls that a message carries.
abbrev id_of : Json → List Text
id_of (object (field k (string id) fs)) = id ∷ []
id_of (object (field k null fs)) = []
id_of (object (field k (boolean b) fs)) = []
id_of (object (field k (number n) fs)) = []
id_of (object (field k (array js) fs)) = []
id_of (object (field k (object gs) fs)) = []
id_of (object end) = []
id_of null = []
id_of (boolean b) = []
id_of (number n) = []
id_of (string s) = []
id_of (array js) = []

abbrev ids_in : JsonItems → List Text
ids_in none_left = []
ids_in (item j js) = id_of j ++ ids_in js

abbrev ids_from : Assoc Json → List Text
ids_from [] = []
ids_from ((k, array js) ∷ m) = ids_in js
ids_from ((k, null) ∷ m) = []
ids_from ((k, boolean b) ∷ m) = []
ids_from ((k, number n) ∷ m) = []
ids_from ((k, string s) ∷ m) = []
ids_from ((k, object fs) ∷ m) = []

abbrev expects : List Text → Option Text → Bool
expects [] none = true
expects (id ∷ ids) none = false
expects [] (some got) = false
expects (id ∷ ids) (some got) = text_eq id got

abbrev left_after : List Text → ChatMessage → List Text
left_after [] m = ids_from m.extra
left_after (id ∷ ids) m = ids

-- Each call is answered by a message with its id, in the order of the calls and before any other
-- message; `ids` are the calls that still wait.
abbrev pub answers : List Text → List ChatMessage → Bool
answers [] [] = true
answers (id ∷ ids) [] = false
answers ids (m ∷ ms) = expects ids m.tool_call_id && answers (left_after ids m) ms

answers-append :
    (ids : List Text) (xs ys : List ChatMessage)
    → answers ids xs ≡ true
    → answers ids (xs ++ ys) ≡ answers [] ys
answers-append [] [] ys h = refl
answers-append (id ∷ ids) [] ys h = ground arith
answers-append [] (m ∷ xs) ys h = ground (arith, answers-append (left_after [] m) xs ys)
answers-append (id ∷ ids) (m ∷ xs) ys h = ground (arith, answers-append ids xs ys)

ids_in-values :
    (print : Json → Text) (cs : List ToolCall)
    → ids_in (call_values print cs) ≡ map (λ (c : ToolCall). c.id) cs
ids_in-values print [] = refl
ids_in-values print (c ∷ cs) = ap (λ ids. c.id ∷ ids) (ids_in-values print cs)

executed-answers :
    (execute : ToolCall → McpToolLlmOutcome) (cs : List ToolCall)
    → answers (map (λ (c : ToolCall). c.id) cs) (execute_all execute cs).0 ≡ true
unfolding tool
executed-answers execute [] = refl
executed-answers execute (c ∷ cs) = rw (text_eq_refl c.id) (executed-answers execute cs)

-- A completion and the messages of its tools.
pub tools-answers :
    (print : Json → Text) (execute : ToolCall → McpToolLlmOutcome) (c : LlmCompletion)
    → answers [] (to_assistant_message print c ∷ (execute_all execute c.tool_calls).0) ≡ true
tools-answers print execute c = by_calls c.tool_calls c.content
  where
    by_calls :
        (cs : List ToolCall) (text : Text)
        → answers [] (
            to_assistant_message print (record { content = text; tool_calls = cs })
            ∷ (execute_all execute cs).0)
          ≡ true
    by_calls [] text = unfold to_assistant_message assistant in refl
    by_calls (call ∷ cs) text =
        unfold to_assistant_message assistant in
        rw (ids_in-values print cs) (executed-answers execute (call ∷ cs))

pub grown :
    (ds ms : List ChatMessage)
    → answers [] ds ≡ true
    → answers [] ms ≡ true
    → answers [] (ds ++ ms) ≡ true
grown ds ms h k = answers-append [] ds ms h ∙ k

-- What is given to the model is a dialogue of that shape.
abbrev pub asks_well : Effect → Bool
asks_well (complete_with_context d) = answers [] d
asks_well (response_with_context d) = answers [] d
asks_well clear_session_abort = true
asks_well (execute_mcp_tool_for_llm c) = true
asks_well enqueue_tts_start = true
asks_well finish_tts_turn = true
asks_well (handle_text_response t start) = true
asks_well (persist_assistant_reply t) = true

abbrev pub IsPaired : {X : Type 0} → X × List ChatMessage × List Effect → Type 0
IsPaired (x, dialogue, es) = (answers [] dialogue ≡ true) × (all asks_well es ≡ true)

pub append-IsPaired :
    {X : Type 0} (x : X) (d : List ChatMessage) (es es' : List Effect)
    → all asks_well es ≡ true
    → IsPaired (x, d, es')
    → IsPaired (x, d, es ++ es')
append-IsPaired x d es es' h (k, l) = (k, all-append asks_well es es' ∙ ground arith)
