-- ===== src/Chat/LlmManager/Tests.antt =====
-- Runs of llm_manager.rs.
use xiaozhi_esp32_server_rus.Common.{
  ℕ, ◌≡◌, refl, Bool, true, false, none, some, List, [], ◌∷◌, ◌++◌, map, ◌==◌, ◌≤◌, if◌then◌else◌,
}
use xiaozhi_esp32_server_rus.Common.Text.{
  codes, trim_end_by, trim_start_by, is_whitespace, contains, starts_with,
}
use xiaozhi_esp32_server_rus.Common.Json.{null}
use xiaozhi_esp32_server_rus.Llm.Common.{MessageRole, ChatMessage}
use xiaozhi_esp32_server_rus.Chat.LlmManager.{
  ToolCall, LlmCompletion, ToolInfo, tool, to_assistant_message, clear_session_abort,
  complete_with_context, execute_mcp_tool_for_llm, response_with_context, enqueue_tts_start,
  finish_tts_turn, fallback, user_text_prefers_food_delivery_tools, build_mcp_system_hint,
  tool_matches_food_delivery,
}
use xiaozhi_esp32_server_rus.Chat.LlmManager.Request.{
  max_tool_rounds, Outside, run_tools, after_completion, tool_rounds, handle_llm_request_sync,
}
use xiaozhi_esp32_server_rus.Chat.LlmManager.Stream.{handle_llm_response, response_chunks}
use xiaozhi_esp32_server_rus.Chat.Sentence.{push_delta, flush}
use xiaozhi_esp32_server_rus.Chat.Sentence
use xiaozhi_esp32_server_rus.Chat.Sentence.Streaming.{joined}
use xiaozhi_esp32_server_rus.Chat.LlmManager.Stream.{content}
use xiaozhi_esp32_server_rus.Chat.LlmManager.Joined.{never, or_none, response-joined}
use xiaozhi_esp32_server_rus.Chat.LlmManager.Paired.{IsPaired}
use xiaozhi_esp32_server_rus.Chat.LlmManager.Paired.Turns.{turn-IsPaired}
use xiaozhi_esp32_server_rus.Chat.LlmManager.Asked.{asked, turn_asks}
use xiaozhi_esp32_server_rus.Chat.LlmManager.Aborted.{
  reply, streamed, is_blank, kept_reply, said_instead, aborted_goes_on,
}
use xiaozhi_esp32_server_rus.Chat.LlmManager.Replying.{Says, turn_replies}

abbrev call : ToolCall
call = record { id = codes "c1"; name = codes "light"; arguments = null }

abbrev with_call : LlmCompletion
with_call = record { content = []; tool_calls = call ∷ [] }

-- The model calls a tool each time; the abort is the argument.
abbrev outside : (ℕ → Bool) → Outside
outside aborted = record {
  print = λ j. codes "{}";
  lower = λ t. t;
  aborted = aborted;
  has_media = λ k. true;
  complete = λ k d. some with_call;
  execute = λ k c. record { text = codes "on"; stop_llm = false };
  has_session = true;
  answer_media = true;
  fallback_media = true;
  deltas = λ d. some (content (codes "done") ∷ content (codes ".") ∷ []);
  chunk_aborted = λ k. false;
}

abbrev light : ToolInfo
light = record { name = codes "light"; description = [] }

abbrev asked_on : List ChatMessage
asked_on =
    record {
      role = MessageRole.user;
      content = codes "on";
      name = none;
      tool_call_id = none;
      extra = [];
    }
    ∷ []

response-joined_example :
    (response_chunks (some (map content (codes "a" ∷ codes ".b" ∷ [])))
      ≡ response_chunks (some (content (joined (codes "a" ∷ codes ".b" ∷ [])) ∷ [])))
    × ((handle_llm_response never 0
          (response_chunks (some (map content (codes "a" ∷ codes ".b" ∷ []))))).0
        ≡ joined (push_delta Sentence.new (codes "a.b")).1
          ++ or_none (flush (push_delta Sentence.new (codes "a.b")).0).1)
response-joined_example = response-joined (codes "a" ∷ codes ".b" ∷ [])

turn-IsPaired_example :
    IsPaired (handle_llm_request_sync (outside (λ k. false)) (light ∷ []) asked_on)
turn-IsPaired_example = turn-IsPaired (outside (λ k. false)) (light ∷ []) asked_on refl

turn_asks_example :
    asked (handle_llm_request_sync (outside (λ k. false)) (light ∷ []) asked_on).2 ≤ 5
turn_asks_example = turn_asks (outside (λ k. false)) (light ∷ []) asked_on

-- The bound is reached.
five_asked :
    asked (tool_rounds (outside (λ k. false)) (light ∷ []) [] max_tool_rounds 0 asked_on).2 ≡ 5
unfolding tool_rounds after_completion run_tools
five_asked = refl

abbrev d_on : List ChatMessage
d_on =
    asked_on
    ++ (to_assistant_message (λ j. codes "{}") with_call ∷ tool (codes "on") (codes "c1") ∷ [])

aborted_goes_on_example :
    let o = outside (λ k. k == 1) in
    let (text, spoken) = streamed o d_on in
    let turn = handle_llm_request_sync o (light ∷ []) asked_on in
    (reply turn.0 ≡ some (if is_blank text then fallback else text))
    × (turn.2
        ≡ (clear_session_abort
            ∷ complete_with_context asked_on
            ∷ execute_mcp_tool_for_llm call
            ∷ clear_session_abort
            ∷ [])
          ++ ((response_with_context d_on
                ∷ enqueue_tts_start
                ∷ ((spoken ++ finish_tts_turn ∷ []) ++ kept_reply text))
              ++ said_instead text))
aborted_goes_on_example =
    aborted_goes_on (outside (λ k. k == 1)) light [] asked_on with_call refl refl refl refl refl
      refl refl refl

turn_replies_example : Says (handle_llm_request_sync (outside (λ k. false)) (light ∷ []) asked_on)
turn_replies_example =
    turn_replies (outside (λ k. false)) light [] asked_on (λ k. refl) refl refl (λ k d. refl)
      (λ k c. refl)

prefers : user_text_prefers_food_delivery_tools (λ t. t) (codes "帮我点外卖") (light ∷ []) ≡ false
unfolding user_text_prefers_food_delivery_tools trim_end_by trim_start_by is_whitespace contains
    starts_with tool_matches_food_delivery
prefers = refl

hinted : build_mcp_system_hint (λ t. t) [] ≡ none
unfolding build_mcp_system_hint
hinted = refl
