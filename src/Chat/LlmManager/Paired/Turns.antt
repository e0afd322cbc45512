-- ===== src/Chat/LlmManager/Paired/Turns.antt =====
-- A turn of llm_manager.rs as a whole keeps the calls of the dialogue answered.
use xiaozhi_esp32_server_rus.Common.{
  ℕ, ◌+◌, ◌≡◌, refl, ◌∙◌, Bool, true, false, not, Option, none, some, List, [], ◌∷◌, ◌++◌, all,
  all-append, if◌then◌else◌, arith,
}
use xiaozhi_esp32_server_rus.Common.Text.{Text, is_empty, trim}
use xiaozhi_esp32_server_rus.Llm.Common.{ChatMessage}
use xiaozhi_esp32_server_rus.Chat.LlmManager.{
  ToolInfo, assistant, Effect, clear_session_abort, response_with_context, enqueue_tts_start,
  finish_tts_turn, persist_assistant_reply, no_tools, fallback,
}
use xiaozhi_esp32_server_rus.Chat.LlmManager.Request.{
  max_tool_rounds, Outside, failed, stopped, fell_through, answered, Rounds, tool_rounds, TurnEnd,
  before, or_fallback, stream_answer, after_rounds, last_user_text, handle_llm_request_sync,
}
use xiaozhi_esp32_server_rus.Chat.LlmManager.Stream.{
  LlmResponseChunk, LlmTurnResult, persist, handle_llm_response, response_chunks,
  run_streaming_llm_turn, run_tts_for_text,
}
use xiaozhi_esp32_server_rus.Chat.LlmManager.Paired.{
  answers, grown, asks_well, IsPaired, append-IsPaired,
}
use xiaozhi_esp32_server_rus.Chat.LlmManager.Paired.Rounds.{rounds-IsPaired}

-- The parts of the end.
said_well :
    (aborted : ℕ → Bool) (i : ℕ) (cs : List LlmResponseChunk)
    → all asks_well (handle_llm_response aborted i cs).1 ≡ true
unfolding handle_llm_response
said_well aborted i [] = refl
said_well aborted i (c ∷ cs) = ground (arith, said_well aborted (i + 1) cs)

replied :
    (d : List ChatMessage) (has_session : Bool) (text : Text)
    → answers [] d ≡ true
    → answers [] (persist has_session d text) ≡ true
unfolding persist assistant
replied d true text h = grown d (assistant text ∷ []) h refl
replied d false text h = h

streamed_by :
    (media silent has_session : Bool) (d : List ChatMessage) (text : Text) (es : List Effect)
    → answers [] d ≡ true
    → all asks_well es ≡ true
    → IsPaired {X = Option LlmTurnResult} (
        if not media
        then (none, d, [])
        else if silent
        then (some (record { full_text = text; messages = [] }), d, es)
        else (
          some (record { full_text = text; messages = [] ++ text ∷ [] }),
          persist has_session d text,
          es ++ persist_assistant_reply text ∷ [],
        ))
streamed_by false silent has_session d text es h k = (h, refl)
streamed_by true true has_session d text es h k = (h, k)
streamed_by true false has_session d text es h k =
    append-IsPaired {X = Option LlmTurnResult}
      (some (record { full_text = text; messages = [] ++ text ∷ [] })) (persist has_session d text)
      es (persist_assistant_reply text ∷ []) k (replied d has_session text h, refl)

streaming-IsPaired :
    (o : Outside) (d : List ChatMessage) → answers [] d ≡ true → IsPaired (stream_answer o d)
unfolding stream_answer run_streaming_llm_turn
streaming-IsPaired o d h =
    let (text, spoken) = handle_llm_response o.chunk_aborted 0 (response_chunks (o.deltas d)) in
    let es = response_with_context d ∷ enqueue_tts_start ∷ (spoken ++ finish_tts_turn ∷ []) in
    let well : all asks_well es ≡ true = rw h (
      all-append asks_well spoken (finish_tts_turn ∷ [])
      ∙ rw (said_well o.chunk_aborted 0 (response_chunks (o.deltas d))) refl) in
    streamed_by o.answer_media (is_empty text) o.has_session d text es h well

tts-IsPaired :
    (media has_session : Bool) (d : List ChatMessage) (text : Text) (ms : List Text)
    → answers [] d ≡ true
    → IsPaired (run_tts_for_text media has_session d text ms)
unfolding run_tts_for_text
tts-IsPaired true has_session d text ms h = (replied d has_session text h, refl)
tts-IsPaired false has_session d text ms h = (h, refl)

before-IsPaired :
    (es : List Effect) (r : TurnEnd) → all asks_well es ≡ true → IsPaired r → IsPaired (before es r)
before-IsPaired es r h k = append-IsPaired r.0 r.1 es r.2 h k

fallback-IsPaired : (o : Outside) (r : TurnEnd) → IsPaired r → IsPaired (or_fallback o r)
unfolding or_fallback
fallback-IsPaired o (none, d, es) h = h
fallback-IsPaired o (some r, d, es) h =
    elim (is_empty (trim r.full_text))
      as (λ b. IsPaired (
        if b
        then before es (run_tts_for_text o.fallback_media o.has_session d fallback [])
        else (some r, d, es))) [
          | true ↦
              before-IsPaired es (run_tts_for_text o.fallback_media o.has_session d fallback []) h.1
                (tts-IsPaired o.fallback_media o.has_session d fallback [] h.0)
          | false ↦ h
        ]

ended-IsPaired : (o : Outside) (r : Rounds) → IsPaired r → IsPaired (after_rounds o r)
unfolding after_rounds
ended-IsPaired o (failed, d, es) h = h
ended-IsPaired o (stopped, d, es) h = h
ended-IsPaired o (answered text, d, es) h =
    before-IsPaired es (run_tts_for_text o.answer_media o.has_session d text []) h.1
      (tts-IsPaired o.answer_media o.has_session d text [] h.0)
ended-IsPaired o (fell_through, d, es) h =
    before-IsPaired (es ++ clear_session_abort ∷ []) (or_fallback o (stream_answer o d))
      (all-append asks_well es (clear_session_abort ∷ []) ∙ rw h.1 refl)
      (fallback-IsPaired o (stream_answer o d) (streaming-IsPaired o d h.0))

-- In a dialogue in which each call of a tool is answered right behind it, in order and before any other
-- message, a turn keeps it so, whatever the model, the tools and the other tasks do; and what it gives
-- to the model has that shape each time.
pub turn-IsPaired :
    (o : Outside) (tools : List ToolInfo) (d : List ChatMessage)
    → answers [] d ≡ true
    → IsPaired (handle_llm_request_sync o tools d)
unfolding handle_llm_request_sync
turn-IsPaired o tools d h =
    elim (no_tools tools)
      as (λ b. IsPaired (
        before (clear_session_abort ∷ []) (
          if b
          then stream_answer o d
          else after_rounds o (tool_rounds o tools (last_user_text [] d) max_tool_rounds 0 d)))) [
            | true ↦ streaming-IsPaired o d h
            | false ↦
                ended-IsPaired o (tool_rounds o tools (last_user_text [] d) max_tool_rounds 0 d)
                  (rounds-IsPaired o tools (last_user_text [] d) max_tool_rounds 0 d h)
          ]
