-- ===== src/Chat/LlmManager/Asked.antt =====
-- How often a turn of llm_manager.rs asks the model.
use xiaozhi_esp32_server_rus.Common.{
  ℕ, zero, suc, ◌+◌, ◌≤◌, ◌≡◌, refl, Bool, true, false, not, ◌&&◌, Option, none, some, List, [],
  ◌∷◌, ◌++◌, ltb, if◌then◌else◌, arith,
}
use xiaozhi_esp32_server_rus.Common.Text.{Text, is_empty, trim}
use xiaozhi_esp32_server_rus.Llm.Common.{ChatMessage}
use xiaozhi_esp32_server_rus.Chat.LlmManager.{
  ToolCall, LlmCompletion, ToolInfo, system, to_assistant_message, Effect, clear_session_abort,
  complete_with_context, response_with_context, execute_mcp_tool_for_llm, enqueue_tts_start,
  finish_tts_turn, handle_text_response, persist_assistant_reply, has_tool_calls,
  food_delivery_tool_retry_hint, no_tools, fallback,
}
use xiaozhi_esp32_server_rus.Chat.LlmManager.Request.{
  max_tool_rounds, Outside, failed, stopped, fell_through, answered, Rounds, execute_all, executed,
  and_then, run_tools, after_completion, tool_rounds, TurnEnd, before, or_fallback, stream_answer,
  after_rounds, last_user_text, handle_llm_request_sync,
}
use xiaozhi_esp32_server_rus.Chat.LlmManager.Stream.{
  LlmResponseChunk, handle_llm_response, response_chunks, run_streaming_llm_turn, run_tts_for_text,
}

abbrev completion_asks : Effect → ℕ
completion_asks (complete_with_context d) = 1
completion_asks (response_with_context d) = 0
completion_asks clear_session_abort = 0
completion_asks (execute_mcp_tool_for_llm c) = 0
completion_asks enqueue_tts_start = 0
completion_asks finish_tts_turn = 0
completion_asks (handle_text_response t start) = 0
completion_asks (persist_assistant_reply t) = 0

-- The requests for a completion.
abbrev pub asked : List Effect → ℕ
asked [] = 0
asked (e ∷ es) = completion_asks e + asked es

asked-append : (xs ys : List Effect) → asked (xs ++ ys) ≡ asked xs + asked ys
asked-append [] ys = omega arith
asked-append (x ∷ xs) ys = omega (arith, asked-append xs ys)

asked-executed : (cs : List ToolCall) → asked (executed cs) ≡ 0
asked-executed [] = refl
asked-executed (c ∷ cs) = omega (arith, asked-executed cs)

asked-run_tools :
    (o : Outside) (round : ℕ) (rest : List ChatMessage → Rounds) (d : List ChatMessage)
    (c : LlmCompletion) (n : ℕ)
    → ((d' : List ChatMessage) → asked (rest d').2 ≤ n)
    → asked (run_tools o round rest d c).2 ≤ n
unfolding run_tools
asked-run_tools o round rest d c n r =
    let d' =
      d ++ (to_assistant_message o.print c ∷ (execute_all (o.execute round) c.tool_calls).0) in
    let l = r d' in
    let e = asked-executed c.tool_calls in
    elim (execute_all (o.execute round) c.tool_calls).1
      as (λ stop.
        asked (and_then (executed c.tool_calls) (if stop then (stopped, d', []) else rest d')).2
        ≤ n) [
          | true ↦ let a = asked-append (executed c.tool_calls) [] in omega (arith, a, e)
          | false ↦
              let a = asked-append (executed c.tool_calls) (rest d').2 in omega (arith, a, e, l)
        ]

asked-completion :
    (o : Outside) (tools : List ToolInfo) (text : Text) (round : ℕ)
    (rest : List ChatMessage → Rounds) (d : List ChatMessage) (r : Option LlmCompletion) (n : ℕ)
    → ((d' : List ChatMessage) → asked (rest d').2 ≤ n)
    → asked (after_completion o tools text round rest d r).2 ≤ n
unfolding after_completion
asked-completion o tools text round rest d none n r = omega arith
asked-completion o tools text round rest d (some c) n r =
    branches (has_tool_calls c.tool_calls && ltb (round + 1) max_tool_rounds) (is_empty c.content) _
  where
    branches :
        (calls silent hint : Bool)
        → asked
            (if calls
              then run_tools o round rest d c
              else if silent
              then (fell_through, d, [])
              else if hint
              then rest (d ++ system food_delivery_tool_retry_hint ∷ [])
              else (answered c.content, d, [])).2
          ≤ n
    branches true silent hint = asked-run_tools o round rest d c n r
    branches false true hint = omega arith
    branches false false true = r _
    branches false false false = omega arith

asked-rounds :
    (o : Outside) (tools : List ToolInfo) (text : Text) (left round : ℕ) (d : List ChatMessage)
    → asked (tool_rounds o tools text left round d).2 ≤ left
unfolding tool_rounds
asked-rounds o tools text zero round d = omega arith
asked-rounds o tools text (suc left) round d =
    let rest = λ (x : List ChatMessage). tool_rounds o tools text left (round + 1) x in
    let l =
      asked-completion o tools text round rest d (o.complete round d) left
        (asked-rounds o tools text left (round + 1)) in
    ground (arith, l)

asked-said :
    (aborted : ℕ → Bool) (i : ℕ) (cs : List LlmResponseChunk)
    → asked (handle_llm_response aborted i cs).1 ≡ 0
unfolding handle_llm_response
asked-said aborted i [] = refl
asked-said aborted i (c ∷ cs) = ground (arith, asked-said aborted (i + 1) cs)

abbrev chosen : Bool → Bool → TurnEnd → TurnEnd → TurnEnd → TurnEnd
chosen media silent a b c = if not media then a else if silent then b else c

asked-chosen :
    (media silent : Bool) (a b c : TurnEnd)
    → asked a.2 ≡ 0
    → asked b.2 ≡ 0
    → asked c.2 ≡ 0
    → asked (chosen media silent a b c).2 ≡ 0
asked-chosen false silent a b c h k l = h
asked-chosen true true a b c h k l = k
asked-chosen true false a b c h k l = l

asked-streaming : (o : Outside) (d : List ChatMessage) → asked (stream_answer o d).2 ≡ 0
unfolding stream_answer run_streaming_llm_turn
asked-streaming o d =
    let (text, spoken) = handle_llm_response o.chunk_aborted 0 (response_chunks (o.deltas d)) in
    let e = asked-said o.chunk_aborted 0 (response_chunks (o.deltas d)) in
    let a = asked-append spoken (finish_tts_turn ∷ []) in
    let b = asked-append (spoken ++ finish_tts_turn ∷ []) (persist_assistant_reply text ∷ []) in
    asked-chosen o.answer_media (is_empty text) _ _ _ refl (omega (arith, a, e))
      (omega (arith, b, a, e))

asked-tts :
    (media has_session : Bool) (d : List ChatMessage) (text : Text) (ms : List Text)
    → asked (run_tts_for_text media has_session d text ms).2 ≡ 0
unfolding run_tts_for_text
asked-tts true has_session d text ms = refl
asked-tts false has_session d text ms = refl

asked-fallback : (o : Outside) (r : TurnEnd) → asked (or_fallback o r).2 ≡ asked r.2
unfolding or_fallback
asked-fallback o (none, d, es) = refl
asked-fallback o (some r, d, es) =
    let a = asked-append es (run_tts_for_text o.fallback_media o.has_session d fallback []).2 in
    let b = asked-tts o.fallback_media o.has_session d fallback [] in
    elim (is_empty (trim r.full_text))
      as (λ silent.
        asked
          (if silent
            then before es (run_tts_for_text o.fallback_media o.has_session d fallback [])
            else (some r, d, es)).2
        ≡ asked es) [ true ↦ omega (arith, a, b) | false ↦ refl ]

asked-ended : (o : Outside) (r : Rounds) → asked (after_rounds o r).2 ≡ asked r.2
unfolding after_rounds
asked-ended o (failed, d, es) = refl
asked-ended o (stopped, d, es) = refl
asked-ended o (answered text, d, es) = omega (
  arith,
  asked-append es (run_tts_for_text o.answer_media o.has_session d text []).2,
  asked-tts o.answer_media o.has_session d text [],
)
asked-ended o (fell_through, d, es) = omega (
  arith,
  asked-append (es ++ clear_session_abort ∷ []) (or_fallback o (stream_answer o d)).2,
  asked-append es (clear_session_abort ∷ []),
  asked-fallback o (stream_answer o d),
  asked-streaming o d,
)

-- A turn asks the model for at most five completions, and for none when there are no tools, whatever
-- the model answers.
pub turn_asks :
    (o : Outside) (tools : List ToolInfo) (d : List ChatMessage)
    → asked (handle_llm_request_sync o tools d).2 ≤ (if no_tools tools then 0 else 5)
unfolding handle_llm_request_sync
turn_asks o [] d = omega (arith, asked-streaming o d)
turn_asks o (t ∷ ts) d =
    let r = tool_rounds o (t ∷ ts) (last_user_text [] d) max_tool_rounds 0 d in
    omega
      (arith, asked-ended o r, asked-rounds o (t ∷ ts) (last_user_text [] d) max_tool_rounds 0 d)
