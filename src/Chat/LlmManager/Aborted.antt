-- ===== src/Chat/LlmManager/Aborted.antt =====
-- An abort while the tools of a turn run, in llm_manager.rs.
use xiaozhi_esp32_server_rus.Common.{
  ◌≡◌, refl, sym, ap, ◌∙◌, Bool-cases, inl, inr, Bool, true, false, not, ◌&&◌, Option, none, some,
  List, [], ◌∷◌, ◌++◌, if_true, if_false, append-nil, if◌then◌else◌, arith,
}
use xiaozhi_esp32_server_rus.Common.Text.{Text, is_empty, trim}
use xiaozhi_esp32_server_rus.Llm.Common.{ChatMessage}
use xiaozhi_esp32_server_rus.Chat.LlmManager.{
  LlmCompletion, ToolInfo, to_assistant_message, Effect, clear_session_abort, complete_with_context,
  has_tool_calls, response_with_context, enqueue_tts_start, finish_tts_turn, handle_text_response,
  persist_assistant_reply, fallback,
}
use xiaozhi_esp32_server_rus.Chat.LlmManager.Stream.{
  LlmTurnResult, response_chunks, handle_llm_response, run_streaming_llm_turn, run_tts_for_text,
}
use xiaozhi_esp32_server_rus.Chat.LlmManager.Request.{
  max_tool_rounds, Outside, fell_through, execute_all, executed, and_then, run_tools,
  after_completion, tool_rounds, TurnEnd, or_fallback, stream_answer, after_rounds, last_user_text,
  handle_llm_request_sync,
}

abbrev answered_by : Outside → List ChatMessage → LlmCompletion → List ChatMessage
answered_by o d c =
    d ++ (to_assistant_message o.print c ∷ (execute_all (o.execute 0) c.tool_calls).0)

next-aborted :
    (o : Outside) (tools : List ToolInfo) (text : Text) (d : List ChatMessage)
    → o.aborted 1 ≡ true
    → tool_rounds o tools text 4 1 d ≡ (fell_through, d, [])
unfolding tool_rounds
next-aborted o tools text d b = if_true _ _ b

tools-aborted :
    (o : Outside) (tools : List ToolInfo) (text : Text) (d : List ChatMessage) (c : LlmCompletion)
    → (execute_all (o.execute 0) c.tool_calls).1 ≡ false
    → o.aborted 1 ≡ true
    → run_tools o 0 (λ x. tool_rounds o tools text 4 1 x) d c
      ≡ (fell_through, answered_by o d c, executed c.tool_calls)
unfolding run_tools
tools-aborted o tools text d c s b =
    ap (and_then (executed c.tool_calls))
      (if_false _ _ s ∙ next-aborted o tools text (answered_by o d c) b)
    ∙ ap (λ (es : List Effect). (fell_through, answered_by o d c, es))
        (append-nil (executed c.tool_calls))

completion-aborted :
    (o : Outside) (tools : List ToolInfo) (text : Text) (d : List ChatMessage) (c : LlmCompletion)
    → has_tool_calls c.tool_calls ≡ true
    → (execute_all (o.execute 0) c.tool_calls).1 ≡ false
    → o.aborted 1 ≡ true
    → after_completion o tools text 0 (λ x. tool_rounds o tools text 4 1 x) d (some c)
      ≡ (fell_through, answered_by o d c, executed c.tool_calls)
unfolding after_completion
completion-aborted o tools text d c k s b =
    if_true _ _ (ap (λ x. x && true) k) ∙ tools-aborted o tools text d c s b

rounds-aborted :
    (o : Outside) (tools : List ToolInfo) (text : Text) (d : List ChatMessage) (c : LlmCompletion)
    → o.aborted 0 ≡ false
    → o.has_media 0 ≡ true
    → o.complete 0 d ≡ some c
    → has_tool_calls c.tool_calls ≡ true
    → (execute_all (o.execute 0) c.tool_calls).1 ≡ false
    → o.aborted 1 ≡ true
    → tool_rounds o tools text max_tool_rounds 0 d
      ≡ (fell_through, answered_by o d c, complete_with_context d ∷ executed c.tool_calls)
unfolding tool_rounds
rounds-aborted o tools text d c a m e k s b =
    if_false _ _ a
    ∙ if_false _ _ (ap not m)
    ∙ ap
        (λ r.
          and_then (complete_with_context d ∷ [])
            (after_completion o tools text 0 (λ x. tool_rounds o tools text 4 1 x) d r))
        e
    ∙ ap (and_then (complete_with_context d ∷ [])) (completion-aborted o tools text d c k s b)

abbrev pub reply : Option LlmTurnResult → Option Text
reply none = none
reply (some r) = some r.full_text

-- The text of a streamed answer, and how its chunks are spoken.
abbrev pub streamed : Outside → List ChatMessage → Text × List Effect
streamed o d = handle_llm_response o.chunk_aborted 0 (response_chunks (o.deltas d))

abbrev pub is_blank : Text → Bool
is_blank t = is_empty (trim t)

-- What is kept of a streamed answer, and the fixed text, said when the answer is blank.
abbrev pub kept_reply : Text → List Effect
kept_reply text = if is_empty text then [] else persist_assistant_reply text ∷ []

abbrev pub instead : Bool → List Effect
instead false = []
instead true =
    enqueue_tts_start
    ∷ handle_text_response fallback true
    ∷ finish_tts_turn
    ∷ persist_assistant_reply fallback
    ∷ []

abbrev pub said_instead : Text → List Effect
said_instead text = instead (is_blank text)

pub streams :
    (o : Outside) (d : List ChatMessage)
    → o.answer_media ≡ true
    → let (text, spoken) = streamed o d in
      (reply (stream_answer o d).0 ≡ some text)
      × ((stream_answer o d).2
          ≡ response_with_context d
            ∷ enqueue_tts_start
            ∷ ((spoken ++ finish_tts_turn ∷ []) ++ kept_reply text))
unfolding stream_answer run_streaming_llm_turn
streams o d h = rw h (ground (arith, append-nil ((streamed o d).1 ++ finish_tts_turn ∷ [])))

fallen :
    (o : Outside) (r : LlmTurnResult) (d : List ChatMessage) (es : List Effect)
    → o.fallback_media ≡ true
    → (reply (or_fallback o (some r, d, es)).0
        ≡ some (if is_blank r.full_text then fallback else r.full_text))
      × ((or_fallback o (some r, d, es)).2 ≡ es ++ said_instead r.full_text)
unfolding or_fallback run_tts_for_text
fallen o r d es h = elim (Bool-cases (is_blank r.full_text)) [
  | inl b ↦ rw b (rw h (refl, refl))
  | inr b ↦ rw b (refl, sym (append-nil es))
]

abbrev or_nothing : Option Text → Text
or_nothing none = []
or_nothing (some t) = t

pub falls_back :
    (o : Outside) (r : TurnEnd) (text : Text)
    → o.fallback_media ≡ true
    → reply r.0 ≡ some text
    → (reply (or_fallback o r).0 ≡ some (if is_blank text then fallback else text))
      × ((or_fallback o r).2 ≡ r.2 ++ said_instead text)
unfolding or_fallback
falls_back o (none, d, es) text h e = absurd (ground arith)
falls_back o (some r, d, es) text h e = rw (ap or_nothing (sym e)) (fallen o r d es h)

-- When the session is aborted while the tools of the first round run, none of which stops the model, the
-- turn does not end: it clears the abort and asks the model again, for a streamed answer to the dialogue
-- with the results, and speaks its chunks; and when that answer is blank, the fixed text is spoken and
-- is the reply. The media of the session stay.
pub aborted_goes_on :
    (o : Outside) (t : ToolInfo) (ts : List ToolInfo) (d : List ChatMessage) (c : LlmCompletion)
    → o.aborted 0 ≡ false
    → o.has_media 0 ≡ true
    → o.complete 0 d ≡ some c
    → has_tool_calls c.tool_calls ≡ true
    → (execute_all (o.execute 0) c.tool_calls).1 ≡ false
    → o.aborted 1 ≡ true
    → o.answer_media ≡ true
    → o.fallback_media ≡ true
    → let d' = d ++ (to_assistant_message o.print c ∷ (execute_all (o.execute 0) c.tool_calls).0) in
      let (text, spoken) = streamed o d' in
      let turn = handle_llm_request_sync o (t ∷ ts) d in
      (reply turn.0 ≡ some (if is_blank text then fallback else text))
      × (turn.2
          ≡ (clear_session_abort
              ∷ complete_with_context d
              ∷ (executed c.tool_calls ++ clear_session_abort ∷ []))
            ++ ((response_with_context d'
                  ∷ enqueue_tts_start
                  ∷ ((spoken ++ finish_tts_turn ∷ []) ++ kept_reply text))
                ++ said_instead text))
unfolding handle_llm_request_sync after_rounds
aborted_goes_on o t ts d c a m e k s b n f =
    let d' = answered_by o d c in
    let (r, es) = streams o d' n in
    let (r', es') = falls_back o (stream_answer o d') (streamed o d').0 f r in
    rw (rounds-aborted o (t ∷ ts) (last_user_text [] d) d c a m e k s b) (
      r',
      ap
          (λ (x : List Effect).
            clear_session_abort
            ∷ complete_with_context d
            ∷ ((executed c.tool_calls ++ clear_session_abort ∷ []) ++ x))
          (es' ∙ ap (λ (x : List Effect). x ++ said_instead (streamed o d').0) es),
    )
