-- ===== src/Chat/LlmManager/Replying.antt =====
-- That a turn of llm_manager.rs with tools has something to say.
use xiaozhi_esp32_server_rus.Common.{
  ℕ, ◌+◌, ◌≡◌, refl, ap, ◌∙◌, Bool, true, false, not, Bool-cases, inl, inr, some, ◌⊎◌, append-nil,
  List, [], ◌∷◌, ◌++◌, if◌then◌else◌, arith,
}
use xiaozhi_esp32_server_rus.Common.Text.{Text, is_empty, trim_start_by, trim_end_by}
use xiaozhi_esp32_server_rus.Llm.Common.{ChatMessage}
use xiaozhi_esp32_server_rus.Chat.LlmManager.{
  ToolCall, ToolInfo, fallback, Effect, clear_session_abort, finish_tts_turn,
}
use xiaozhi_esp32_server_rus.Chat.LlmManager.Aborted.{
  reply, streamed, is_blank, kept_reply, instead, said_instead, streams, falls_back,
}
use xiaozhi_esp32_server_rus.Chat.LlmManager.Request.{
  max_tool_rounds, Outside, failed, stopped, fell_through, answered, Rounds, before, tool_rounds,
  TurnEnd, or_fallback, stream_answer, after_rounds, last_user_text, handle_llm_request_sync,
}
use xiaozhi_esp32_server_rus.Chat.LlmManager.Stream.{
  LlmResponseChunk, said, response_chunks, handle_llm_response, run_tts_for_text,
}
use xiaozhi_esp32_server_rus.Chat.LlmManager.Talking.{
  spoken, spoken-append, silent-before, Talks, is_some, rounds-Talks,
}

-- The turn has a reply that is not empty, and the speech is given the reply; or else the reply is the
-- fixed text, and the speech is given it behind blank text.
abbrev pub Says : TurnEnd → Type 0
Says (r, d, es) =
    (text : Text) × (reply r ≡ some text)
    × (is_empty text ≡ false)
    × ((spoken es ≡ text)
        ⊎ ((text ≡ fallback)
            × ((blank : Text) × (is_blank blank ≡ true) × (spoken es ≡ blank ++ fallback))))

before-Says : (es : List Effect) (r : TurnEnd) → spoken es ≡ [] → Says r → Says (before es r)
before-Says es (r, d, es') h s = rw (silent-before es es' h) s

not_blank : (t : Text) → is_blank t ≡ false → is_empty t ≡ false
unfolding trim_start_by trim_end_by
not_blank [] h = ground arith
not_blank (c ∷ t) h = refl

tts-Says :
    (has_session : Bool) (media : Bool) (d : List ChatMessage) (text : Text)
    → media ≡ true
    → not (is_empty text) ≡ true
    → Says (run_tts_for_text media has_session d text [])
unfolding run_tts_for_text
tts-Says has_session true d text h e = (text, refl, ground arith, inl (append-nil text))
tts-Says has_session false d text h e = absurd (ground arith)

chunks-spoken :
    (aborted : ℕ → Bool) (i : ℕ) (cs : List LlmResponseChunk)
    → spoken (handle_llm_response aborted i cs).1 ≡ (handle_llm_response aborted i cs).0
unfolding handle_llm_response
chunks-spoken aborted i [] = refl
chunks-spoken aborted i (c ∷ cs) =
    let ih = chunks-spoken aborted (i + 1) cs in
    branches (aborted i) (is_empty c.text) c.is_end (handle_llm_response aborted (i + 1) cs) ih
  where
    branches :
        (stop silent last : Bool) (rest : Text × List Effect)
        → spoken rest.1 ≡ rest.0
        → let r =
            if◌then◌else◌ {A = Text × List Effect} stop
              ([], [])
              (if silent then (if last then ([], []) else rest) else said c rest) in
          spoken r.1 ≡ r.0
    branches true silent last rest h = refl
    branches false true true rest h = refl
    branches false true false rest h = h
    branches false false last rest h = ap (λ (x : Text). c.text ++ x) h

kept-silent : (text : Text) → spoken (kept_reply text) ≡ []
kept-silent [] = refl
kept-silent (c ∷ text) = refl

stream-spoken :
    (o : Outside) (d : List ChatMessage)
    → o.answer_media ≡ true
    → spoken (stream_answer o d).2 ≡ (streamed o d).0
stream-spoken o d h =
    let es = (streamed o d).1 in
    let text = (streamed o d).0 in
    ap spoken (streams o d h).1
    ∙ spoken-append (es ++ finish_tts_turn ∷ []) (kept_reply text)
    ∙ ap (λ (x : Text). spoken (es ++ finish_tts_turn ∷ []) ++ x) (kept-silent text)
    ∙ append-nil (spoken (es ++ finish_tts_turn ∷ []))
    ∙ spoken-append es (finish_tts_turn ∷ [])
    ∙ append-nil (spoken es)
    ∙ chunks-spoken o.chunk_aborted 0 (response_chunks (o.deltas d))

fallback-Says :
    (o : Outside) (r : TurnEnd) (text : Text)
    → o.fallback_media ≡ true
    → reply r.0 ≡ some text
    → spoken r.2 ≡ text
    → Says (or_fallback o r)
fallback-Says o r text f e s =
    let (a, b) = falls_back o r text f e in
    elim (Bool-cases (is_blank text)) [
      | inl k ↦ (
        fallback,
        a ∙ ap (λ (x : Bool). some (if x then fallback else text)) k,
        refl,
        inr (
          refl,
          (
            text,
            k,
            ap spoken b
                ∙ spoken-append r.2 (said_instead text)
                ∙ ap (λ (x : Text). x ++ spoken (said_instead text)) s
                ∙ ap (λ (x : Bool). text ++ spoken (instead x)) k
                ∙ ap (λ (x : Text). text ++ x) (append-nil fallback),
          ),
        ),
      )
      | inr k ↦ (
        text,
        a ∙ ap (λ (x : Bool). some (if x then fallback else text)) k,
        not_blank text k,
        inl (
            ap spoken b
            ∙ ap (λ (x : Bool). spoken (r.2 ++ instead x)) k
            ∙ ap spoken (append-nil r.2)
            ∙ s),
      )
    ]

ended-Says :
    (o : Outside) (r : Rounds)
    → o.answer_media ≡ true
    → o.fallback_media ≡ true
    → Talks r
    → Says (after_rounds o r)
unfolding after_rounds
ended-Says o (failed, d, es) a f (h, n) = absurd (ground arith)
ended-Says o (stopped, d, es) a f (h, n) = absurd (ground arith)
ended-Says o (answered text, d, es) a f (h, n) =
    before-Says es (run_tts_for_text o.answer_media o.has_session d text []) n
      (tts-Says o.has_session o.answer_media d text a h)
ended-Says o (fell_through, d, es) a f (h, n) =
    before-Says (es ++ clear_session_abort ∷ []) (or_fallback o (stream_answer o d))
      (silent-before es (clear_session_abort ∷ []) n)
      (fallback-Says o (stream_answer o d) (streamed o d).0 f (streams o d a).0
        (stream-spoken o d a))

-- When the session keeps its media, the model answers each request and no tool stops the model, a turn
-- with tools ends with a reply that is not empty, however often tools are called and even when the
-- answers of the model are empty; and the speech is given this reply, or else the fixed text, which
-- then is the reply, behind a streamed answer that was blank.
pub turn_replies :
    (o : Outside) (t : ToolInfo) (ts : List ToolInfo) (d : List ChatMessage)
    → ((k : ℕ) → o.has_media k ≡ true)
    → o.answer_media ≡ true
    → o.fallback_media ≡ true
    → ((k : ℕ) (d' : List ChatMessage) → is_some (o.complete k d') ≡ true)
    → ((k : ℕ) (call : ToolCall) → (o.execute k call).stop_llm ≡ false)
    → Says (handle_llm_request_sync o (t ∷ ts) d)
unfolding handle_llm_request_sync
turn_replies o t ts d m a f c h =
    let r = tool_rounds o (t ∷ ts) (last_user_text [] d) max_tool_rounds 0 d in
    before-Says (clear_session_abort ∷ []) (after_rounds o r) refl
      (ended-Says o r a f (rounds-Talks o (t ∷ ts) (last_user_text [] d) max_tool_rounds 0 d m c h))
