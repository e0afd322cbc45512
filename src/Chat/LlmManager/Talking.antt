-- ===== src/Chat/LlmManager/Talking.antt =====
-- That the rounds of a turn of llm_manager.rs end with something to say, and say nothing themselves.
use xiaozhi_esp32_server_rus.Common.{
  ℕ, zero, suc, ◌+◌, ◌≡◌, refl, ap, ◌∙◌, Bool, true, false, not, ◌&&◌, Option, none, some, sym,
  append_assoc, List, [], ◌∷◌, ◌++◌, ltb, if◌then◌else◌, arith,
}
use xiaozhi_esp32_server_rus.Common.Text.{Text, is_empty}
use xiaozhi_esp32_server_rus.Llm.Common.{ChatMessage}
use xiaozhi_esp32_server_rus.Chat.LlmManager.{
  ToolCall, LlmCompletion, ToolInfo, McpToolLlmOutcome, system, to_assistant_message,
  has_tool_calls, food_delivery_tool_retry_hint, Effect, clear_session_abort, complete_with_context,
  response_with_context, execute_mcp_tool_for_llm, enqueue_tts_start, finish_tts_turn,
  handle_text_response, persist_assistant_reply,
}
use xiaozhi_esp32_server_rus.Chat.LlmManager.Request.{
  max_tool_rounds, Outside, RoundsEnd, failed, stopped, fell_through, answered, Rounds, execute_all,
  executed, and_then, run_tools, after_completion, tool_rounds,
}

-- What the speech is given, in order.
abbrev pub spoken : List Effect → Text
spoken [] = []
spoken (handle_text_response t first ∷ es) = t ++ spoken es
spoken (e ∷ es) = spoken es

pub spoken-append : (xs ys : List Effect) → spoken (xs ++ ys) ≡ spoken xs ++ spoken ys
spoken-append [] ys = refl
spoken-append (handle_text_response t first ∷ xs) ys =
    ap (λ (x : Text). t ++ x) (spoken-append xs ys) ∙ sym (append_assoc t (spoken xs) (spoken ys))
spoken-append (clear_session_abort ∷ xs) ys = spoken-append xs ys
spoken-append (complete_with_context d ∷ xs) ys = spoken-append xs ys
spoken-append (response_with_context d ∷ xs) ys = spoken-append xs ys
spoken-append (execute_mcp_tool_for_llm c ∷ xs) ys = spoken-append xs ys
spoken-append (enqueue_tts_start ∷ xs) ys = spoken-append xs ys
spoken-append (finish_tts_turn ∷ xs) ys = spoken-append xs ys
spoken-append (persist_assistant_reply t ∷ xs) ys = spoken-append xs ys

pub silent-before : (xs ys : List Effect) → spoken xs ≡ [] → spoken (xs ++ ys) ≡ spoken ys
silent-before xs ys h = spoken-append xs ys ∙ ap (λ (x : Text). x ++ spoken ys) h

abbrev talks : RoundsEnd → Bool
talks failed = false
talks stopped = false
talks fell_through = true
talks (answered t) = not (is_empty t)

-- The rounds end with something to say, and have said nothing.
abbrev pub Talks : Rounds → Type 0
Talks (ending, d, es) = (talks ending ≡ true) × (spoken es ≡ [])

and_then-Talks : (es : List Effect) (r : Rounds) → spoken es ≡ [] → Talks r → Talks (and_then es r)
and_then-Talks es (ending, d, es') h (t, n) = (t, silent-before es es' h ∙ n)

executed-silent : (cs : List ToolCall) → spoken (executed cs) ≡ []
executed-silent [] = refl
executed-silent (c ∷ cs) = executed-silent cs

abbrev pub is_some : {X : Type 0} → Option X → Bool
is_some none = false
is_some (some x) = true

not_stopped :
    (execute : ToolCall → McpToolLlmOutcome) (cs : List ToolCall)
    → ((c : ToolCall) → (execute c).stop_llm ≡ false)
    → (execute_all execute cs).1 ≡ false
not_stopped execute [] h = refl
not_stopped execute (c ∷ cs) h = ground (arith, h c, not_stopped execute cs h)

run_tools-Talks :
    (o : Outside) (round : ℕ) (rest : List ChatMessage → Rounds) (d : List ChatMessage)
    (c : LlmCompletion)
    → ((k : ℕ) (call : ToolCall) → (o.execute k call).stop_llm ≡ false)
    → ((d' : List ChatMessage) → Talks (rest d'))
    → Talks (run_tools o round rest d c)
unfolding run_tools
run_tools-Talks o round rest d c h r =
    let ms = (execute_all (o.execute round) c.tool_calls).0 in
    let d' = d ++ (to_assistant_message o.print c ∷ ms) in
    rw (not_stopped (o.execute round) c.tool_calls (h round))
      (and_then-Talks (executed c.tool_calls) (rest d') (executed-silent c.tool_calls) (r d'))

completion-Talks :
    (o : Outside) (tools : List ToolInfo) (text : Text) (round : ℕ)
    (rest : List ChatMessage → Rounds) (d : List ChatMessage) (r : Option LlmCompletion)
    → is_some r ≡ true
    → ((k : ℕ) (call : ToolCall) → (o.execute k call).stop_llm ≡ false)
    → ((d' : List ChatMessage) → Talks (rest d'))
    → Talks (after_completion o tools text round rest d r)
unfolding after_completion
completion-Talks o tools text round rest d none s h r = ground arith
completion-Talks o tools text round rest d (some c) s h r =
    branches (has_tool_calls c.tool_calls && ltb (round + 1) max_tool_rounds) (is_empty c.content) _
      refl
  where
    branches :
        (calls silent hint : Bool)
        → is_empty c.content ≡ silent
        → Talks (
            if◌then◌else◌ {A = Rounds} calls (run_tools o round rest d c) (
              if silent
              then (fell_through, d, [])
              else if hint
              then rest (d ++ system food_delivery_tool_retry_hint ∷ [])
              else (answered c.content, d, [])))
    branches true silent hint e = run_tools-Talks o round rest d c h r
    branches false true hint e = (refl, refl)
    branches false false true e = r _
    branches false false false e = (ap not e, refl)

pub rounds-Talks :
    (o : Outside) (tools : List ToolInfo) (text : Text) (left round : ℕ) (d : List ChatMessage)
    → ((k : ℕ) → o.has_media k ≡ true)
    → ((k : ℕ) (d' : List ChatMessage) → is_some (o.complete k d') ≡ true)
    → ((k : ℕ) (call : ToolCall) → (o.execute k call).stop_llm ≡ false)
    → Talks (tool_rounds o tools text left round d)
unfolding tool_rounds
rounds-Talks o tools text zero round d m c h = (refl, refl)
rounds-Talks o tools text (suc left) round d m c h =
    let rest = λ (x : List ChatMessage). tool_rounds o tools text left (round + 1) x in
    let next =
      completion-Talks o tools text round rest d (o.complete round d) (c round d) h
        (λ x. rounds-Talks o tools text left (round + 1) x m c h) in
    let r = after_completion o tools text round rest d (o.complete round d) in
    branches (o.aborted round) (o.has_media round) (and_then (complete_with_context d ∷ []) r)
      (m round) (and_then-Talks (complete_with_context d ∷ []) r refl next)
  where
    branches :
        (aborted media : Bool) (r : Rounds)
        → media ≡ true
        → Talks r
        → Talks
            (if aborted then (fell_through, d, []) else if not media then (failed, d, []) else r)
    branches true media r m t = (refl, refl)
    branches false true r m t = t
    branches false false r m t = absurd (ground arith)
