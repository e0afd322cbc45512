-- ===== src/Chat/LlmManager/Stream.antt =====
-- The streamed answer of llm_manager.rs: the task that cuts the model's deltas into chunks,
-- `handle_llm_response` and `run_streaming_llm_turn`; and the answer that is spoken as a whole.
use xiaozhi_esp32_server_rus.Common.{
  ℕ, ◌+◌, Bool, true, false, not, Option, none, some, List, [], ◌∷◌, ◌++◌, if◌then◌else◌,
}
use xiaozhi_esp32_server_rus.Common.Text.{Text, is_empty}
use xiaozhi_esp32_server_rus.Chat.Sentence.{SentenceBuffer, push_delta, flush}
use xiaozhi_esp32_server_rus.Chat.Sentence
use xiaozhi_esp32_server_rus.Llm.Common.{ChatMessage}
use xiaozhi_esp32_server_rus.Chat.LlmManager.{
  assistant, Effect, response_with_context, enqueue_tts_start, finish_tts_turn,
  handle_text_response, persist_assistant_reply,
}

pub record LlmResponseChunk : Type 0 where
  pub text : Text
  pub is_start : Bool
  pub is_end : Bool

abbrev last_chunk : LlmResponseChunk
last_chunk = record { text = []; is_start = false; is_end = true }

-- A message of the model's stream.
pub data Delta : Type 0 where
  failed : Delta
  content : Text → Delta

-- Sentences as chunks; the flag is `first`.
unfoldable pub send_all : Bool → List Text → List LlmResponseChunk
send_all first [] = []
send_all first (s ∷ ss) = record { text = s; is_start = first; is_end = false } ∷ send_all false ss

abbrev pub after_all : Bool → List Text → Bool
after_all first [] = first
after_all first (s ∷ ss) = false

abbrev pub flushed : Bool → Option Text → List LlmResponseChunk
flushed first none = last_chunk ∷ []
flushed first (some tail) =
    record { text = tail; is_start = first; is_end = false } ∷ last_chunk ∷ []

-- What the task sends: for the buffer and `first` as they are, and the messages still to come.
unfoldable pub send_chunks : SentenceBuffer → Bool → List Delta → List LlmResponseChunk
send_chunks b first [] = flushed first (flush b).1
send_chunks b first (failed ∷ ds) = flushed first (flush b).1
send_chunks b first (content text ∷ ds) =
    let (b', out) = push_delta b text in
    let skipped = send_chunks b first ds in
    let sent = send_all first out ++ send_chunks b' (after_all first out) ds in
    if is_empty text then skipped else sent

-- `none` when the request itself fails.
unfoldable pub response_chunks : Option (List Delta) → List LlmResponseChunk
response_chunks none = last_chunk ∷ []
response_chunks (some ds) = send_chunks Sentence.new true ds

abbrev pub said : LlmResponseChunk → Text × List Effect → Text × List Effect
said c (text, es) = (c.text ++ text, handle_text_response c.text c.is_start ∷ es)

-- The full text and the chunks that are spoken; `aborted` is asked at each chunk.
unfoldable pub handle_llm_response : (ℕ → Bool) → ℕ → List LlmResponseChunk → Text × List Effect
handle_llm_response aborted i [] = ([], [])
handle_llm_response aborted i (c ∷ cs) =
    let rest = handle_llm_response aborted (i + 1) cs in
    if aborted i
    then ([], [])
    else if is_empty c.text
    then (if c.is_end then ([], []) else rest)
    else said c rest

pub record LlmTurnResult : Type 0 where
  pub full_text : Text
  pub messages : List Text

-- The dialogue only gets the reply while there is a session.
unfoldable pub persist : Bool → List ChatMessage → Text → List ChatMessage
persist has_session dialogue text =
    if has_session then dialogue ++ assistant text ∷ [] else dialogue

-- With `messages` that the turn has delivered so far; none when there is no media.
unfoldable pub run_streaming_llm_turn :
    Bool
    → Bool
    → Option (List Delta)
    → (ℕ → Bool)
    → List ChatMessage
    → List Text
    → Option LlmTurnResult × List ChatMessage × List Effect
run_streaming_llm_turn has_media has_session deltas aborted dialogue messages =
    let (text, spoken) = handle_llm_response aborted 0 (response_chunks deltas) in
    let es =
      response_with_context dialogue ∷ enqueue_tts_start ∷ (spoken ++ finish_tts_turn ∷ []) in
    if not has_media
    then (none, dialogue, [])
    else if is_empty text
    then (some (record { full_text = text; messages = messages }), dialogue, es)
    else (
      some (record { full_text = text; messages = messages ++ text ∷ [] }),
      persist has_session dialogue text,
      es ++ persist_assistant_reply text ∷ [],
    )

unfoldable pub run_tts_for_text :
    Bool
    → Bool
    → List ChatMessage
    → Text
    → List Text
    → Option LlmTurnResult × List ChatMessage × List Effect
run_tts_for_text has_media has_session dialogue text messages =
    if not has_media then (none, dialogue, []) else (
      some (record { full_text = text; messages = messages ++ text ∷ [] }),
      persist has_session dialogue text,
      enqueue_tts_start
          ∷ handle_text_response text true
          ∷ finish_tts_turn
          ∷ persist_assistant_reply text
          ∷ [],
    )
