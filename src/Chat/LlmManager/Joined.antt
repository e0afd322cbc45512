-- ===== src/Chat/LlmManager/Joined.antt =====
-- How the streamed answer of llm_manager.rs depends on the deltas of the model, with sentence.rs.
use xiaozhi_esp32_server_rus.Common.{
  ℕ, ◌+◌, ◌≡◌, refl, sym, ap, ◌∙◌, Bool, true, false, Option, none, some, List, [], ◌∷◌, ◌++◌, map,
  append_assoc, append-nil,
}
use xiaozhi_esp32_server_rus.Common.Text.{Text}
use xiaozhi_esp32_server_rus.Chat.Sentence.{SentenceBuffer, push_delta, flush}
use xiaozhi_esp32_server_rus.Chat.Sentence
use xiaozhi_esp32_server_rus.Chat.Sentence.Streaming.{
  NoBreak, push_delta-NoBreak, push_all, joined, push_all-joined,
}
use xiaozhi_esp32_server_rus.Chat.LlmManager.Stream.{
  LlmResponseChunk, content, send_all, after_all, flushed, send_chunks, response_chunks,
  handle_llm_response,
}

abbrev pub or_none : Option Text → Text
or_none none = []
or_none (some t) = t

abbrev pub never : ℕ → Bool
never i = false

-- The chunks of the sentences that a buffer gives, and its end.
abbrev chunks : Bool → SentenceBuffer × List Text → List LlmResponseChunk
chunks first (b, out) = send_all first out ++ flushed (after_all first out) (flush b).1

send_all-append :
    (first : Bool) (xs ys : List Text)
    → send_all first xs ++ send_all (after_all first xs) ys ≡ send_all first (xs ++ ys)
unfolding send_all
send_all-append first [] ys = refl
send_all-append first (x ∷ []) ys = refl
send_all-append first (x ∷ x' ∷ xs) ys =
    ap (λ cs. record { text = x; is_start = first; is_end = false } ∷ cs)
      (send_all-append false (x' ∷ xs) ys)

after_all-append :
    (first : Bool) (xs ys : List Text)
    → after_all (after_all first xs) ys ≡ after_all first (xs ++ ys)
after_all-append first [] ys = refl
after_all-append first (x ∷ xs) [] = refl
after_all-append first (x ∷ xs) (y ∷ ys) = refl

chunks-append :
    (first : Bool) (xs ys : List Text) (b : SentenceBuffer)
    → send_all first xs ++ chunks (after_all first xs) (b, ys) ≡ chunks first (b, xs ++ ys)
chunks-append first xs ys b =
    sym (append_assoc (send_all first xs) (send_all (after_all first xs) ys) _)
    ∙ rw (send_all-append first xs ys, after_all-append first xs ys) refl

send-push_all :
    (b : SentenceBuffer) (first : Bool) (ds : List Text)
    → NoBreak b.pending
    → send_chunks b first (map content ds) ≡ chunks first (push_all b ds)
unfolding send_chunks push_all send_all
send-push_all b first [] h = refl
send-push_all b first ([] ∷ ds) h = rw (← (push_all-joined b [] h)) (send-push_all b first ds h)
send-push_all b first ((c ∷ cs) ∷ ds) h =
    let (b', out) = push_delta b (c ∷ cs) in
    ap (λ x. send_all first out ++ x)
      (send-push_all b' (after_all first out) ds (push_delta-NoBreak b (c ∷ cs) h))
    ∙ chunks-append first out (push_all b' ds).1 (push_all b' ds).0

abbrev later : ℕ → List Text → ℕ
later i [] = i
later i (s ∷ ss) = later (i + 1) ss

-- The text of the sentences, when no chunk finds the session aborted.
handle-sentences :
    (i : ℕ) (first : Bool) (ss : List Text) (cs : List LlmResponseChunk)
    → (handle_llm_response never i (send_all first ss ++ cs)).0
      ≡ joined ss ++ (handle_llm_response never (later i ss) cs).0
unfolding send_all handle_llm_response
handle-sentences i first [] cs = refl
handle-sentences i first ([] ∷ ss) cs = handle-sentences (i + 1) false ss cs
handle-sentences i first ((c ∷ s) ∷ ss) cs =
    ap (λ t. (c ∷ s) ++ t) (handle-sentences (i + 1) false ss cs)
    ∙ sym (append_assoc (c ∷ s) (joined ss) _)

handle-flushed :
    (i : ℕ) (first : Bool) (tail : Option Text)
    → (handle_llm_response never i (flushed first tail)).0 ≡ or_none tail
unfolding handle_llm_response
handle-flushed i first none = refl
handle-flushed i first (some []) = refl
handle-flushed i first (some (c ∷ t)) = append-nil (c ∷ t)

-- The chunks of a stream without an error are those of the whole text in one delta: it makes no
-- difference where the model cuts its answer. Without an abort the reply is the sentences of that text
-- and what is left at its end.
pub response-joined :
    (ds : List Text)
    → (response_chunks (some (map content ds)) ≡ response_chunks (some (content (joined ds) ∷ [])))
      × ((handle_llm_response never 0 (response_chunks (some (map content ds)))).0
          ≡ joined (push_delta Sentence.new (joined ds)).1
            ++ or_none (flush (push_delta Sentence.new (joined ds)).0).1)
unfolding response_chunks Sentence.new
response-joined ds =
    let all =
      send-push_all Sentence.new true ds refl
      ∙ ap (λ r. chunks true r) (push_all-joined Sentence.new ds refl) in
    let one =
      send-push_all Sentence.new true (joined ds ∷ []) refl
      ∙ ap (λ r. chunks true r) (push_all-joined Sentence.new (joined ds ∷ []) refl)
      ∙ ap (λ t. chunks true (push_delta Sentence.new t)) (append-nil (joined ds)) in
    let (b, out) = push_delta Sentence.new (joined ds) in
    (
      all ∙ sym one,
      ap (λ cs. (handle_llm_response never 0 cs).0) all
          ∙ handle-sentences 0 true out (flushed (after_all true out) (flush b).1)
          ∙ ap (λ t. joined out ++ t)
              (handle-flushed (later 0 out) (after_all true out) (flush b).1),
    )
