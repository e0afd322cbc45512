-- ===== src/Chat/Sentence/Streaming.antt =====
-- How the sentences of sentence.rs depend on the deltas: not on where the model's output is cut.
use xiaozhi_esp32_server_rus.Common.{
  ◌≡◌, refl, sym, ◌∙◌, inl, inr, true, List, [], ◌∷◌, ◌++◌, append-nil, append_assoc, arith, length,
  Bool-cases, all, not, all-append,
}
use xiaozhi_esp32_server_rus.Common.Text.{Text}
use xiaozhi_esp32_server_rus.Chat.Sentence.Loop.{scan, drain-scan}
use xiaozhi_esp32_server_rus.Chat.Sentence.{SentenceBuffer, is_break, emit, drain, push_delta}

-- No break waits in the buffer.
abbrev pub NoBreak : Text → Type 0
NoBreak s = all (λ c. not (is_break c)) s ≡ true

emit-append : (piece : Text) (xs ys : List Text) → emit piece (xs ++ ys) ≡ emit piece xs ++ ys
unfolding emit
emit-append piece xs ys = ground arith

scan-append :
    (done s t : Text)
    → scan done (s ++ t)
      ≡ ((scan done s).0 ++ (scan (scan done s).1 t).0, (scan (scan done s).1 t).1)
unfolding scan
scan-append done [] t = refl
scan-append done (c ∷ s) t = elim (Bool-cases (is_break c)) [
  | inl e ↦
      rw
        (
          e,
          scan-append [] s t,
          emit-append (done ++ (c ∷ [])) (scan [] s).0 (scan (scan [] s).1 t).0,
        )
        refl
  | inr e ↦ rw e (scan-append (done ++ (c ∷ [])) s t)
]

scan_whole : (done s : Text) → NoBreak s → scan done s ≡ ([], done ++ s)
unfolding scan
scan_whole done [] h = rw append-nil refl
scan_whole done (c ∷ s) h =
    ground (arith, scan_whole (done ++ (c ∷ [])) s, append_assoc done (c ∷ []) s)

scan_pending : (s t : Text) → NoBreak s → scan [] (s ++ t) ≡ scan s t
scan_pending s t h = scan-append [] s t ∙ rw (scan_whole [] s h) refl

scan-NoBreak : (done s : Text) → NoBreak done → NoBreak (scan done s).1
unfolding scan
scan-NoBreak done [] h = h
scan-NoBreak done (c ∷ s) h = elim (Bool-cases (is_break c)) [
  | inl e ↦ rw e (scan-NoBreak [] s refl)
  | inr e ↦ rw e (
      scan-NoBreak (done ++ (c ∷ [])) s
        (all-append (λ x. not (is_break x)) done (c ∷ []) ∙ ground arith))
]

push_scan :
    (b : SentenceBuffer) (delta : Text)
    → NoBreak b.pending
    → push_delta b delta ≡ (record { pending = (scan b.pending delta).1 }, (scan b.pending delta).0)
unfolding push_delta
push_scan b delta h =
    let e : drain (length (b.pending ++ delta)) (b.pending ++ delta) ≡ scan b.pending delta =
      drain-scan (length (b.pending ++ delta)) (b.pending ++ delta) (omega arith)
      ∙ scan_pending b.pending delta h in
    rw e refl

-- After a delta no break is left in the buffer.
pub push_delta-NoBreak :
    (b : SentenceBuffer) (delta : Text) → NoBreak b.pending → NoBreak (push_delta b delta).0.pending
push_delta-NoBreak b delta h = rw (push_scan b delta h) (scan-NoBreak b.pending delta h)

-- All deltas of a turn, one after the other.
unfoldable pub push_all : SentenceBuffer → List Text → SentenceBuffer × List Text
push_all b [] = (b, [])
push_all b (d ∷ ds) =
    let (b', out) = push_delta b d in let (b'', more) = push_all b' ds in (b'', out ++ more)

abbrev pub joined : List Text → Text
joined [] = []
joined (d ∷ ds) = d ++ joined ds

scan_all :
    (b : SentenceBuffer) (ds : List Text)
    → NoBreak b.pending
    → push_all b ds
      ≡ (record { pending = (scan b.pending (joined ds)).1 }, (scan b.pending (joined ds)).0)
unfolding push_all scan
scan_all b [] h = refl
scan_all b (d ∷ ds) h =
    rw (scan_all (push_delta b d).0 ds (push_delta-NoBreak b d h), push_scan b d h)
      (rw (scan-append b.pending d (joined ds)) refl)

-- The sentences of a turn and what is left pending depend only on the text, not on how it is cut
-- into deltas, when no break waits in the buffer at first.
pub push_all-joined :
    (b : SentenceBuffer) (ds : List Text)
    → NoBreak b.pending
    → push_all b ds ≡ push_delta b (joined ds)
push_all-joined b ds h = scan_all b ds h ∙ sym (push_scan b (joined ds) h)
