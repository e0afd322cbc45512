-- ===== src/Chat/Sentence/Loop.antt =====
-- The loop of `push_delta` in sentence.rs against one pass over the text.
use xiaozhi_esp32_server_rus.Common.{
  ℕ, zero, suc, ◌≤◌, ◌<◌, ◌≡◌, refl, sym, inl, inr, List, [], ◌∷◌, ◌++◌, append-nil, append_assoc,
  none, some, arith, if◌then◌else◌, length, Option-cases,
}
use xiaozhi_esp32_server_rus.Common.Text.{Text}
use xiaozhi_esp32_server_rus.Chat.Sentence.{is_break, cut, emit, drain}

-- One pass: `done` is the text since the last break.
unfoldable pub scan : Text → Text → List Text × Text
scan done [] = ([], done)
scan done (c ∷ s) =
    let fresh = scan [] s in
    let longer = scan (done ++ (c ∷ [])) s in
    if is_break c then (emit (done ++ (c ∷ [])) fresh.0, fresh.1) else longer

cut-none : (done s : Text) → cut s ≡ none → scan done s ≡ ([], done ++ s)
unfolding cut scan
cut-none done [] e = rw append-nil refl
cut-none done (c ∷ s) e = elim (Option-cases (cut s)) [
  | inl q ↦ ground (arith, q, cut-none (done ++ (c ∷ [])) s q, append_assoc done (c ∷ []) s)
  | inr ((h, t), q) ↦ ground (arith, q)
]

cut-some :
    (done s head tail : Text)
    → cut s ≡ some (head, tail)
    → (scan done s ≡ (emit (done ++ head) (scan [] tail).0, (scan [] tail).1))
      × (length tail < length s)
unfolding cut scan
cut-some done [] head tail e = cc
cut-some done (c ∷ s) head tail e = elim (Option-cases (cut s)) [
  | inl q ↦ ground (arith, q)
  | inr ((h, t), q) ↦
      ground (arith, q, cut-some (done ++ (c ∷ [])) s h t q, append_assoc done (c ∷ []) h)
]

-- With a round for each character the loop ends by itself, with the result of one pass.
pub drain-scan : (fuel : ℕ) (s : Text) → length s ≤ fuel → drain fuel s ≡ scan [] s
unfolding drain scan
drain-scan zero [] h = refl
drain-scan zero (c ∷ s) h = absurd (omega arith)
drain-scan (suc fuel) s h = elim (Option-cases (cut s)) [
  | inl e ↦ rw (e, drain) (sym (cut-none [] s e))
  | inr ((head, tail), e) ↦
      let (q, lt) = cut-some [] s head tail e in
      rw (e, drain, drain-scan fuel tail (omega (arith, lt))) (sym q)
]
