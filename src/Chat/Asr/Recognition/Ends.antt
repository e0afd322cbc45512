-- ===== src/Chat/Asr/Recognition/Ends.antt =====
-- The loop over outcomes ends: what bounds its rounds, and what it hands on.
use xiaozhi_esp32_server_rus.Common.{
  ℕ, ◌+◌, ◌-◌, ◌*◌, ◌≤◌, ◌≡◌, refl, ap, Bool, true, false, not, ◌&&◌, ◌||◌, none, some, List, [],
  ◌∷◌, ◌++◌, All, length, Option-cases, inl, inr, arith,
}
use xiaozhi_esp32_server_rus.Common.Text.{Text}
use xiaozhi_esp32_server_rus.Chat.Asr.Pipeline.{AsrTurnOutcome, text, empty, error, cancelled}
use xiaozhi_esp32_server_rus.Chat.Asr.Recognition.{
  LoopState, Round, Effect, start_loop, round, run_asr_recognition_loop, seconds, on_empty,
  restart_asr, enqueue_chat_text, close_audio_idle_timeout, dispatch_asr_empty_result, sleep,
  extend_listen_warmup, resume_audio_idle_window, close_session_fatal, is_recoverable_asr_error,
}

-- What is left of a loop that hears nothing: each round that goes on takes one window's length.
abbrev window : ℕ
window = seconds 3 + 1

abbrev left : LoopState → ℕ
left s =
    2 * (s.start_idle + seconds 60 - s.empty_window_start) + window * (2 - s.empty_result_count)

abbrev IsGoing : LoopState → Type 0
IsGoing s = (s.empty_result_count ≤ 2) × (s.empty_window_start ≤ s.start_idle + seconds 60)

on_empty-left :
    (s s' : LoopState) (r : Round)
    → IsGoing s
    → r.welcome_playing ≡ false
    → (on_empty s r).1 ≡ some s'
    → IsGoing s' × (left s' + window ≤ left s)
unfolding on_empty
on_empty-left s s' r g w e = ground arith

-- The turn hears nothing, and no welcome is playing.
pub record IsEmptyRound (r : Round) : Type 0 where
  pub hears_nothing : r.outcome ≡ empty
  pub no_welcome : r.welcome_playing ≡ false

after_pending : LoopState → LoopState
after_pending s = record s { pending_outcome = false }

round-empty :
    (s s' : LoopState) (r : Round)
    → IsEmptyRound r
    → (round s r).1 ≡ some s'
    → (on_empty (after_pending s) r).1 ≡ some s'
unfolding round after_pending
round-empty s s' r h e = ground arith

round-left :
    (s s' : LoopState) (r : Round)
    → IsGoing s
    → IsEmptyRound r
    → (round s r).1 ≡ some s'
    → IsGoing s' × (left s' + window ≤ left s)
unfolding after_pending
round-left s s' r g h e =
    on_empty-left (after_pending s) s' r g h.no_welcome (round-empty s s' r h e)

run-left :
    (s s' : LoopState) (rs : List Round)
    → IsGoing s
    → All IsEmptyRound rs
    → (run_asr_recognition_loop s rs).1 ≡ some s'
    → left s' + length rs * window ≤ left s
unfolding run_asr_recognition_loop
run-left s s' [] g h e = ground arith
run-left s s' (r ∷ rs) g (h, hs) e = elim (Option-cases (round s r).1) [
  | inl n ↦ ground arith
  | inr (t, m) ↦ (let (g', l) = round-left s t r g h m in ground (arith, run-left t s' rs g' hs))
]

run_too_long :
    (now : ℕ) (s : LoopState) (rs : List Round)
    → All IsEmptyRound rs
    → 42 ≤ length rs
    → (run_asr_recognition_loop (start_loop now) rs).1 ≡ some s
    → ⊥
unfolding start_loop
run_too_long now s rs h l m =
    let b : length rs * window ≤ left (start_loop now) =
      omega (arith, run-left (start_loop now) s rs (ground arith) h m) in
    omega arith

-- A loop that hears nothing while no welcome is playing returns within 42 rounds, whatever the
-- clock shows and the other answers are.
pub run_loop_ends :
    (now : ℕ) (rs : List Round)
    → All IsEmptyRound rs
    → 42 ≤ length rs
    → (run_asr_recognition_loop (start_loop now) rs).1 ≡ none
run_loop_ends now rs h l = elim (Option-cases (run_asr_recognition_loop (start_loop now) rs).1) [
  | inl n ↦ n
  | inr (s, m) ↦ absurd (run_too_long now s rs h l m)
]

abbrev texts : List Effect → List Text
texts [] = []
texts (enqueue_chat_text t ∷ es) = t ∷ texts es
texts (e ∷ es) = texts es

texts-append : (xs ys : List Effect) → texts (xs ++ ys) ≡ texts xs ++ texts ys
texts-append [] ys = refl
texts-append (enqueue_chat_text t ∷ xs) ys = ap (◌∷◌ t) (texts-append xs ys)
texts-append (restart_asr ∷ xs) ys = texts-append xs ys
texts-append (close_audio_idle_timeout ∷ xs) ys = texts-append xs ys
texts-append (dispatch_asr_empty_result ∷ xs) ys = texts-append xs ys
texts-append (sleep n ∷ xs) ys = texts-append xs ys
texts-append (extend_listen_warmup n ∷ xs) ys = texts-append xs ys
texts-append (resume_audio_idle_window ∷ xs) ys = texts-append xs ys
texts-append (close_session_fatal ∷ xs) ys = texts-append xs ys

round-texts :
    (s : LoopState) (r : Round)
    → r.realtime ≡ false
    → (length (texts (round s r).0) ≤ 1)
      × ((s' : LoopState) → (round s r).1 ≡ some s' → texts (round s r).0 ≡ [])
unfolding round
round-texts s r h = (ground arith, λ s' e. ground arith)

-- A loop outside the realtime mode hands on one text at most, and returns with it.
run_loop_texts :
    (s : LoopState) (rs : List Round)
    → All (λ (r : Round). r.realtime ≡ false) rs
    → length (texts (run_asr_recognition_loop s rs).0) ≤ 1
unfolding run_asr_recognition_loop
run_loop_texts s [] h = ground arith
run_loop_texts s (r ∷ rs) (h, hs) = elim (Option-cases (round s r).1) [
  | inl n ↦ ground (arith, (round-texts s r h).0)
  | inr (t, m) ↦ ground (
    arith,
    (round-texts s r h).1 t m,
    texts-append (round s r).0 (run_asr_recognition_loop t rs).0,
    run_loop_texts t rs hs,
  )
]

abbrev closes : List Effect → Bool
closes [] = false
closes (close_session_fatal ∷ es) = true
closes (e ∷ es) = closes es

abbrev is_fatal : AsrTurnOutcome → Bool
is_fatal (error err) = not (is_recoverable_asr_error err)
is_fatal _ = false

closes-round :
    (s : LoopState) (r : Round) (o : AsrTurnOutcome)
    → r.outcome ≡ o
    → (closes (round s r).0 ≡ (
        r.current_before
        && (s.pending_outcome || r.restarted)
        && r.current_after
        && is_fatal o
        && not r.timeout_pending
        && not r.welcome_playing))
      × (closes (round s r).0 ≡ true → (round s r).1 ≡ none)
unfolding round
closes-round s r (text t) e = (ground arith, λ c. ground arith)
closes-round s r empty e = (ground arith, λ c. ground arith)
closes-round s r (error err) e = (ground arith, λ c. ground arith)
closes-round s r cancelled e = (ground arith, λ c. ground arith)

-- A round closes the session as broken exactly when its listen start stayed current, the turn ended
-- in an error that is not recoverable, no idle timeout was pending, no welcome was playing, and the
-- recognition was restarted if no outcome was awaited yet. The loop returns then.
round-closes :
    (s : LoopState) (r : Round)
    → (closes (round s r).0 ≡ (
        r.current_before
        && (s.pending_outcome || r.restarted)
        && r.current_after
        && is_fatal r.outcome
        && not r.timeout_pending
        && not r.welcome_playing))
      × (closes (round s r).0 ≡ true → (round s r).1 ≡ none)
round-closes s r = closes-round s r r.outcome refl
