-- ===== src/Chat/TtsManager/Stale.antt =====
-- Generations of the queued audio in tts_manager.rs: what an interruption leaves in the queue.
use xiaozhi_esp32_server_rus.Common.{
  ℕ, ◌+◌, ◌≤◌, ◌<◌, ◌^◌, ◌≡◌, refl, ap, Bool, true, List, [], ◌∷◌, ◌++◌, ◌==◌, if_false, arith,
}
use xiaozhi_esp32_server_rus.Common.Text.{Text}
use xiaozhi_esp32_server_rus.Chat.TtsManager.{
  AudioQueueElem, TtsManager, ended, enqueue_elem, begin_interrupt, clear_tts_queue,
  record_pending_interrupt_stop,
}
use xiaozhi_esp32_server_rus.Chat.TtsManager.Sender.{
  Sender, Turn, on_elem, taken, take_elem, dispatch_all, drain_queue, run_sender_loop,
}

-- Nothing in the queue carries a generation beyond this one.
abbrev AllUpTo : ℕ → List AudioQueueElem → Type 0
AllUpTo g [] = Unit {0}
AllUpTo g (e ∷ es) = (e.generation ≤ g) × AllUpTo g es

abbrev IsStamped : TtsManager → Type 0
IsStamped m = AllUpTo m.audio_generation m.session_audio

-- As many elements as there are turns.
abbrev pub seen : List AudioQueueElem → List Turn → List AudioQueueElem
seen [] os = []
seen (e ∷ es) [] = []
seen (e ∷ es) (o ∷ os) = e ∷ seen es os

AllUpTo-snoc :
    (g : ℕ) (es : List AudioQueueElem) (e : AudioQueueElem)
    → AllUpTo g es
    → e.generation ≤ g
    → AllUpTo g (es ++ e ∷ [])
AllUpTo-snoc g [] e h l = (l, tt)
AllUpTo-snoc g (x ∷ es) e (h, hs) l = (h, AllUpTo-snoc g es e hs l)

-- An element that is queued carries the generation of the moment, so that none is ever ahead of it.
enqueue-IsStamped :
    (m : TtsManager) (e : AudioQueueElem) → IsStamped m → IsStamped (enqueue_elem m e)
unfolding enqueue_elem
enqueue-IsStamped m e h = AllUpTo-snoc m.audio_generation m.session_audio _ h (omega arith)

stale-taken :
    (m : TtsManager) (s : Sender) (o : Turn) (e : AudioQueueElem)
    → e.generation < m.audio_generation
    → on_elem m s e o ≡ (m, s, ended e.on_end true)
unfolding on_elem
stale-taken m s o e l = if_false {b = e.generation == m.audio_generation} _ _ (ground arith)

run-stale :
    (m : TtsManager) (s : Sender) (es : List AudioQueueElem) (os : List Turn) (g : ℕ)
    → AllUpTo g es
    → g < m.audio_generation
    → (run_sender_loop (record m { session_audio = es }) (record s { ready = [] }) os).1
        ≡ record s { ready = [] }
      × ((run_sender_loop (record m { session_audio = es }) (record s { ready = [] }) os).2
          ≡ drain_queue (seen es os))
unfolding run_sender_loop take_elem taken dispatch_all drain_queue
run-stale m s [] [] g h l = (refl, refl)
run-stale m s (e ∷ es) [] g h l = (refl, refl)
run-stale m s [] (o ∷ os) g h l = run-stale m s [] os g h l
run-stale m s (e ∷ es) (o ∷ os) g (h, hs) l =
    rw (stale-taken (record m { session_audio = es }) (record s { ready = [] }) o e (omega arith)) (
      (run-stale m s es os g hs l).0,
      ap (λ x. ended e.on_end true ++ x) ((run-stale m s es os g hs l).1),
    )

raised :
    (m : TtsManager) (send : Bool) (reason : Text)
    → m.audio_generation + 1 < 2 ^ 64
    → m.audio_generation < (begin_interrupt m send reason).audio_generation
unfolding begin_interrupt clear_tts_queue record_pending_interrupt_stop
raised m send reason l = ground arith

-- Once an interruption has begun, the sender loop sends nothing of what was queued before, whatever its
-- turns: it cancels each element in order, and the pace of the frames is left as it was. The queue
-- holds nothing ahead of the generation, no delayed sentence is ready, and the counter does not wrap.
pub interrupt-silences :
    (m : TtsManager) (s : Sender) (os : List Turn) (send : Bool) (reason : Text)
    → IsStamped m
    → m.audio_generation + 1 < 2 ^ 64
    → (run_sender_loop (begin_interrupt m send reason) (record s { ready = [] }) os).1
        ≡ record s { ready = [] }
      × ((run_sender_loop (begin_interrupt m send reason) (record s { ready = [] }) os).2
          ≡ drain_queue (seen m.session_audio os))
unfolding begin_interrupt clear_tts_queue record_pending_interrupt_stop
interrupt-silences m s os send reason h l =
    run-stale (begin_interrupt m send reason) s m.session_audio os m.audio_generation h
      (raised m send reason l)
