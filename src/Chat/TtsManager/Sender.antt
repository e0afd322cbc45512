-- ===== src/Chat/TtsManager/Sender.antt =====
-- The sender loop of tts_manager.rs, `run_sender_loop`, one element or request at a time. Times are
-- milliseconds; the frame's packing and the transport are the chat manager's, which says whether a
-- frame went out.
use Prim.Native.Nat.{max}
use xiaozhi_esp32_server_rus.Common.{
  ℕ, ◌+◌, ◌-◌, ◌*◌, ◌/◌, Bool, true, false, Option, none, some, List, [], ◌∷◌, ◌++◌, ltb, leb, ◌==◌,
  if◌then◌else◌,
}
use xiaozhi_esp32_server_rus.Common.Text.{Text, is_empty}
use xiaozhi_esp32_server_rus.Chat.TtsManager.{
  AudioQueueElem, AudioQueueKind, frame, sentence_start, sentence_end, tts_start, tts_stop,
  TtsManager, Effect, send_tts_start, send_audio, send_sentence_start, send_sentence_end,
  phase_speaking, begun, ended, sentence_control_delay, finish_tts_stop,
  finish_pending_interrupt_stop,
}
use xiaozhi_esp32_server_rus.Chat.TtsManager.Delayed.{DelayedSentenceTask, insert_delayed_task}

abbrev tts_playback_completion_grace_ms : ℕ
tts_playback_completion_grace_ms = 150

-- `ready` holds the delayed sentences that wait in their channel, `delayed` those that are not due.
pub record Sender : Type 0 where
  pub frame_duration : ℕ
  pub allowed_ahead : ℕ
  pub playback_tail : Option ℕ
  pub delayed : List DelayedSentenceTask
  pub ready : List AudioQueueElem

-- The lengths are read once, when the loop starts.
unfoldable pub start_sender : TtsManager → Sender
start_sender m =
    let frame_ms = max m.frame_duration_ms 1 in
    let cache_frame_count = 120 / frame_ms in
    record {
      frame_duration = frame_ms;
      allowed_ahead = cache_frame_count * frame_ms;
      playback_tail = none;
      delayed = [];
      ready = [];
    }

-- How a wait goes: the sentences that come meanwhile, each with the clock after it, and then a request
-- to interrupt or the sleep, which takes `late` more than it was asked for.
pub data WaitEnd : Type 0 where
  requested : WaitEnd
  slept : ℕ → WaitEnd

pub record Wait : Type 0 where
  pub came : List (ℕ × AudioQueueElem)
  pub ending : WaitEnd

pub data SenderWaitResult : Type 0 where
  interrupted : SenderWaitResult
  reached : ℕ → SenderWaitResult

abbrev texted : (Text → Effect) → Text → List Effect
texted f text = if is_empty text then [] else f text ∷ []

abbrev dispatched_as : AudioQueueKind → AudioQueueElem → List Effect
dispatched_as sentence_start elem = begun elem.on_start ++ texted send_sentence_start elem.text
dispatched_as sentence_end elem = texted send_sentence_end elem.text ++ ended elem.on_end false
dispatched_as frame elem = []
dispatched_as tts_start elem = []
dispatched_as tts_stop elem = []

unfoldable pub dispatch_delayed_sentence : AudioQueueElem → List Effect
dispatch_delayed_sentence elem = dispatched_as elem.kind elem

abbrev wait_ended : ℕ → WaitEnd → SenderWaitResult
wait_ended deadline requested = interrupted
wait_ended deadline (slept late) = reached (deadline + late)

-- From the clock `now`; the result of a wait carries the clock at its end.
unfoldable pub wait_until_deadline :
    ℕ → ℕ → List (ℕ × AudioQueueElem) → WaitEnd → SenderWaitResult × List Effect
wait_until_deadline deadline now [] e =
    if leb deadline now then (reached now, []) else (wait_ended deadline e, [])
wait_until_deadline deadline now ((after, elem) ∷ more) e =
    let rest = wait_until_deadline deadline after more e in
    if leb deadline now
    then (reached now, [])
    else (rest.0, dispatch_delayed_sentence elem ++ rest.1)

-- A queue that is drained; the sentences that end are canceled.
unfoldable pub drain_queue : List AudioQueueElem → List Effect
drain_queue [] = []
drain_queue (elem ∷ elems) = ended elem.on_end true ++ drain_queue elems

unfoldable pub drain_on_interrupt : TtsManager → Sender → TtsManager × Sender × List Effect
drain_on_interrupt m s =
    let (m', es) = finish_pending_interrupt_stop (record m { session_audio = [] }) in
    (
      m',
      record s { ready = []; playback_tail = none },
      drain_queue m.session_audio ++ (drain_queue s.ready ++ es),
    )

-- What is outside for one element: the clock, whether a frame goes out, the waits, and the clock
-- after the first of them.
pub record Turn : Type 0 where
  pub now : ℕ
  pub goes_out : Bool
  pub wait : Wait
  pub after_wait : ℕ
  pub grace : Wait

-- The tail is moved up to the clock when it is behind.
abbrev pub caught_up : Option ℕ → ℕ → ℕ
caught_up none now = now
caught_up (some tail) now = if ltb tail now then now else tail

abbrev pub send_at : ℕ → ℕ → ℕ → ℕ
send_at tail ahead now = if ltb tail ahead then now else tail - ahead

-- A frame that has waited: with the tail that it found, and when it is sent.
unfoldable pub send_frame :
    TtsManager → Sender → AudioQueueElem → ℕ → Bool → TtsManager × Sender × List Effect
send_frame m s elem tail goes_out =
    if goes_out
    then (
      m,
      record s { playback_tail = some (tail + s.frame_duration) },
      send_audio elem.payload ∷ [],
    )
    else (m, record s { playback_tail = some tail }, [])

abbrev and_then :
    List Effect → TtsManager × Sender × List Effect → TtsManager × Sender × List Effect
and_then es (m, s, es') = (m, s, es ++ es')

unfoldable pub after_frame_wait :
    TtsManager
    → Sender
    → AudioQueueElem
    → ℕ
    → Bool
    → SenderWaitResult
    → TtsManager × Sender × List Effect
after_frame_wait m s elem tail goes_out interrupted = drain_on_interrupt m s
after_frame_wait m s elem tail goes_out (reached t) = send_frame m s elem tail goes_out

-- When the wait of a frame ends, if it is not interrupted.
unfoldable pub frame_wait : Sender → Turn → SenderWaitResult × List Effect
frame_wait s o =
    wait_until_deadline (send_at (caught_up s.playback_tail o.now) s.allowed_ahead o.now) o.now
      o.wait.came o.wait.ending

unfoldable pub on_frame :
    TtsManager → Sender → AudioQueueElem → Turn → TtsManager × Sender × List Effect
on_frame m s elem o =
    let (r, es) = frame_wait s o in
    and_then es (after_frame_wait m s elem (caught_up s.playback_tail o.now) o.goes_out r)

unfoldable pub after_grace :
    TtsManager → Sender → AudioQueueElem → SenderWaitResult → TtsManager × Sender × List Effect
after_grace m s elem interrupted = drain_on_interrupt m s
after_grace m s elem (reached t) =
    let (m', es) = finish_tts_stop m true elem.debug_reason in
    (m', record s { playback_tail = none }, es)

unfoldable pub with_grace :
    TtsManager → Sender → AudioQueueElem → ℕ → Wait → TtsManager × Sender × List Effect
with_grace m s elem now w =
    let (r, es) =
      wait_until_deadline (now + tts_playback_completion_grace_ms) now w.came w.ending in
    and_then es (after_grace m s elem r)

unfoldable pub after_tail :
    TtsManager
    → Sender
    → AudioQueueElem
    → Turn
    → SenderWaitResult
    → TtsManager × Sender × List Effect
after_tail m s elem o interrupted = drain_on_interrupt m s
after_tail m s elem o (reached t) = with_grace m s elem o.after_wait o.grace

unfoldable pub on_tts_stop :
    TtsManager → Sender → AudioQueueElem → Turn → Option ℕ → TtsManager × Sender × List Effect
on_tts_stop m s elem o none = with_grace m s elem o.after_wait o.grace
on_tts_stop m s elem o (some tail) =
    let (r, es) = wait_until_deadline tail o.now o.wait.came o.wait.ending in
    and_then es (after_tail m s elem o r)

unfoldable pub on_kind :
    AudioQueueKind → TtsManager → Sender → AudioQueueElem → Turn → TtsManager × Sender × List Effect
on_kind sentence_start m s elem o = (
  m,
  record s {
    delayed =
        insert_delayed_task s.delayed
          (record { elem = elem; execute_at = o.now + sentence_control_delay m });
  },
  [],
)
on_kind sentence_end m s elem o = (
  m,
  record s {
    delayed =
        insert_delayed_task s.delayed
          (record { elem = elem; execute_at = o.now + sentence_control_delay m });
  },
  [],
)
on_kind frame m s elem o = on_frame m s elem o
on_kind tts_start m s elem o = (
  record m { tts_active = true },
  record s { playback_tail = none },
  phase_speaking ∷ send_tts_start ∷ [],
)
on_kind tts_stop m s elem o = on_tts_stop m s elem o s.playback_tail

-- An element that was taken from the channel of the session.
unfoldable pub on_elem :
    TtsManager → Sender → AudioQueueElem → Turn → TtsManager × Sender × List Effect
on_elem m s elem o =
    if elem.generation == m.audio_generation
    then on_kind elem.kind m s elem o
    else (m, s, ended elem.on_end true)

unfoldable pub dispatch_all : List AudioQueueElem → List Effect
dispatch_all [] = []
dispatch_all (elem ∷ elems) = dispatch_delayed_sentence elem ++ dispatch_all elems

unfoldable pub taken :
    TtsManager → Sender → Turn → List AudioQueueElem → TtsManager × Sender × List Effect
taken m s o [] = (m, s, [])
taken m s o (elem ∷ elems) = on_elem (record m { session_audio = elems }) s elem o

-- One round of the loop that takes an element of the session, after the sentences that are ready.
unfoldable pub take_elem : TtsManager → Sender → Turn → TtsManager × Sender × List Effect
take_elem m s o =
    and_then (dispatch_all s.ready) (taken m (record s { ready = [] }) o m.session_audio)

-- The rounds of a list of turns.
unfoldable pub run_sender_loop : TtsManager → Sender → List Turn → TtsManager × Sender × List Effect
run_sender_loop m s [] = (m, s, [])
run_sender_loop m s (o ∷ os) =
    let (m', s', es) = take_elem m s o in and_then es (run_sender_loop m' s' os)
