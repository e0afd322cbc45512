-- ===== src/Chat/TtsManager.antt =====
-- crates/xiaozhi-chat/src/tts_manager.rs: the queues of the speech of a session. The channels are
-- lists, callbacks are numbers, and what is sent or spawned is an effect, in the order of the calls.
-- A channel that is full only makes its sender wait, so its bound is not kept.
pub mod Sender
pub mod Delayed
pub mod Stale
pub mod Synthesis
pub mod Sentence
pub mod Pacing
pub mod Stopping
mod Tests
use Prim.Native.Nat.{max}
use xiaozhi_esp32_server_rus.Common.{
  ℕ, ◌+◌, ◌*◌, ◌/◌, ◌%◌, ◌^◌, Bool, true, false, not, ◌&&◌, ◌||◌, ◌==◌, Option, none, some, List,
  [], ◌∷◌, ◌++◌, leb, if◌then◌else◌,
}
use xiaozhi_esp32_server_rus.Common.Text.{Text, codes, is_empty, trim, contains}
use xiaozhi_esp32_server_rus.Chat.Detect.{TtsTurnEndPolicy, no_action, goodbye_and_idle}

pub data AudioQueueKind : Type 0 where
  frame sentence_start sentence_end tts_start tts_stop : AudioQueueKind

pub record AudioQueueElem : Type 0 where
  pub kind : AudioQueueKind
  pub payload : List ℕ
  pub text : Text
  pub generation : ℕ
  pub debug_reason : Text
  pub on_start : Option ℕ
  pub on_end : Option ℕ

pub record TtsQueueItem : Type 0 where
  pub text : Text
  pub generation : ℕ
  pub on_start : Option ℕ
  pub on_end : Option ℕ

pub record PendingInterruptStop : Type 0 where
  pub send_tts_stop : Bool
  pub reason : Text

-- `session_audio` and `tts_queue` are what waits in the channels.
pub record TtsManager : Type 0 where
  pub audio_generation : ℕ
  pub tts_queue_seq : ℕ
  pub dropped_tts_seq : ℕ
  pub frame_duration_ms : ℕ
  pub sender_loop_active : Bool
  pub tts_active : Bool
  pub pending_tts_jobs : ℕ
  pub pending_interrupt : Option PendingInterruptStop
  pub turn_end_policy : TtsTurnEndPolicy
  pub media_playback_active : Bool
  pub session_audio : List AudioQueueElem
  pub tts_queue : List TtsQueueItem

pub data Effect : Type 0 where
  send_tts_start send_tts_stop : Effect
  send_audio : List ℕ → Effect
  send_sentence_start send_sentence_end : Text → Effect
  call_on_start : ℕ → Effect
  call_on_end : ℕ → Bool → Effect
  phase_speaking : Effect
  start_audio_idle_window : Effect
  welcome_playback_complete : Bool → Effect
  dispatch_turn_end_policy : TtsTurnEndPolicy → Effect

-- A callback at the end of a sentence, with whether it was canceled.
abbrev pub ended : Option ℕ → Bool → List Effect
ended none canceled = []
ended (some f) canceled = call_on_end f canceled ∷ []

abbrev pub begun : Option ℕ → List Effect
begun none = []
begun (some f) = call_on_start f ∷ []

unfoldable pub new : TtsManager
new = record {
  audio_generation = 1;
  tts_queue_seq = 0;
  dropped_tts_seq = 0;
  frame_duration_ms = 60;
  sender_loop_active = false;
  tts_active = false;
  pending_tts_jobs = 0;
  pending_interrupt = none;
  turn_end_policy = no_action;
  media_playback_active = false;
  session_audio = [];
  tts_queue = [];
}

abbrev pub is_blank : Text → Bool
is_blank t = is_empty (trim t)

-- `fetch_add(1) + 1`
abbrev next_u64 : ℕ → ℕ
next_u64 n = (n + 1) % 2 ^ 64

unfoldable handle_text_response :
    TtsManager → Text → Bool → Bool → Option ℕ → Option ℕ → TtsManager × List Effect
handle_text_response m text is_start is_end on_start on_end =
    if is_blank text && not is_end
    then (m, [])
    else if not (is_blank text)
    then (let seq = next_u64 m.tts_queue_seq in
        let m' = record m { tts_queue_seq = seq } in
        let item : TtsQueueItem = record {
          text = text;
          generation = m.audio_generation;
          on_start = if is_start then on_start else none;
          on_end = if is_end then on_end else none;
        } in
        if leb seq m.dropped_tts_seq then (m', []) else (
          record m' {
            tts_queue = m.tts_queue ++ item ∷ [];
            pending_tts_jobs = next_u64 m.pending_tts_jobs;
          },
          [],
        ))
    else (m, ended on_end false)

unfoldable set_turn_end_policy : TtsManager → TtsTurnEndPolicy → TtsManager
set_turn_end_policy m policy = record m { turn_end_policy = policy }

unfoldable pub take_turn_end_policy : TtsManager → TtsManager × TtsTurnEndPolicy
take_turn_end_policy m = (record m { turn_end_policy = no_action }, m.turn_end_policy)

unfoldable pub clear_tts_queue : TtsManager → TtsManager
clear_tts_queue m = record m { dropped_tts_seq = m.tts_queue_seq }

unfoldable pub set_frame_duration_ms : TtsManager → ℕ → TtsManager
set_frame_duration_ms m ms = record m { frame_duration_ms = max ms 1 }

-- In milliseconds.
unfoldable pub sentence_control_delay : TtsManager → ℕ
sentence_control_delay m =
    let frame_ms = max m.frame_duration_ms 1 in
    let cache_frame_count = 120 / frame_ms in cache_frame_count * frame_ms

-- An element is stamped with the generation of the moment, whatever it carried.
unfoldable pub enqueue_elem : TtsManager → AudioQueueElem → TtsManager
enqueue_elem m elem = record m {
  session_audio = m.session_audio ++ record elem { generation = m.audio_generation } ∷ [];
}

abbrev merged : Option PendingInterruptStop → Bool → Text → PendingInterruptStop
merged none send reason = record { send_tts_stop = send; reason = reason }
merged (some p) send reason = record p { send_tts_stop = p.send_tts_stop || send }

unfoldable pub record_pending_interrupt_stop : TtsManager → Bool → Text → TtsManager
record_pending_interrupt_stop m send reason = record m {
  pending_interrupt = some (merged m.pending_interrupt send reason);
}

unfoldable pub should_dispatch_turn_end_policy : Bool → Text → Bool
should_dispatch_turn_end_policy send reason =
    send
    && not (contains (codes "canceled") reason)
    && not (contains (codes "Abort") reason)
    && not (contains (codes "interrupt") reason)
    && not (contains (codes "HandleListenStart") reason)
    && not (contains (codes "ResetToSilentState") reason)
    && not (contains (codes "HandleGoodByeMessage") reason)

abbrev pub dispatched : TtsTurnEndPolicy → Bool → List Effect
dispatched no_action natural = []
dispatched goodbye_and_idle natural =
    if not natural then [] else dispatch_turn_end_policy goodbye_and_idle ∷ []

unfoldable pub finish_tts_stop : TtsManager → Bool → Text → TtsManager × List Effect
unfolding take_turn_end_policy
finish_tts_stop m send reason =
    let natural = should_dispatch_turn_end_policy send reason in
    let (m', policy) = take_turn_end_policy (record m { tts_active = false }) in
    let rest =
      start_audio_idle_window ∷ welcome_playback_complete natural ∷ dispatched policy natural in
    (m', if not m.tts_active then rest else if send then send_tts_stop ∷ rest else rest)

abbrev finished : TtsManager → Option PendingInterruptStop → TtsManager × List Effect
finished m none = (m, [])
finished m (some p) =
    finish_tts_stop (record m { pending_interrupt = none }) p.send_tts_stop p.reason

unfoldable pub finish_pending_interrupt_stop : TtsManager → TtsManager × List Effect
finish_pending_interrupt_stop m = finished m m.pending_interrupt

-- The part of `interrupt_and_stop_sync` before the request to the sender loop; the loop, or this call
-- itself when there is no loop or it does not answer, finishes the stop that is pending then.
unfoldable pub begin_interrupt : TtsManager → Bool → Text → TtsManager
unfolding clear_tts_queue record_pending_interrupt_stop
begin_interrupt m send reason =
    let m' = record_pending_interrupt_stop (clear_tts_queue m) send reason in
    record m' { audio_generation = next_u64 m'.audio_generation }

-- Beside the manager: whether the media playback became exclusive. The speech is interrupted then,
-- without a stop signal.
unfoldable begin_exclusive_media_playback : TtsManager → TtsManager × Bool
unfolding clear_tts_queue begin_interrupt
begin_exclusive_media_playback m = if m.media_playback_active then (m, false) else (
  begin_interrupt (clear_tts_queue (record m { media_playback_active = true })) false
      (codes "BeginExclusiveMediaPlayback"),
  true,
)

unfoldable pub end_exclusive_media_playback : TtsManager → TtsManager
end_exclusive_media_playback m = record m { media_playback_active = false }
