-- ===== src/Chat/MediaPlayer.antt =====
-- crates/xiaozhi-chat/src/media_player.rs: the media player of a device. Each method is one step on
-- the runtime; those on shared playlists are in Chat/MediaPlayer/Agent, and the task that plays is in
-- Chat/MediaPlayer/Task.
pub mod Task
pub mod Pausing
pub mod Agent
pub mod Jumping
pub mod Enqueue
mod Tests
use xiaozhi_esp32_server_rus.Common.{
  ℕ, ◌-◌, ◌%◌, Bool, true, false, not, ◌&&◌, ◌||◌, List, [], ◌∷◌, map, Option, none, some, leb, ltb,
  if◌then◌else◌, length, get_elem?,
}
use xiaozhi_esp32_server_rus.Common.Int.{ℤ, pos, negsuc, ◌+ℤ◌, is_non_negative, to_size, rem_euclid}
use xiaozhi_esp32_server_rus.Common.Json.{Json}
use xiaozhi_esp32_server_rus.Common.Text.{Text, text_eq, trim, is_empty}
use xiaozhi_esp32_server_rus.Chat.Playlists
use xiaozhi_esp32_server_rus.Chat.Playlists.{
  MediaPlaybackCoordinator, AgentPlaylistItem, snapshot_agent_playlist, agent_playlist_len,
  append_agent_track,
}

pub data MediaSourceType : Type 0 where
  http_url mcp_resource inline_audio : MediaSourceType

pub data PlaybackStatus : Type 0 where
  idle playing paused stopped failed : PlaybackStatus

pub data PlaybackMode : Type 0 where
  standalone agent_playlist : PlaybackMode

pub data MediaPauseReason : Type 0 where
  no_reason user interrupt : MediaPauseReason

pub data MediaTrack : Type 0 where
  bytes : Text → List ℕ → Text → MediaSourceType → MediaTrack
  url : Text → Text → MediaTrack
  resource : Text → Text → Text → Json → MediaTrack

abbrev pub title : MediaTrack → Text
title (bytes t payload format source) = t
title (url t link) = t
title (resource t tool uri args) = t

abbrev pub source_type : MediaTrack → MediaSourceType
source_type (bytes t payload format source) = source
source_type (url t link) = http_url
source_type (resource t tool uri args) = mcp_resource

abbrev is_inline : MediaSourceType → Bool
is_inline inline_audio = true
is_inline _ = false

pub can_enqueue_to_agent_playlist : MediaTrack → Bool
can_enqueue_to_agent_playlist track = not (is_inline (source_type track))

-- `task` says whether a task is held, `cancelled` is the token of the last one, and
-- `paused_flag` is the flag that the task reads.
pub record PlaybackRuntime : Type 0 where
  pub status : PlaybackStatus
  pub mode : PlaybackMode
  pub agent_id : Text
  pub playlist : List MediaTrack
  pub current_index : ℤ
  pub current_title : Text
  pub current_source_type : MediaSourceType
  pub position_ms : ℕ
  pub cancelled : Bool
  pub paused_flag : Bool
  pub task : Bool
  pub resume_on_attach : Bool
  pub pause_reason : MediaPauseReason
  pub session_attached : Bool

pub default : PlaybackRuntime
default = record {
  status = idle;
  mode = standalone;
  agent_id = [];
  playlist = [];
  current_index = negsuc 0;
  current_title = [];
  current_source_type = http_url;
  position_ms = 0;
  cancelled = false;
  paused_flag = false;
  task = false;
  resume_on_attach = false;
  pause_reason = no_reason;
  session_attached = true;
}

pub data Error : Type 0 where
  empty_playlist invalid_index empty_agent_id nothing_to_enqueue source_refused : Error
  not_in_agent_playlist : Error

pub data Result {ℓ} (A : Type ℓ) : Type ℓ where
  ok : A → Result A
  err : Error → Result A

abbrev pub is_playing_status : PlaybackStatus → Bool
is_playing_status playing = true
is_playing_status _ = false

abbrev pub is_paused_status : PlaybackStatus → Bool
is_paused_status paused = true
is_paused_status _ = false

abbrev pub is_agent_mode : PlaybackMode → Bool
is_agent_mode agent_playlist = true
is_agent_mode standalone = false

abbrev is_interrupt : MediaPauseReason → Bool
is_interrupt interrupt = true
is_interrupt _ = false

is_playing : PlaybackRuntime → Bool
is_playing r = is_playing_status r.status

pub stop : PlaybackRuntime → PlaybackRuntime
stop r = record r {
  cancelled = true;
  paused_flag = false;
  resume_on_attach = false;
  pause_reason = no_reason;
  task = false;
  status = stopped;
  position_ms = 0;
}

abbrev started :
    PlaybackRuntime → List MediaTrack → ℕ → PlaybackMode → Text → MediaTrack → PlaybackRuntime
started r tracks start mode agent_id track = record r {
  mode = mode;
  agent_id = agent_id;
  playlist = tracks;
  current_index = pos start;
  current_title = title track;
  current_source_type = source_type track;
  position_ms = 0;
  status = playing;
  cancelled = false;
  paused_flag = false;
  session_attached = true;
  task = true;
}

-- `start_index >= playlist.len()` is the case in which the list has no such element.
pub replace_playlist_and_play :
    PlaybackRuntime
    → List MediaTrack
    → ℕ
    → PlaybackMode
    → Text
    → PlaybackRuntime × Result (Unit {0})
unfolding stop
replace_playlist_and_play r [] start mode agent_id = (r, err empty_playlist)
replace_playlist_and_play r (t ∷ ts) start mode agent_id = elim (get_elem? (t ∷ ts) start) [
  | none ↦ (r, err invalid_index)
  | some track ↦ (started (stop r) (t ∷ ts) start mode agent_id track, ok tt)
]

play_inline_audio : PlaybackRuntime → Text → List ℕ → Text → PlaybackRuntime × Result (Unit {0})
unfolding replace_playlist_and_play
play_inline_audio r t payload format =
    replace_playlist_and_play r (bytes t payload format inline_audio ∷ []) 0 standalone []

play_mcp_resource :
    PlaybackRuntime → Text → Text → Text → Json → PlaybackRuntime × Result (Unit {0})
unfolding replace_playlist_and_play
play_mcp_resource r t tool uri args =
    replace_playlist_and_play r (resource t tool uri args ∷ []) 0 standalone []

play_url : PlaybackRuntime → Text → Text → PlaybackRuntime × Result (Unit {0})
unfolding replace_playlist_and_play
play_url r t link = replace_playlist_and_play r (url t link ∷ []) 0 standalone []

pub pause : PlaybackRuntime → PlaybackRuntime
pause r = if not (is_playing_status r.status) then r else record r {
  paused_flag = true;
  status = paused;
  pause_reason = user;
  resume_on_attach = false;
}

pub suspend : PlaybackRuntime → PlaybackRuntime
suspend r =
    if not (is_playing_status r.status)
    then r
    else record r { paused_flag = true; status = paused; pause_reason = interrupt }

pub resume_if_interrupted_pause : PlaybackRuntime → PlaybackRuntime × Bool
resume_if_interrupted_pause r =
    if not (is_paused_status r.status && is_interrupt r.pause_reason && r.task)
    then (r, false)
    else (
      record r {
        paused_flag = false;
        status = playing;
        pause_reason = no_reason;
        resume_on_attach = false;
      },
      true,
    )

abbrev pub is_nil : List MediaTrack → Bool
is_nil [] = true
is_nil (t ∷ ts) = false

pub recover_playback : PlaybackRuntime → PlaybackRuntime × Result (Unit {0})
unfolding replace_playlist_and_play
recover_playback r =
    if is_nil r.playlist
    then (record r { resume_on_attach = false }, ok tt)
    else if is_paused_status r.status
    then (
      record r {
        resume_on_attach = false;
        paused_flag = false;
        status = playing;
        pause_reason = no_reason;
      },
      ok tt,
    )
    else replace_playlist_and_play (record r { resume_on_attach = false }) r.playlist
        (to_size r.current_index) r.mode r.agent_id

-- A failure of the recovery is only logged.
pub attach_session : PlaybackRuntime → PlaybackRuntime
unfolding recover_playback
attach_session r =
    let attached = record r { session_attached = true } in
    if not r.resume_on_attach then attached else (recover_playback attached).0

pub detach_session : PlaybackRuntime → Bool → PlaybackRuntime
unfolding stop
detach_session r preserve =
    if preserve
    then (let detached = record r { session_attached = false } in
        if is_playing_status r.status
        then record detached { paused_flag = true; status = paused; resume_on_attach = true }
        else detached)
    else stop r

-- `realtime_mcp_audio_gate_status`: whether the playback can be controlled, and whether it gates
-- speech recognition.
pub realtime_mcp_audio_gate_status : PlaybackRuntime → Bool × Bool
realtime_mcp_audio_gate_status r = elim r.current_source_type [
  | http_url ↦ (false, false)
  | _ ↦
      (let can_control = r.task || r.resume_on_attach || is_paused_status r.status in
        if not r.task || not r.session_attached || not (is_playing_status r.status)
        then (can_control, false)
        else (true, not r.paused_flag))
]
