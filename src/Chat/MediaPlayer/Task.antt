-- ===== src/Chat/MediaPlayer/Task.antt =====
-- The task that plays a list in media_player.rs: `run_playlist_from` in the parts between which it
-- waits. What it plays, and the frames, are not here: only whether a track was played to its end.
use xiaozhi_esp32_server_rus.Common.{
  ℕ, ◌+◌, ◌≡◌, Bool, true, not, ◌&&◌, ◌||◌, List, Option, none, some, arith, ltb, if◌then◌else◌,
  length, get_elem?,
}
use xiaozhi_esp32_server_rus.Common.Int.{pos}
use xiaozhi_esp32_server_rus.Common.Text.{is_empty}
use xiaozhi_esp32_server_rus.Chat.Playlists.{snapshot_agent_playlist, agent_playlist_len}
use xiaozhi_esp32_server_rus.Chat.MediaPlayer.{
  PlaybackRuntime, idle, playing, MediaTrack, title, source_type, is_agent_mode, pause,
}
use xiaozhi_esp32_server_rus.Chat.MediaPlayer.Agent.{Coordinator, tracks_of}

abbrev uses_agent_list : PlaybackRuntime → Bool
uses_agent_list r = is_agent_mode r.mode && not (is_empty r.agent_id)

-- The list that the next round of the loop plays from.
abbrev current_list : PlaybackRuntime → Coordinator → List MediaTrack
current_list r c =
    if uses_agent_list r then tracks_of (snapshot_agent_playlist c r.agent_id) else r.playlist

-- A round up to the playback of its track; `none` is a break.
unfoldable pub begin_track : PlaybackRuntime → Coordinator → ℕ → Option PlaybackRuntime
begin_track r c index = if r.cancelled then none else elim (get_elem? (current_list r c) index) [
  | none ↦ none
  | some track ↦ some (record r {
    playlist = current_list r c;
    current_index = pos index;
    current_title = title track;
    current_source_type = source_type track;
    status = playing;
  })
]

-- Behind the playback: the index of the next round; `none` is a break.
after_track : PlaybackRuntime → Coordinator → ℕ → Bool → Option ℕ
after_track r c index finished =
    let len = if uses_agent_list r then agent_playlist_len c r.agent_id else length r.playlist in
    if r.cancelled || not finished
    then none
    else if ltb (index + 1) len
    then some (index + 1)
    else none

-- Behind the loop.
end_playlist : PlaybackRuntime → PlaybackRuntime
end_playlist r = if not r.cancelled then record r { status = idle } else r

-- A pause that falls between two tracks is lost from the status: the next round reports playback
-- although the flag still holds the frames back.
begin_track-pause :
    (r r' : PlaybackRuntime) (c : Coordinator) (index : ℕ)
    → r.status ≡ playing
    → begin_track (pause r) c index ≡ some r'
    → (r'.status ≡ playing) × (r'.paused_flag ≡ true)
unfolding begin_track pause
begin_track-pause r r' c index p e = ground arith
