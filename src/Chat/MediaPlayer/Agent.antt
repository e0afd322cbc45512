-- ===== src/Chat/MediaPlayer/Agent.antt =====
-- crates/xiaozhi-chat/src/media_player.rs: the methods on the playlist that the devices of an agent
-- share, and `get_state`.
use xiaozhi_esp32_server_rus.Common.{
  ℕ, ◌-◌, not, ◌&&◌, List, map, none, some, leb, ltb, if◌then◌else◌, length, get_elem?,
}
use xiaozhi_esp32_server_rus.Common.Int.{ℤ, pos, negsuc, ◌+ℤ◌, is_non_negative, to_size, rem_euclid}
use xiaozhi_esp32_server_rus.Common.Text.{Text, text_eq, trim, is_empty}
use xiaozhi_esp32_server_rus.Chat.Playlists
use xiaozhi_esp32_server_rus.Chat.Playlists.{
  MediaPlaybackCoordinator, AgentPlaylistItem, snapshot_agent_playlist, agent_playlist_len,
  append_agent_track,
}
use xiaozhi_esp32_server_rus.Chat.MediaPlayer.{
  PlaybackStatus, MediaTrack, title, can_enqueue_to_agent_playlist, PlaybackRuntime, Result,
  is_agent_mode, replace_playlist_and_play, agent_playlist, ok, err, empty_playlist, empty_agent_id,
  nothing_to_enqueue, source_refused, not_in_agent_playlist, is_nil,
}

abbrev pub Coordinator : Type 0
Coordinator = MediaPlaybackCoordinator MediaTrack

abbrev pub tracks_of : List (AgentPlaylistItem MediaTrack) → List MediaTrack
tracks_of items = map (λ i. i.track) items

-- `agent_id` is trimmed by the caller.
abbrev pub start_of : PlaybackRuntime → Text → ℕ → ℕ
start_of r agent_id len =
    if is_agent_mode r.mode && text_eq r.agent_id agent_id && is_non_negative r.current_index
    then (if ltb (to_size r.current_index) len then to_size r.current_index else 0)
    else 0

unfoldable pub play_agent_playlist :
    PlaybackRuntime → Coordinator → Text → PlaybackRuntime × Result (Unit {0})
unfolding replace_playlist_and_play
play_agent_playlist r c agent_id =
    let id = trim agent_id in
    let snapshot = tracks_of (snapshot_agent_playlist c id) in
    if is_empty id
    then (r, err empty_agent_id)
    else if is_nil snapshot
    then (r, err empty_playlist)
    else replace_playlist_and_play r snapshot (start_of r id (length snapshot)) agent_playlist id

-- The clock is the last argument; the answer is the title.
unfoldable pub enqueue_current_to_agent :
    PlaybackRuntime → Coordinator → Text → ℕ → PlaybackRuntime × Coordinator × Result Text
enqueue_current_to_agent r c agent_id now =
    let id = trim agent_id in
    if is_empty id
    then (r, c, err empty_agent_id)
    else elim (get_elem? r.playlist (to_size r.current_index)) [
      | none ↦ (r, c, err nothing_to_enqueue)
      | some track ↦
          if not (can_enqueue_to_agent_playlist track)
          then (r, c, err source_refused)
          else elim (append_agent_track c id track now).1 [
            | Playlists.err e ↦ (r, c, err empty_agent_id)
            | Playlists.ok (index, len) ↦ (
              record r { mode = agent_playlist; agent_id = id; current_index = pos index },
              (append_agent_track c id track now).0,
              ok (title track),
            )
          ]
    ]

-- Where the current index stands before the step, within a list of `len` tracks.
abbrev pub current_of : ℤ → ℤ → ℕ → ℕ
current_of index delta len =
    let edge = if is_non_negative delta then 0 else len - 1 in
    let current = if is_non_negative index then to_size index else edge in
    if leb len current then edge else current

unfoldable pub jump_agent_relative :
    PlaybackRuntime → Coordinator → ℤ → PlaybackRuntime × Result (Unit {0})
unfolding replace_playlist_and_play
jump_agent_relative r c delta =
    let snapshot = tracks_of (snapshot_agent_playlist c r.agent_id) in
    let current = current_of r.current_index delta (length snapshot) in
    if not (is_agent_mode r.mode)
    then (r, err not_in_agent_playlist)
    else if is_nil snapshot
    then (r, err empty_playlist)
    else replace_playlist_and_play r snapshot (rem_euclid (pos current +ℤ delta) (length snapshot))
        agent_playlist r.agent_id

unfoldable pub next : PlaybackRuntime → Coordinator → PlaybackRuntime × Result (Unit {0})
unfolding jump_agent_relative
next r c = jump_agent_relative r c (pos 1)

unfoldable pub prev : PlaybackRuntime → Coordinator → PlaybackRuntime × Result (Unit {0})
unfolding jump_agent_relative
prev r c = jump_agent_relative r c (negsuc 0)

pub record MediaPlayerState : Type 0 where
  pub status : PlaybackStatus
  pub current_title : Text
  pub position_ms : ℕ
  pub playlist_length : ℕ
  pub current_index : ℤ

get_state : PlaybackRuntime → Coordinator → MediaPlayerState
get_state r c = record {
  status = r.status;
  current_title = r.current_title;
  position_ms = r.position_ms;
  playlist_length =
      if is_agent_mode r.mode && not (is_empty r.agent_id)
      then agent_playlist_len c r.agent_id
      else length r.playlist;
  current_index = r.current_index;
}
