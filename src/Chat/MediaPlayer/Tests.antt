-- ===== src/Chat/MediaPlayer/Tests.antt =====
-- The media player at small inputs.
use xiaozhi_esp32_server_rus.Common.{
  ◌≤◌, ◌≡◌, refl, true, false, List, [], ◌∷◌, some, length, arith,
}
use xiaozhi_esp32_server_rus.Common.Int.{pos}
use xiaozhi_esp32_server_rus.Common.Text.{
  Text, codes, text_eq, trim, trim_start_by, trim_end_by, is_whitespace,
}
use xiaozhi_esp32_server_rus.Common.Assoc.{lookup}
use xiaozhi_esp32_server_rus.Chat.Playlists.{
  snapshot_agent_playlist, append_agent_track, agent_playlist_len,
}
use xiaozhi_esp32_server_rus.Chat.MediaPlayer.{
  PlaybackRuntime, playing, standalone, agent_playlist, http_url, no_reason, user, url, ok, err,
  nothing_to_enqueue, invalid_index, default, replace_playlist_and_play, pause, stop,
  recover_playback, can_enqueue_to_agent_playlist, realtime_mcp_audio_gate_status,
}
use xiaozhi_esp32_server_rus.Chat.MediaPlayer.Agent.{Coordinator, enqueue_current_to_agent}
use xiaozhi_esp32_server_rus.Chat.MediaPlayer.Pausing.{
  Call, plays, pauses, suspends, resumes, detaches, attaches, run, IsCoherent, run-IsCoherent,
}
use xiaozhi_esp32_server_rus.Chat.MediaPlayer.Task.{begin_track}
use xiaozhi_esp32_server_rus.Chat.MediaPlayer.Jumping.{IsAt}
use xiaozhi_esp32_server_rus.Chat.MediaPlayer.Enqueue.{enqueue_stale}

abbrev song : Text
song = codes "song"

abbrev agent : Text
agent = codes "a1"

abbrev running : PlaybackRuntime
running = record {
  status = playing;
  mode = standalone;
  agent_id = [];
  playlist = url song song ∷ [];
  current_index = pos 0;
  current_title = song;
  current_source_type = http_url;
  position_ms = 0;
  cancelled = false;
  paused_flag = false;
  task = true;
  resume_on_attach = false;
  pause_reason = no_reason;
  session_attached = true;
}

abbrev in_agent_list : PlaybackRuntime
in_agent_list = record running { mode = agent_playlist; agent_id = agent }

abbrev two_songs : Coordinator
two_songs = record {
  agent_playlists =
      (
        agent,
        record { track = url song song; added_at_ms = 0 }
            ∷ record { track = url song song; added_at_ms = 1 }
            ∷ [],
      )
      ∷ [];
}

starts_playing :
    (replace_playlist_and_play default (url song song ∷ []) 0 standalone []).0 ≡ running
unfolding replace_playlist_and_play default stop
starts_playing = refl

outside :
    (replace_playlist_and_play default (url song song ∷ []) 1 standalone []).1 ≡ err invalid_index
unfolding replace_playlist_and_play
outside = refl

web_links_do_not_gate : realtime_mcp_audio_gate_status running ≡ (false, false)
unfolding realtime_mcp_audio_gate_status
web_links_do_not_gate = refl

default-IsCoherent : IsCoherent default
unfolding default
default-IsCoherent = record { flagged = refl; unexplained = refl; backed = refl }

running-IsCoherent : IsCoherent running
running-IsCoherent = record { flagged = refl; unexplained = refl; backed = refl }

abbrev calls : List Call
calls =
    plays (url song song ∷ []) 0 standalone []
    ∷ suspends
    ∷ resumes
    ∷ detaches true
    ∷ attaches
    ∷ pauses
    ∷ []

run-IsCoherent_example : IsCoherent (run default calls)
run-IsCoherent_example = run-IsCoherent default calls default-IsCoherent

abbrev second_round : PlaybackRuntime
second_round = record in_agent_list {
  playlist = url song song ∷ url song song ∷ [];
  current_index = pos 1;
  paused_flag = true;
  pause_reason = user;
}

begins : begin_track (pause in_agent_list) two_songs 1 ≡ some second_round
unfolding begin_track pause snapshot_agent_playlist trim_start_by trim_end_by is_whitespace lookup
    text_eq
begins = refl

first-IsAt : IsAt in_agent_list two_songs agent 0
unfolding snapshot_agent_playlist trim_start_by trim_end_by is_whitespace lookup text_eq
first-IsAt = record { in_range = omega arith; index = refl; agent_list = refl; of_agent = refl }

added : (enqueue_current_to_agent running two_songs agent 7).2 ≡ ok song
unfolding enqueue_current_to_agent can_enqueue_to_agent_playlist append_agent_track trim_start_by
    trim_end_by is_whitespace lookup text_eq
added = refl

short_list : length running.playlist ≤ agent_playlist_len two_songs (trim agent)
unfolding agent_playlist_len snapshot_agent_playlist trim_start_by trim_end_by is_whitespace lookup
    text_eq
short_list = omega arith

enqueue_stale_example :
    ((enqueue_current_to_agent
        (enqueue_current_to_agent running two_songs agent 7).0
        (enqueue_current_to_agent running two_songs agent 7).1
        agent
        8).2
      ≡ err nothing_to_enqueue)
    × ((recover_playback (stop (enqueue_current_to_agent running two_songs agent 7).0)).1
        ≡ err invalid_index)
enqueue_stale_example = enqueue_stale running two_songs agent 7 8 song added short_list
