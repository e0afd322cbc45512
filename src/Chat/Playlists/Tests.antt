-- ===== src/Chat/Playlists/Tests.antt =====
-- The shared playlist of media_coordinator.rs with one track.
use xiaozhi_esp32_server_rus.Common.{ℕ, ◌≡◌, refl, [], false}
use xiaozhi_esp32_server_rus.Common.Text.{
  codes, trim, is_empty, trim_start_by, trim_end_by, is_whitespace,
}
use xiaozhi_esp32_server_rus.Common.Assoc.{lookup}
use xiaozhi_esp32_server_rus.Chat.Playlists.{
  MediaPlaybackCoordinator, ok, err, empty_agent_id, append_agent_track,
}

abbrev empty : MediaPlaybackCoordinator ℕ
empty = record { agent_playlists = [] }

first_track : (append_agent_track empty (codes "agent-1") 7 0).1 ≡ ok (0, 1)
unfolding append_agent_track lookup trim_start_by trim_end_by is_whitespace
first_track = refl

blank_id : (append_agent_track empty (codes " ") 7 0).1 ≡ err empty_agent_id
unfolding append_agent_track trim_start_by trim_end_by is_whitespace
blank_id = refl

not_blank : is_empty (trim (codes "agent-1")) ≡ false
unfolding trim_start_by trim_end_by is_whitespace
not_blank = refl
