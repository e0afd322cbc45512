-- ===== src/Chat/Playlists.antt =====
-- crates/xiaozhi-chat/src/media_coordinator.rs: the playlists that the devices of an agent share.
pub mod Append
mod Tests
use xiaozhi_esp32_server_rus.Common.{
  ℕ, ◌-◌, List, [], ◌∷◌, ◌++◌, Option, none, some, if◌then◌else◌, length,
}
use xiaozhi_esp32_server_rus.Common.Text.{Text, trim, is_empty}
use xiaozhi_esp32_server_rus.Common.Assoc.{Assoc, lookup, insert}

pub record AgentPlaylistItem (Track : Type 0) : Type 0 where
  pub track : Track
  pub added_at_ms : ℕ

pub record MediaPlaybackCoordinator (Track : Type 0) : Type 0 where
  pub agent_playlists : Assoc (List (AgentPlaylistItem Track))

pub data Error : Type 0 where
  empty_agent_id : Error

pub data Result {ℓ} (A : Type ℓ) : Type ℓ where
  ok : A → Result A
  err : Error → Result A

module _ {Track : Type 0} where
  -- `unwrap_or_default()`
  abbrev pub or_empty : Option (List (AgentPlaylistItem Track)) → List (AgentPlaylistItem Track)
  or_empty none = []
  or_empty (some items) = items

  unfoldable pub snapshot_agent_playlist :
      MediaPlaybackCoordinator Track → Text → List (AgentPlaylistItem Track)
  snapshot_agent_playlist c agent_id =
      if is_empty (trim agent_id) then [] else or_empty (lookup (trim agent_id) c.agent_playlists)

  unfoldable pub agent_playlist_len : MediaPlaybackCoordinator Track → Text → ℕ
  unfolding snapshot_agent_playlist
  agent_playlist_len c agent_id = length (snapshot_agent_playlist c agent_id)

  -- The clock is the last argument; the result is the new item's index and the new length.
  unfoldable pub append_agent_track :
      MediaPlaybackCoordinator Track
      → Text
      → Track
      → ℕ
      → MediaPlaybackCoordinator Track × Result (ℕ × ℕ)
  append_agent_track c agent_id track now_ms =
      let id = trim agent_id in
      let item : AgentPlaylistItem Track = record { track = track; added_at_ms = now_ms } in
      let items = or_empty (lookup id c.agent_playlists) ++ (item ∷ []) in
      if is_empty id then (c, err empty_agent_id) else (
        record { agent_playlists = insert id items c.agent_playlists },
        ok (length items - 1, length items),
      )
