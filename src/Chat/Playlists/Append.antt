-- ===== src/Chat/Playlists/Append.antt =====
-- Appending to the shared playlists of media_coordinator.rs.
use xiaozhi_esp32_server_rus.Common.{
  ℕ, ◌+◌, ◌≡◌, ap, ◌∙◌, ◌⊎◌, inl, inr, false, List, [], ◌∷◌, ◌++◌, arith, if◌then◌else◌, Bool-cases,
  length, length-append,
}
use xiaozhi_esp32_server_rus.Common.Text.{Text, text_eq, text_eq_iff, text_eq_refl, trim, is_empty}
use xiaozhi_esp32_server_rus.Common.Assoc.{lookup, lookup-insert}
use xiaozhi_esp32_server_rus.Chat.Playlists.{
  AgentPlaylistItem, MediaPlaybackCoordinator, ok, err, empty_agent_id, or_empty,
  snapshot_agent_playlist, agent_playlist_len, append_agent_track,
}

module _ {Track : Type 0} where
  length-concat :
      (xs : List (AgentPlaylistItem Track)) (x : AgentPlaylistItem Track)
      → length (xs ++ (x ∷ [])) ≡ length xs + 1
  length-concat xs x = omega (arith, length-append xs (x ∷ []))

  -- A track that is appended for an agent stands behind that agent's tracks, at the index that is
  -- returned beside the new length, and no other agent's playlist changes, when the agent's id is not
  -- blank. Blanks around an id make no difference.
  snapshot-append :
      (c : MediaPlaybackCoordinator Track) (agent_id other : Text) (track : Track) (now : ℕ)
      → is_empty (trim agent_id) ≡ false
      → (snapshot_agent_playlist (append_agent_track c agent_id track now).0 other ≡ (
          if text_eq (trim agent_id) (trim other)
          then snapshot_agent_playlist c agent_id
            ++ (record { track = track; added_at_ms = now } ∷ [])
          else snapshot_agent_playlist c other))
        × ((append_agent_track c agent_id track now).1
            ≡ ok (agent_playlist_len c agent_id, agent_playlist_len c agent_id + 1))
  unfolding append_agent_track snapshot_agent_playlist agent_playlist_len
  snapshot-append c agent_id other track now h =
      let item : AgentPlaylistItem Track = record { track = track; added_at_ms = now } in
      let before = or_empty (lookup (trim agent_id) c.agent_playlists) in
      (
        ground (
          arith,
          h,
          text_eq_iff (trim agent_id) (trim other),
          lookup-insert (trim agent_id) (trim other) (before ++ (item ∷ [])) c.agent_playlists,
        ),
        ground (arith, h, length-concat before item),
      )

  pub append-cases :
      (c : MediaPlaybackCoordinator Track) (id : Text) (track : Track) (now : ℕ)
      → ((append_agent_track c id track now).1 ≡ err empty_agent_id)
        ⊎ ((is_empty (trim id) ≡ false)
            × ((append_agent_track c id track now).1
                ≡ ok (agent_playlist_len c id, agent_playlist_len c id + 1)))
  unfolding append_agent_track
  append-cases c id track now = elim (Bool-cases (is_empty (trim id))) [
    | inl e ↦ inl (ground arith)
    | inr e ↦ inr (e, (snapshot-append c id id track now e).1)
  ]

  pub length-snapshot_append :
      (c : MediaPlaybackCoordinator Track) (id : Text) (track : Track) (now : ℕ)
      → is_empty (trim id) ≡ false
      → length (snapshot_agent_playlist (append_agent_track c id track now).0 id)
        ≡ agent_playlist_len c id + 1
  unfolding agent_playlist_len
  length-snapshot_append c id track now h =
      ap length (
        (snapshot-append c id id track now h).0
        ∙ ap
            (λ b.
              if b
              then snapshot_agent_playlist c id
                ++ (record { track = track; added_at_ms = now } ∷ [])
              else snapshot_agent_playlist c id)
            (text_eq_refl (trim id)))
      ∙ length-concat (snapshot_agent_playlist c id) _
