-- ===== src/Chat/MediaPlayer/Enqueue.antt =====
-- Adding the current track to the shared playlist of an agent in media_player.rs.
use xiaozhi_esp32_server_rus.Common.{
  ℕ, zero, suc, ◌≤◌, ◌≡◌, refl, ap, inl, inr, false, List, [], ◌∷◌, none, some, arith, length,
  get_elem?, Option-cases, Bool-cases,
}
use xiaozhi_esp32_server_rus.Common.Int.{pos, to_size}
use xiaozhi_esp32_server_rus.Common.Text.{Text, trim, is_empty}
use xiaozhi_esp32_server_rus.Chat.Playlists
use xiaozhi_esp32_server_rus.Chat.Playlists.{
  snapshot_agent_playlist, agent_playlist_len, append_agent_track,
}
use xiaozhi_esp32_server_rus.Chat.Playlists.Append.{append-cases, length-snapshot_append}
use xiaozhi_esp32_server_rus.Chat.MediaPlayer.{
  PlaybackRuntime, PlaybackMode, agent_playlist, MediaTrack, ok, err, nothing_to_enqueue,
  invalid_index, title, is_nil, stop, recover_playback, replace_playlist_and_play,
}
use xiaozhi_esp32_server_rus.Chat.MediaPlayer.Agent.{
  Coordinator, tracks_of, enqueue_current_to_agent,
}
use xiaozhi_esp32_server_rus.Chat.MediaPlayer.Jumping.{IsAt}

-- What a successful call has done.
enqueue-ok :
    (r : PlaybackRuntime) (c : Coordinator) (agent : Text) (now : ℕ) (t : Text)
    → (enqueue_current_to_agent r c agent now).2 ≡ ok t
    → (track : MediaTrack) × (get_elem? r.playlist (to_size r.current_index) ≡ some track)
      × (title track ≡ t)
      × (is_empty (trim (trim agent)) ≡ false)
      × (enqueue_current_to_agent r c agent now ≡ (
        record r {
          mode = agent_playlist;
          agent_id = trim agent;
          current_index = pos (agent_playlist_len c (trim agent));
        },
        (append_agent_track c (trim agent) track now).0,
        ok t,
      ))
unfolding enqueue_current_to_agent
enqueue-ok r c agent now t h = elim (Bool-cases (is_empty (trim agent))) [
  | inl e ↦ absurd (ground arith)
  | inr e ↦ elim (Option-cases (get_elem? r.playlist (to_size r.current_index))) [
    | inl g ↦ absurd (ground arith)
    | inr (track, g) ↦ elim (append-cases c (trim agent) track now) [
      | inl a ↦ absurd (ground arith)
      | inr (f, a) ↦ (track, g, ground arith, f, ground arith)
    ]
  ]
]

length-tracks :
    (items : List (Playlists.AgentPlaylistItem MediaTrack))
    → length (tracks_of items) ≡ length items
length-tracks [] = refl
length-tracks (i ∷ items) = ap suc (length-tracks items)

-- A successful call leaves the runtime at the track that it added, at the end of the agent's list.
enqueue-IsAt :
    (r : PlaybackRuntime) (c : Coordinator) (agent : Text) (now : ℕ) (t : Text)
    → (enqueue_current_to_agent r c agent now).2 ≡ ok t
    → IsAt
        (enqueue_current_to_agent r c agent now).0
        (enqueue_current_to_agent r c agent now).1
        (trim agent)
        (agent_playlist_len c (trim agent))
enqueue-IsAt r c agent now t h =
    let (track, g, named, f, e) = enqueue-ok r c agent now t h in
    rw e (record {
      in_range = omega (
        arith,
        length-tracks
            (snapshot_agent_playlist (append_agent_track c (trim agent) track now).0 (trim agent)),
        length-snapshot_append c (trim agent) track now f,
      );
      index = refl;
      agent_list = refl;
      of_agent = refl;
    })

get_elem-ge : (ts : List MediaTrack) (i : ℕ) → length ts ≤ i → get_elem? ts i ≡ none
get_elem-ge [] i h = refl
get_elem-ge (t ∷ ts) zero h = absurd (omega arith)
get_elem-ge (t ∷ ts) (suc i) h = get_elem-ge ts i (omega arith)

named_of_ok :
    (r : PlaybackRuntime) (c : Coordinator) (agent : Text) (now : ℕ) (t : Text)
    → (enqueue_current_to_agent r c agent now).2 ≡ ok t
    → is_empty (trim agent) ≡ false
unfolding enqueue_current_to_agent
named_of_ok r c agent now t h = elim (Bool-cases (is_empty (trim agent))) [
  | inl e ↦ absurd (ground arith)
  | inr e ↦ e
]

nothing_left :
    (r : PlaybackRuntime) (c : Coordinator) (agent : Text) (now : ℕ)
    → is_empty (trim agent) ≡ false
    → get_elem? r.playlist (to_size r.current_index) ≡ none
    → (enqueue_current_to_agent r c agent now).2 ≡ err nothing_to_enqueue
unfolding enqueue_current_to_agent
nothing_left r c agent now h e = ground arith

is_nil-some :
    (ts : List MediaTrack) (i : ℕ) (t : MediaTrack) → get_elem? ts i ≡ some t → is_nil ts ≡ false
is_nil-some [] i t h = cc
is_nil-some (x ∷ ts) i t h = refl

replace-lost :
    (r : PlaybackRuntime) (ts : List MediaTrack) (i : ℕ) (mode : PlaybackMode) (agent : Text)
    → is_nil ts ≡ false
    → get_elem? ts i ≡ none
    → (replace_playlist_and_play r ts i mode agent).1 ≡ err invalid_index
unfolding replace_playlist_and_play
replace-lost r [] i mode agent h e = cc
replace-lost r (t ∷ ts) i mode agent h e = rw (e, replace_playlist_and_play) refl

recover-lost :
    (r : PlaybackRuntime)
    → is_nil r.playlist ≡ false
    → get_elem? r.playlist (to_size r.current_index) ≡ none
    → (recover_playback (stop r)).1 ≡ err invalid_index
unfolding recover_playback stop
recover-lost r h e =
    rw h (replace-lost _ r.playlist (to_size r.current_index) r.mode r.agent_id h e)

-- When the agent's list was at least as long as the list that plays, a successful call leaves an
-- index outside of the list that plays: until the task goes on, the current track cannot be added
-- again, and after a stop the playback is not recovered.
pub enqueue_stale :
    (r : PlaybackRuntime) (c : Coordinator) (agent : Text) (now later : ℕ) (t : Text)
    → (enqueue_current_to_agent r c agent now).2 ≡ ok t
    → length r.playlist ≤ agent_playlist_len c (trim agent)
    → ((enqueue_current_to_agent
          (enqueue_current_to_agent r c agent now).0
          (enqueue_current_to_agent r c agent now).1
          agent
          later).2
        ≡ err nothing_to_enqueue)
      × ((recover_playback (stop (enqueue_current_to_agent r c agent now).0)).1 ≡ err invalid_index)
enqueue_stale r c agent now later t h le =
    let (track, g, named, f, e) = enqueue-ok r c agent now t h in
    let gone = get_elem-ge r.playlist (agent_playlist_len c (trim agent)) le in
    rw e (
      nothing_left _ (append_agent_track c (trim agent) track now).0 agent later
          (named_of_ok r c agent now t h) gone,
      recover-lost _ (is_nil-some r.playlist _ track g) gone,
    )
