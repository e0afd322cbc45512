-- ===== src/Chat/MediaPlayer/Pausing.antt =====
-- Pausing and resuming in media_player.rs.
use xiaozhi_esp32_server_rus.Common.{
  ℕ, ◌≡◌, refl, Bool, true, false, not, ◌&&◌, ◌||◌, List, [], ◌∷◌, arith, length, get_elem?,
  Option-cases, Bool-cases, inl, inr,
}
use xiaozhi_esp32_server_rus.Common.Int.{ℤ, pos, ◌+ℤ◌, rem_euclid}
use xiaozhi_esp32_server_rus.Common.Text.{Text, trim, is_empty}
use xiaozhi_esp32_server_rus.Chat.Playlists.{snapshot_agent_playlist}
use xiaozhi_esp32_server_rus.Chat.MediaPlayer.Agent.{
  Coordinator, tracks_of, start_of, current_of, play_agent_playlist, jump_agent_relative,
  enqueue_current_to_agent,
}
use xiaozhi_esp32_server_rus.Chat.MediaPlayer.{
  PlaybackRuntime, playing, PlaybackMode, agent_playlist, is_agent_mode, MediaTrack,
  MediaPauseReason, no_reason, user, interrupt, stop, pause, suspend, resume_if_interrupted_pause,
  recover_playback, attach_session, detach_session, replace_playlist_and_play, is_playing_status,
  is_nil, is_paused_status,
}

-- The calls of a client; those that consult the shared playlists carry them as they are at that time.
pub data Call : Type 0 where
  plays : List MediaTrack → ℕ → PlaybackMode → Text → Call
  stops pauses suspends resumes recovers attaches : Call
  detaches : Bool → Call
  plays_agent_list : Coordinator → Text → Call
  jumps : Coordinator → ℤ → Call
  enqueues : Coordinator → Text → ℕ → Call

pub step : PlaybackRuntime → Call → PlaybackRuntime
step r (plays tracks start mode agent_id) =
    (replace_playlist_and_play r tracks start mode agent_id).0
step r stops = stop r
step r pauses = pause r
step r suspends = suspend r
step r resumes = (resume_if_interrupted_pause r).0
step r recovers = (recover_playback r).0
step r attaches = attach_session r
step r (detaches preserve) = detach_session r preserve
step r (plays_agent_list c agent_id) = (play_agent_playlist r c agent_id).0
step r (jumps c delta) = (jump_agent_relative r c delta).0
step r (enqueues c agent_id now) = (enqueue_current_to_agent r c agent_id now).0

pub run : PlaybackRuntime → List Call → PlaybackRuntime
run r [] = r
run r (c ∷ cs) = run (step r c) cs

abbrev has_reason : MediaPauseReason → Bool
has_reason no_reason = false
has_reason _ = true

-- The flag that holds the task back is set exactly while the status is paused, a playing runtime has
-- no reason for a pause, and what plays or is paused has a task whose token is live.
pub record IsCoherent (r : PlaybackRuntime) : Type 0 where
  pub flagged : r.paused_flag ≡ is_paused_status r.status
  pub unexplained : (is_playing_status r.status && has_reason r.pause_reason) ≡ false
  pub backed :
      ((is_playing_status r.status || is_paused_status r.status) && (not r.task || r.cancelled))
      ≡ false

replace-IsCoherent :
    (r : PlaybackRuntime) (tracks : List MediaTrack) (start : ℕ) (mode : PlaybackMode)
    (agent : Text)
    → IsCoherent r
    → IsCoherent (replace_playlist_and_play r tracks start mode agent).0
unfolding replace_playlist_and_play
replace-IsCoherent r [] start mode agent v = v
replace-IsCoherent r (t ∷ ts) start mode agent v = elim (Option-cases (get_elem? (t ∷ ts) start)) [
  | inl e ↦ rw (e, replace_playlist_and_play) v
  | inr (track, e) ↦
      rw (e, replace_playlist_and_play)
        (record { flagged = refl; unexplained = refl; backed = refl })
]

recover-IsCoherent : (r : PlaybackRuntime) → IsCoherent r → IsCoherent (recover_playback r).0
unfolding recover_playback
recover-IsCoherent r v = elim (Bool-cases (is_nil r.playlist)) [
  | inl e ↦ rw e (ground arith)
  | inr e ↦ elim (Bool-cases (is_paused_status r.status)) [
    | inl p ↦ rw (e, p) (ground arith)
    | inr p ↦
        rw (e, p)
          (replace-IsCoherent (record r { resume_on_attach = false }) r.playlist _ r.mode r.agent_id
            (ground arith))
  ]
]

attach-IsCoherent : (r : PlaybackRuntime) → IsCoherent r → IsCoherent (attach_session r)
unfolding attach_session
attach-IsCoherent r v = elim (Bool-cases r.resume_on_attach) [
  | inl e ↦ rw e (recover-IsCoherent (record r { session_attached = true }) (ground arith))
  | inr e ↦ rw e (ground arith)
]

play_agent-IsCoherent :
    (r : PlaybackRuntime) (c : Coordinator) (agent : Text)
    → IsCoherent r
    → IsCoherent (play_agent_playlist r c agent).0
unfolding play_agent_playlist
play_agent-IsCoherent r c agent v = elim (Bool-cases (is_empty (trim agent))) [
  | inl e ↦ rw e v
  | inr e ↦ elim (Bool-cases (is_nil (tracks_of (snapshot_agent_playlist c (trim agent))))) [
    | inl n ↦ rw (e, n) v
    | inr n ↦
        rw (e, n)
          (replace-IsCoherent r (tracks_of (snapshot_agent_playlist c (trim agent)))
            (start_of r (trim agent) (length (tracks_of (snapshot_agent_playlist c (trim agent)))))
            agent_playlist (trim agent) v)
  ]
]

jump-IsCoherent :
    (r : PlaybackRuntime) (c : Coordinator) (delta : ℤ)
    → IsCoherent r
    → IsCoherent (jump_agent_relative r c delta).0
unfolding jump_agent_relative
jump-IsCoherent r c delta v = elim (Bool-cases (is_agent_mode r.mode)) [
  | inl e ↦ elim (Bool-cases (is_nil (tracks_of (snapshot_agent_playlist c r.agent_id)))) [
    | inl n ↦ rw (e, n) v
    | inr n ↦
        rw (e, n)
          (let tracks = tracks_of (snapshot_agent_playlist c r.agent_id) in
            replace-IsCoherent r tracks
              (rem_euclid (pos (current_of r.current_index delta (length tracks)) +ℤ delta)
                (length tracks))
              agent_playlist r.agent_id v)
  ]
  | inr e ↦ rw e v
]

enqueue-IsCoherent :
    (r : PlaybackRuntime) (c : Coordinator) (agent : Text) (now : ℕ)
    → IsCoherent r
    → IsCoherent (enqueue_current_to_agent r c agent now).0
unfolding enqueue_current_to_agent
enqueue-IsCoherent r c agent now v = ground arith

step-IsCoherent : (r : PlaybackRuntime) (c : Call) → IsCoherent r → IsCoherent (step r c)
unfolding step stop pause suspend resume_if_interrupted_pause detach_session
step-IsCoherent r (plays tracks start mode agent) v = replace-IsCoherent r tracks start mode agent v
step-IsCoherent r stops v = ground arith
step-IsCoherent r pauses v = ground arith
step-IsCoherent r suspends v = ground arith
step-IsCoherent r resumes v = ground arith
step-IsCoherent r recovers v = recover-IsCoherent r v
step-IsCoherent r attaches v = attach-IsCoherent r v
step-IsCoherent r (detaches preserve) v = ground arith
step-IsCoherent r (plays_agent_list c agent) v = play_agent-IsCoherent r c agent v
step-IsCoherent r (jumps c delta) v = jump-IsCoherent r c delta v
step-IsCoherent r (enqueues c agent now) v = enqueue-IsCoherent r c agent now v

-- Every sequence of calls of a client keeps a runtime coherent, while the task itself writes nothing.
pub run-IsCoherent : (r : PlaybackRuntime) (cs : List Call) → IsCoherent r → IsCoherent (run r cs)
unfolding run
run-IsCoherent r [] v = v
run-IsCoherent r (c ∷ cs) v = run-IsCoherent (step r c) cs (step-IsCoherent r c v)

no_reason_of : (m : MediaPauseReason) → has_reason m ≡ false → m ≡ no_reason
no_reason_of no_reason h = refl
no_reason_of user h = cc
no_reason_of interrupt h = cc

-- An interruption of a playing and coherent runtime is ended by the automatic resume, which leaves
-- the runtime as it was before, but without the mark for a resume at the next attach. A pause by the
-- user is not.
resume-pause :
    (r : PlaybackRuntime)
    → IsCoherent r
    → r.status ≡ playing
    → (resume_if_interrupted_pause (suspend r) ≡ (record r { resume_on_attach = false }, true))
      × (resume_if_interrupted_pause (pause r) ≡ (pause r, false))
unfolding pause suspend resume_if_interrupted_pause
resume-pause r v p = ground (arith, no_reason_of r.pause_reason, v.flagged, v.unexplained, v.backed)

-- A pause by the user during an interruption of a playing and coherent runtime has no effect: the
-- next automatic resume plays on.
pause-suspend :
    (r : PlaybackRuntime)
    → IsCoherent r
    → r.status ≡ playing
    → ((resume_if_interrupted_pause (pause (suspend r))).1 ≡ true)
      × ((resume_if_interrupted_pause (pause (suspend r))).0.status ≡ playing)
unfolding pause suspend resume_if_interrupted_pause
pause-suspend r v p = ground arith
