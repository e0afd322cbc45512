-- ===== src/Chat/MediaPlayer/Jumping.antt =====
-- Stepping through the shared playlist of an agent in media_player.rs.
use native.Mathlib.Nat.{mod-lt, mod-eq_of_lt, mod_self, zero-mod}
use xiaozhi_esp32_server_rus.Common.{
  ℕ, zero, suc, ◌+◌, ◌-◌, ◌%◌, ◌<◌, ◌≡◌, ◌≢◌, refl, ap, ◌∙◌, inl, inr, false, List, [], ◌∷◌, none,
  arith, leb, ltb, if◌then◌else◌, length, get_elem?, Option-cases, Bool-cases,
}
use xiaozhi_esp32_server_rus.Common.Int.{ℤ, pos, negsuc, ◌+ℤ◌, difference, rem_euclid}
use xiaozhi_esp32_server_rus.Common.Text.{Text}
use xiaozhi_esp32_server_rus.Chat.Playlists.{snapshot_agent_playlist}
use xiaozhi_esp32_server_rus.Chat.MediaPlayer.{
  PlaybackRuntime, agent_playlist, MediaTrack, is_agent_mode, is_nil, replace_playlist_and_play,
}
use xiaozhi_esp32_server_rus.Chat.MediaPlayer.Agent.{
  Coordinator, tracks_of, current_of, jump_agent_relative, next, prev,
}

get_elem-lt {ℓ} : {A : Type ℓ} → (xs : List A) (i : ℕ) → i < length xs → get_elem? xs i ≢ none
get_elem-lt [] i h = absurd (omega arith)
get_elem-lt (x ∷ xs) zero h = λ e. cc
get_elem-lt (x ∷ xs) (suc i) h = get_elem-lt xs i (omega arith)

rem_euclid-lt : (z : ℤ) (n : ℕ) → 0 < n → rem_euclid z n < n
rem_euclid-lt (pos a) n h = mod-lt a h
rem_euclid-lt (negsuc a) n h = omega arith

abbrev agent_tracks : Coordinator → Text → List MediaTrack
agent_tracks c agent = tracks_of (snapshot_agent_playlist c agent)

-- The runtime shows the track at an index of the list of an agent.
pub record IsAt (r : PlaybackRuntime) (c : Coordinator) (agent : Text) (i : ℕ) : Type 0 where
  pub in_range : i < length (tracks_of (snapshot_agent_playlist c agent))
  pub index : r.current_index ≡ pos i
  pub agent_list : r.mode ≡ agent_playlist
  pub of_agent : r.agent_id ≡ agent

replace-IsAt :
    (r : PlaybackRuntime) (tracks : List MediaTrack) (i : ℕ) (agent : Text)
    → i < length tracks
    → ((replace_playlist_and_play r tracks i agent_playlist agent).0.current_index ≡ pos i)
      × ((replace_playlist_and_play r tracks i agent_playlist agent).0.mode ≡ agent_playlist)
      × ((replace_playlist_and_play r tracks i agent_playlist agent).0.agent_id ≡ agent)
unfolding replace_playlist_and_play
replace-IsAt r [] i agent h = absurd (omega arith)
replace-IsAt r (t ∷ ts) i agent h = elim (Option-cases (get_elem? (t ∷ ts) i)) [
  | inl e ↦ absurd (get_elem-lt (t ∷ ts) i h e)
  | inr (track, e) ↦ rw (e, replace_playlist_and_play) (refl, refl, refl)
]

is_nil-length : (ts : List MediaTrack) → 0 < length ts → is_nil ts ≡ false
is_nil-length [] h = absurd (omega arith)
is_nil-length (t ∷ ts) h = refl

at_index : (d : ℤ) (i n : ℕ) → i < n → current_of (pos i) d n ≡ i
at_index d i n h = ground arith

-- A step by `delta` in agent mode, from a track of the agent's list, ends at the track that is as
-- many places away on the ring of the list.
jump-IsAt :
    (r : PlaybackRuntime) (c : Coordinator) (agent : Text) (delta : ℤ) (i : ℕ)
    → IsAt r c agent i
    → IsAt
        (jump_agent_relative r c delta).0
        c
        agent
        (rem_euclid (pos i +ℤ delta) (length (tracks_of (snapshot_agent_playlist c agent))))
unfolding jump_agent_relative
jump-IsAt r c agent delta i v =
    let n = length (agent_tracks c agent) in
    let j = rem_euclid (pos i +ℤ delta) n in
    let lt = rem_euclid-lt (pos i +ℤ delta) n (omega (arith, v.in_range)) in
    let moved = replace-IsAt r (agent_tracks c agent) j r.agent_id lt in
    rw
      (
        ap (agent_tracks c) v.of_agent,
        is_nil-length (agent_tracks c agent) (omega (arith, v.in_range)),
        ap (λ z. current_of z delta n) v.index ∙ at_index delta i n v.in_range,
        ap is_agent_mode v.agent_list,
      )
      (record {
        in_range = lt;
        index = moved.0;
        agent_list = moved.1;
        of_agent = moved.2 ∙ v.of_agent;
      })

next_of : (i n : ℕ) → i < n → (i + 1) % n ≡ (if ltb (i + 1) n then i + 1 else 0)
next_of i n h = elim (Bool-cases (ltb (i + 1) n)) [
  | inl e ↦ rw e (mod-eq_of_lt (ground arith))
  | inr e ↦ rw e (ap (λ m. m % n) (at_end i n h e) ∙ mod_self n)
]
  where
    at_end : (i n : ℕ) → i < n → ltb (i + 1) n ≡ false → i + 1 ≡ n
    at_end i n h e = ground arith

prev_of : (i n : ℕ) → i < n → rem_euclid (difference i 1) n ≡ (if leb 1 i then i - 1 else n - 1)
prev_of zero n h = rw (zero-mod n) (ground arith)
prev_of (suc i) n h = ap (λ z. rem_euclid z n) less_one ∙ (small ∙ ground arith)
  where
    less_one : difference (suc i) 1 ≡ pos i
    less_one = ground arith

    small : i % n ≡ i
    small = mod-eq_of_lt (omega arith)

prev_of_next : (i n : ℕ) → i < n → rem_euclid (difference ((i + 1) % n) 1) n ≡ i
prev_of_next i n h = prev_of ((i + 1) % n) n (mod-lt (i + 1) (omega arith)) ∙ back (next_of i n h)
  where
    back :
        {j : ℕ} → j ≡ (if ltb (i + 1) n then i + 1 else 0) → (if leb 1 j then j - 1 else n - 1) ≡ i
    back e = ground arith

next_of_prev : (i n : ℕ) → i < n → (rem_euclid (difference i 1) n + 1) % n ≡ i
next_of_prev i n h =
    back (prev_of i n h)
      (next_of (rem_euclid (difference i 1) n) n (rem_euclid-lt (difference i 1) n (omega arith)))
  where
    back :
        {j : ℕ}
        → j ≡ (if leb 1 i then i - 1 else n - 1)
        → (j + 1) % n ≡ (if ltb (j + 1) n then j + 1 else 0)
        → (j + 1) % n ≡ i
    back e f = ground arith

-- In agent mode, with a track of the agent's list shown, `next` and `prev` undo each other.
next-prev :
    (r : PlaybackRuntime) (c : Coordinator) (agent : Text) (i : ℕ)
    → IsAt r c agent i
    → IsAt (prev (next r c).0 c).0 c agent i × IsAt (next (prev r c).0 c).0 c agent i
unfolding next prev
next-prev r c agent i v =
    let n = length (agent_tracks c agent) in
    (
      rw⁻¹ (prev_of_next i n v.in_range)
          (jump-IsAt _ c agent (negsuc 0) _ (jump-IsAt r c agent (pos 1) i v)),
      rw⁻¹ (next_of_prev i n v.in_range)
          (jump-IsAt _ c agent (pos 1) _ (jump-IsAt r c agent (negsuc 0) i v)),
    )
