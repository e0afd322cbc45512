-- ===== src/Chat/MediaGate/Matching.antt =====
-- Which utterances the rules of realtime_media_gate.rs catch.
use xiaozhi_esp32_server_rus.Common.{
  ℕ, ◌≡◌, ◌↔◌, ◌⊎◌, inl, inr, refl, sym, ap, ◌∙◌, Bool, true, false, not, ◌&&◌, List, [], ◌∷◌, none,
  some, arith, any, all, keep, Bool-cases,
}
use xiaozhi_esp32_server_rus.Common.Text.{
  Text, codes, is_empty, trim, trim_start_by, trim_end_by, is_whitespace, contains, starts_with,
  is_ascii_punctuation,
}
use xiaozhi_esp32_server_rus.Chat.Detect.{remove_punctuation, is_kept}
use xiaozhi_esp32_server_rus.Chat.MediaGate.{
  Lowercase, ControlRule, control_rules, normalize_gate_text, hits, first_action,
  detect_media_control_action, is_media_exit_command,
}

is_empty-nil : (s : Text) → is_empty s ≡ true → s ≡ []
is_empty-nil [] h = refl
is_empty-nil (c ∷ s) h = cc

-- A filter does not see what trimming drops, if it drops it too.
module _ (p q : ℕ → Bool) (apart : (c : ℕ) → p c ≡ true → q c ≡ false) where
  keep-trim_start : (s : Text) → keep q (trim_start_by p s) ≡ keep q s
  unfolding trim_start_by
  keep-trim_start [] = refl
  keep-trim_start (c ∷ s) = ground (arith, keep-trim_start s, apart c)

  keep-trim_end : (s : Text) → keep q (trim_end_by p s) ≡ keep q s
  unfolding trim_end_by
  keep-trim_end [] = refl
  keep-trim_end (c ∷ s) = elim (Bool-cases (is_empty (trim_end_by p s) && p c)) [
    | inl e ↦ rw e (ground (arith, keep-trim_end s, apart c, is_empty-nil (trim_end_by p s)))
    | inr e ↦ rw e (ground (arith, keep-trim_end s))
  ]

keep_idem : (q : ℕ → Bool) (s : Text) → keep q (keep q s) ≡ keep q s
keep_idem q [] = refl
keep_idem q (c ∷ s) = ground (arith, keep_idem q s)

whitespace_dropped : (c : ℕ) → is_whitespace c ≡ true → is_kept c ≡ false
whitespace_dropped c h = ground arith

contains_of_start : (k s : Text) → starts_with k s ≡ true → contains k s ≡ true
unfolding contains starts_with
contains_of_start [] [] h = refl
contains_of_start [] (c ∷ s) h = refl
contains_of_start (x ∷ k) [] h = cc
contains_of_start (x ∷ k) (c ∷ s) h = ground arith

contains_tail : (x : ℕ) (k s : Text) → contains (x ∷ k) s ≡ true → contains k s ≡ true
unfolding contains starts_with
contains_tail x k [] h = cc
contains_tail x k (c ∷ s) h = ground (arith, contains_tail x k s, contains_of_start k s)

module _ (case : Lowercase) where
  normalize-remove_punctuation :
      (text : Text)
      → normalize_gate_text case (remove_punctuation text) ≡ normalize_gate_text case text
  unfolding normalize_gate_text remove_punctuation
  normalize-remove_punctuation text =
      ap case.to_lowercase
        (kept_of_trim (keep is_kept text) ∙ (keep_idem is_kept text ∙ sym (kept_of_trim text)))
    where
      kept_of_trim : (s : Text) → keep is_kept (trim s) ≡ keep is_kept s
      kept_of_trim s =
          keep-trim_end is_whitespace is_kept whitespace_dropped (trim_start_by is_whitespace s)
          ∙ keep-trim_start is_whitespace is_kept whitespace_dropped s

  -- Punctuation and blanks, wherever they stand, change neither the command that is detected nor
  -- whether a text ends the playback.
  gate-remove_punctuation :
      (text : Text)
      → (detect_media_control_action case (remove_punctuation text)
          ≡ detect_media_control_action case text)
        × (is_media_exit_command case (remove_punctuation text) ≡ is_media_exit_command case text)
  unfolding detect_media_control_action is_media_exit_command
  gate-remove_punctuation text =
      (rw (normalize-remove_punctuation text) refl, rw (normalize-remove_punctuation text) refl)

  playlist_keyword : normalize_gate_text case (codes "播放列表") ≡ codes "播放列表"
  unfolding normalize_gate_text remove_punctuation trim_end_by trim_start_by is_whitespace
      is_ascii_punctuation
  playlist_keyword = case.caseless (codes "播放列表") refl

  not_empty_of_contains : (x : ℕ) (k s : Text) → contains (x ∷ k) s ≡ true → is_empty s ≡ false
  unfolding contains
  not_empty_of_contains x k [] h = cc
  not_empty_of_contains x k (c ∷ s) h = refl

  playlist_hit :
      (normalized : Text)
      → contains (codes "播放列表") normalized ≡ true
      → hits case normalized (codes "播放列表") ≡ true
  unfolding hits
  playlist_hit normalized h = rw (playlist_keyword, h) refl

  playlist_first :
      (text : Text)
      → contains (codes "播放列表") (normalize_gate_text case text) ≡ true
      → detect_media_control_action case text ≡ some (codes "play_playlist")
  unfolding detect_media_control_action first_action control_rules
  playlist_first text h = ground (
    arith,
    not_empty_of_contains 0x64ad (codes "放列表") (normalize_gate_text case text) h,
    playlist_hit (normalize_gate_text case text) h,
  )

  -- The commands `加入播放列表` and `添加到播放列表`, to add the current track to the playlist, are
  -- taken as the command to play the playlist, in whatever text they stand: they hold the keyword
  -- `播放列表` of an earlier rule.
  enqueue_shadowed :
      (text : Text)
      → (contains (codes "加入播放列表") (normalize_gate_text case text) ≡ true)
        ⊎ (contains (codes "添加到播放列表") (normalize_gate_text case text) ≡ true)
      → detect_media_control_action case text ≡ some (codes "play_playlist")
  enqueue_shadowed text (inl h) = playlist_first text (
      contains_tail _ _ (normalize_gate_text case text)
        (contains_tail _ _ (normalize_gate_text case text) h))
  enqueue_shadowed text (inr h) = playlist_first text (
      contains_tail _ _ (normalize_gate_text case text) (
        contains_tail _ _ (normalize_gate_text case text)
          (contains_tail _ _ (normalize_gate_text case text) h)))

  first_action-none :
      (normalized : Text) (rules : List ControlRule)
      → (first_action case normalized rules ≡ none)
        ↔ (all (λ r. not (any (hits case normalized) r.keywords)) rules ≡ true)
  unfolding first_action
  first_action-none normalized [] = ground arith
  first_action-none normalized (r ∷ rules) = ground (arith, first_action-none normalized rules)

  -- No command is detected exactly when nothing is left of the text or no keyword of any rule stands
  -- in it.
  detect_none_iff :
      (text : Text)
      → (detect_media_control_action case text ≡ none) ↔ (
          (is_empty (normalize_gate_text case text) ≡ true)
          ⊎ (all
                (λ r. not (any (hits case (normalize_gate_text case text)) r.keywords))
                control_rules
              ≡ true))
  unfolding detect_media_control_action
  detect_none_iff text =
      ground (arith, first_action-none (normalize_gate_text case text) control_rules)
