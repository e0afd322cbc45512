-- ===== src/Chat/MediaGate/Tests.antt =====
-- Utterances of the tests in realtime_media_gate.rs, with a conversion that lowers ASCII letters.
use xiaozhi_esp32_server_rus.Common.{
  ℕ, ◌+◌, ◌≡◌, refl, true, ◌&&◌, [], ◌∷◌, none, some, arith, leb, if◌then◌else◌, map, all,
}
use xiaozhi_esp32_server_rus.Common.Text.{
  Text, codes, trim_start_by, trim_end_by, is_whitespace, contains, starts_with,
  is_ascii_punctuation,
}
use xiaozhi_esp32_server_rus.Chat.Detect.{remove_punctuation}
use xiaozhi_esp32_server_rus.Chat.MediaGate.{
  Lowercase, normalize_gate_text, hits, first_action, detect_media_control_action,
  is_media_exit_command, control_rules, exit_keywords,
}

abbrev lower : ℕ → ℕ
lower c = if leb b'A' c && leb c b'Z' then c + 32 else c

map-lower : (s : Text) → all (λ c. leb 0x4e00 c && leb c 0x9fff) s ≡ true → map lower s ≡ s
map-lower [] h = refl
map-lower (c ∷ s) h = ground (arith, map-lower s)

abbrev ascii : Lowercase
ascii = record { to_lowercase = map lower; caseless = map-lower }

pauses : detect_media_control_action ascii (codes "先暂停一下。") ≡ some (codes "pause")
unfolding detect_media_control_action first_action hits normalize_gate_text control_rules
    remove_punctuation trim_start_by trim_end_by is_whitespace is_ascii_punctuation contains
    starts_with
pauses = refl

jokes : detect_media_control_action ascii (codes "帮我讲个笑话") ≡ none
unfolding detect_media_control_action first_action hits normalize_gate_text control_rules
    remove_punctuation trim_start_by trim_end_by is_whitespace is_ascii_punctuation contains
    starts_with
jokes = refl

exits : is_media_exit_command ascii (codes "那就退出对话") ≡ true
unfolding is_media_exit_command hits normalize_gate_text exit_keywords remove_punctuation
    trim_start_by trim_end_by is_whitespace is_ascii_punctuation contains starts_with
exits = refl

abbrev add_to_playlist : Text
add_to_playlist = codes "加入播放列表"

spoken_whole : contains add_to_playlist (normalize_gate_text ascii add_to_playlist) ≡ true
unfolding normalize_gate_text remove_punctuation trim_start_by trim_end_by is_whitespace
    is_ascii_punctuation contains starts_with
spoken_whole = refl
