-- ===== src/Chat/MediaGate.antt =====
-- crates/xiaozhi-chat/src/realtime_media_gate.rs: spoken commands while music plays.
pub mod Matching
mod Tests
use xiaozhi_esp32_server_rus.Common.{
  ℕ, ◌≡◌, Bool, false, true, not, ◌&&◌, List, [], ◌∷◌, Option, none, some, if◌then◌else◌, any, all,
  leb,
}
use xiaozhi_esp32_server_rus.Common.Text.{Text, codes, is_empty, trim, contains}
use xiaozhi_esp32_server_rus.Chat.Detect.{remove_punctuation}

-- `str::to_lowercase`, whose tables are Unicode's. Of it only this is used: a text of code points
-- from U+4E00 to U+9FFF, which have no case, is left as it is.
pub record Lowercase : Type 0 where
  pub to_lowercase : Text → Text
  pub caseless : (s : Text) → all (λ c. leb 0x4e00 c && leb c 0x9fff) s ≡ true → to_lowercase s ≡ s

pub record ControlRule : Type 0 where
  pub action : Text
  pub keywords : List Text

abbrev pub play_playlist : ControlRule
play_playlist = record {
  action = codes "play_playlist";
  keywords = codes "播放歌单" ∷ codes "播放歌单里的歌曲" ∷ codes "播放播放列表" ∷ codes "播放列表" ∷ [];
}

abbrev enqueue_current : ControlRule
enqueue_current = record {
  action = codes "enqueue_current";
  keywords = codes "加入歌单" ∷ codes "加入播放列表" ∷ codes "添加到歌单" ∷ codes "添加到播放列表" ∷ [];
}

abbrev resume_rule : ControlRule
resume_rule = record {
  action = codes "resume";
  keywords = codes "继续播放" ∷ codes "恢复播放" ∷ codes "继续听" ∷ codes "接着放" ∷ codes "接着播" ∷ [];
}

abbrev pause_rule : ControlRule
pause_rule = record {
  action = codes "pause";
  keywords = codes "暂停" ∷ codes "先暂停" ∷ codes "先停一下" ∷ [];
}

abbrev stop_rule : ControlRule
stop_rule = record {
  action = codes "stop";
  keywords = codes "停止播放" ∷ codes "停止" ∷ codes "停播" ∷ codes "别播了" ∷ [];
}

abbrev next_rule : ControlRule
next_rule = record {
  action = codes "next";
  keywords = codes "下一首" ∷ codes "下首" ∷ codes "切到下一首" ∷ codes "切歌" ∷ [];
}

abbrev prev_rule : ControlRule
prev_rule = record {
  action = codes "prev";
  keywords = codes "上一首" ∷ codes "上首" ∷ codes "切到上一首" ∷ [];
}

unfoldable pub control_rules : List ControlRule
control_rules =
    play_playlist ∷ enqueue_current ∷ resume_rule ∷ pause_rule ∷ stop_rule ∷ next_rule ∷ prev_rule
    ∷ []

pub exit_keywords : List Text
exit_keywords =
    codes "再见" ∷ codes "拜拜" ∷ codes "拜了" ∷ codes "回见" ∷ codes "退出" ∷ codes "退出对话" ∷ codes "退下吧" ∷ []

module _ (case : Lowercase) where
  pub normalize_gate_text : Text → Text
  normalize_gate_text text = case.to_lowercase (remove_punctuation (trim text))

  -- One keyword, against a text that is normalised already.
  pub hits : Text → Text → Bool
  hits normalized keyword =
      let kw = normalize_gate_text keyword in not (is_empty kw) && contains kw normalized

  pub first_action : Text → List ControlRule → Option Text
  first_action normalized [] = none
  first_action normalized (rule ∷ rules) =
      let rest = first_action normalized rules in
      if any (hits normalized) rule.keywords then some rule.action else rest

  pub detect_media_control_action : Text → Option Text
  detect_media_control_action text =
      let normalized = normalize_gate_text text in
      if is_empty normalized then none else first_action normalized control_rules

  pub is_media_exit_command : Text → Bool
  is_media_exit_command text =
      let normalized = normalize_gate_text text in
      if is_empty normalized then false else any (hits normalized) exit_keywords
