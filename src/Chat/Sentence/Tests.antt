-- ===== src/Chat/Sentence/Tests.antt =====
-- The sentences of sentence.rs for a short answer.
use xiaozhi_esp32_server_rus.Common.{◌≡◌, refl, List, [], ◌∷◌, some}
use xiaozhi_esp32_server_rus.Common.Text.{
  Text, codes, trim_start_by, trim_end_by, is_whitespace, utf8_len,
}
use xiaozhi_esp32_server_rus.Chat.Sentence.{new, push_delta, flush, is_break, cut, emit, drain}
use xiaozhi_esp32_server_rus.Chat.Sentence.Streaming.{push_all, push_all-joined, joined}

abbrev deltas : List Text
deltas = codes "Hi" ∷ codes ". And" ∷ codes " you? ." ∷ []

greeting : push_delta new (codes "Hi. And you? .") ≡ (new, codes "Hi." ∷ codes "And you?" ∷ [])
unfolding push_delta new cut emit is_break utf8_len trim_start_by trim_end_by is_whitespace drain
greeting = refl

tail_flushed : (flush (record { pending = codes " so " })).1 ≡ some (codes "so")
unfolding flush utf8_len trim_start_by trim_end_by is_whitespace
tail_flushed = refl

push_all-joined_example : push_all new deltas ≡ push_delta new (joined deltas)
unfolding new
push_all-joined_example = push_all-joined new deltas refl
