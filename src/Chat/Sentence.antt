-- ===== src/Chat/Sentence.antt =====
-- crates/xiaozhi-chat/src/sentence.rs: cutting the model's output into sentences for speech.
pub mod Loop
pub mod Streaming
mod Tests
use xiaozhi_esp32_server_rus.Common.{
  ℕ, zero, suc, Bool, ◌||◌, List, [], ◌∷◌, ◌++◌, Option, none, some, leb, ◌==◌, if◌then◌else◌,
  length,
}
use xiaozhi_esp32_server_rus.Common.Text.{Text, trim, utf8_len, is_empty}

-- `SENTENCE_BREAKS`: 。 ！ ？ . ! ? \n ； ;
unfoldable pub is_break : ℕ → Bool
is_break c =
    (c == 0x3002)
    || (c == 0xff01)
    || (c == 0xff1f)
    || (c == b'.')
    || (c == b'!')
    || (c == b'?')
    || (c == 10)
    || (c == 0xff1b)
    || (c == b';')

pub record SentenceBuffer : Type 0 where
  pub pending : Text

unfoldable pub new : SentenceBuffer
new = record { pending = [] }

abbrev in_front : ℕ → Option (Text × Text) → Option (Text × Text)
in_front c none = none
in_front c (some (head, tail)) = some (c ∷ head, tail)

-- The text up to the first break and with it, and the text behind.
cut : Text → Option (Text × Text)
cut [] = none
cut (c ∷ s) = let rest = in_front c (cut s) in if is_break c then some (c ∷ [], s) else rest

-- A piece is a sentence if two bytes are left of it.
pub emit : Text → List Text → List Text
emit piece out = if leb 2 (utf8_len (trim piece)) then trim piece ∷ out else out

-- The loop of `push_delta`: the sentences and what stays pending.
pub drain : ℕ → Text → List Text × Text
drain zero s = ([], s)
drain (suc fuel) s = elim (cut s) [
  | none ↦ ([], s)
  | some (head, tail) ↦ (emit head (drain fuel tail).0, (drain fuel tail).1)
]

-- Each round takes a character at least, so as many rounds as there are characters are enough.
pub push_delta : SentenceBuffer → Text → SentenceBuffer × List Text
unfolding cut drain
push_delta b delta =
    let text = b.pending ++ delta in
    let (out, rest) = drain (length text) text in (record { pending = rest }, out)

pub flush : SentenceBuffer → SentenceBuffer × Option Text
flush b =
    let tail = trim b.pending in
    (record { pending = [] }, if leb 1 (utf8_len tail) then some tail else none)
