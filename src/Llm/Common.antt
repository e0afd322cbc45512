-- ===== src/Llm/Common.antt =====
-- crates/xiaozhi-llm/src/llm_common.rs and message.rs. `digest` is the hexadecimal form of the first
-- eight bytes of SHA-256, from the crates `sha2` and `hex`.
pub mod UserId
pub mod Token
pub mod Queries
mod Tests
use xiaozhi_esp32_server_rus.Common.{
  ℕ, zero, suc, ◌+◌, ◌-◌, ◌≤◌, ◌≡◌, Bool, true, false, not, ◌&&◌, ◌||◌, List, [], ◌∷◌, ◌++◌, Option,
  none, some, leb, ltb, ◌==◌, if◌then◌else◌, length, take, all,
}
use xiaozhi_esp32_server_rus.Common.Text.{
  Text, codes, text_eq, is_empty, trim, trim_by, is_ascii_alphanumeric, utf8_len, len_utf8,
}
use xiaozhi_esp32_server_rus.Common.Assoc.{Assoc, lookup, insert}
use xiaozhi_esp32_server_rus.Common.Json.{Json}

pub data MessageRole : Type 0 where
  system user assistant tool : MessageRole

pub record ChatMessage : Type 0 where
  pub role : MessageRole
  pub content : Text
  pub name : Option Text
  pub tool_call_id : Option Text
  pub extra : Assoc Json

abbrev max_stable_user_id_len : ℕ
max_stable_user_id_len = 64

abbrev pub is_kept : ℕ → Bool
is_kept c = is_ascii_alphanumeric c || (c == 95) || (c == 45) || (c == 46)

abbrev pub is_mark : ℕ → Bool
is_mark c = (c == 46) || (c == 95) || (c == 45)

-- The loop over the characters; the flag is `last_sep`.
pub replace_others : Bool → Text → Text
replace_others last_sep [] = []
replace_others last_sep (c ∷ s) =
    let kept = c ∷ replace_others false s in
    let skipped = replace_others true s in
    if is_kept c then kept else if not last_sep then 95 ∷ skipped else skipped

pub sanitize_user_id_part : Text → Text
unfolding replace_others
sanitize_user_id_part input =
    if is_empty (trim input) then [] else trim_by is_mark (replace_others false (trim input))

abbrev pub or_default : Text → Text → Text
or_default [] fallback = fallback
or_default (c ∷ s) fallback = c ∷ s

-- The crates' part: sixteen hexadecimal digits.
pub record Digest : Type 0 where
  pub digest : Text → Text
  pub sixteen : (s : Text) → length (digest s) ≡ 16
  pub digits : (s : Text) → all is_ascii_alphanumeric (digest s) ≡ true

-- The parts have one byte for each character, so `truncate` at a byte is `take`.
pub build_stable_user_id : Digest → Text → Text → Text
unfolding sanitize_user_id_part
build_stable_user_id hash prefix session_id =
    let safe_prefix = or_default (sanitize_user_id_part prefix) (codes "xiaozhi") in
    let safe_session = or_default (sanitize_user_id_part session_id) (codes "anonymous") in
    let candidate = safe_prefix ++ (95 ∷ safe_session) in
    let suffix = hash.digest (prefix ++ (58 ∷ session_id)) in
    let max_prefix_len = max_stable_user_id_len - (length suffix + 1) in
    if leb (utf8_len candidate) max_stable_user_id_len
    then candidate
    else if max_prefix_len == 0
    then suffix
    else (if ltb max_prefix_len (length safe_prefix)
        then take max_prefix_len safe_prefix
        else safe_prefix)
      ++ (95 ∷ suffix)

abbrev pub is_user : MessageRole → Bool
is_user user = true
is_user _ = false

-- The first message, from the first on, that passes the test and is not blank.
pub find_text : (ChatMessage → Bool) → List ChatMessage → Option Text
find_text p [] = none
find_text p (m ∷ ms) =
    let later = find_text p ms in
    if p m && not (is_empty (trim m.content)) then some (trim m.content) else later

abbrev pub reversed : List ChatMessage → List ChatMessage
reversed [] = []
reversed (m ∷ ms) = reversed ms ++ (m ∷ [])

abbrev or_text : Option Text → Text → Text
or_text none fallback = fallback
or_text (some t) fallback = t

pub build_provider_query : List ChatMessage → Text
build_provider_query dialogue =
    or_text (find_text (λ m. is_user m.role) (reversed dialogue))
      (or_text (find_text (λ m. true) (reversed dialogue)) [])

abbrev with_char : ℕ → Option (Text × Text) → Option (Text × Text)
with_char c none = none
with_char c (some (front, back)) = some (c ∷ front, back)

-- `(&s[..n], &s[n..])`; `none` is the panic where byte `n` is not the first of a character.
pub split_at_byte : ℕ → Text → Option (Text × Text)
split_at_byte zero s = some ([], s)
split_at_byte (suc n) [] = none
split_at_byte (suc n) (c ∷ s) =
    let later = split_at_byte (suc n - len_utf8 c) s in
    if leb (len_utf8 c) (suc n) then with_char c later else none

abbrev to_lower : ℕ → ℕ
to_lower c = if leb 65 c && leb c 90 then c + 32 else c

pub eq_ignore_ascii_case : Text → Text → Bool
eq_ignore_ascii_case [] [] = true
eq_ignore_ascii_case [] (d ∷ t) = false
eq_ignore_ascii_case (c ∷ s) [] = false
eq_ignore_ascii_case (c ∷ s) (d ∷ t) = to_lower c == to_lower d && eq_ignore_ascii_case s t

-- `none` is a panic.
pub normalize_api_token : Text → Option Text
unfolding split_at_byte
normalize_api_token token =
    let token = trim token in
    if not (leb 7 (utf8_len token)) then some token else elim (split_at_byte 7 token) [
      | none ↦ none
      | some (front, back) ↦
          if eq_ignore_ascii_case front (codes "bearer ") then some (trim back) else some token
    ]

pub get_conversation_id : Assoc Text → Text → Text
get_conversation_id conversations session_id =
    let id = trim session_id in if is_empty id then [] else or_text (lookup id conversations) []

pub set_conversation_id : Assoc Text → Text → Text → Assoc Text
set_conversation_id conversations session_id conversation_id =
    let id = trim session_id in
    let conversation = trim conversation_id in
    if is_empty id || is_empty conversation
    then conversations
    else insert id conversation conversations
