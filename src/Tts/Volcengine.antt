-- ===== src/Tts/Volcengine.antt =====
-- crates/xiaozhi-tts/src/volcengine_protocol.rs: the binary frames of the Volcengine V3 service.
-- An `i32` is the bit pattern of its two's complement.
pub mod Nibbles
pub mod RoundTrip
pub mod Compressed
mod Tests
use Prim.Native.Nat.{bit_and, bit_or}
use xiaozhi_esp32_server_rus.Common.{
  ℕ, ◌+◌, ◌*◌, ◌/◌, ◌%◌, Bool, true, false, not, ◌&&◌, ◌||◌, List, [], ◌∷◌, ◌++◌, Option, none,
  some, ltb, leb, ◌==◌, if◌then◌else◌, length, take, drop, get_or,
}
use xiaozhi_esp32_server_rus.Common.Words.{u32, u32_be_bytes, u32_from_be}

pub record VolcMessage : Type 0 where
  pub msg_type : ℕ
  pub flags : ℕ
  pub event : ℕ
  pub sequence : ℕ
  pub error_code : ℕ
  pub payload : List ℕ

pub data Error : Type 0 where
  frame_short header_incomplete no_event no_session_len session_incomplete : Error
  no_sequence no_error_code no_payload_len payload_incomplete gunzip_failed : Error

pub data Result {ℓ} (A : Type ℓ) : Type ℓ where
  ok : A → Result A
  err : Error → Result A

infixl 5 ◌>>=◌
abbrev pub ◌>>=◌ {ℓ κ} : {A : Type ℓ} {B : Type κ} → Result A → (A → Result B) → Result B
ok a >>= f = f a
err e >>= f = err e

abbrev msg_full_client : ℕ
msg_full_client = 0x1

abbrev msg_audio_only_server : ℕ
msg_audio_only_server = 0xb

abbrev pub msg_error : ℕ
msg_error = 0xf

abbrev flag_no_seq : ℕ
flag_no_seq = 0

abbrev pub flag_with_event : ℕ
flag_with_event = 0x4

abbrev pub flag_negative_seq : ℕ
flag_negative_seq = 0x2

abbrev comp_gzip : ℕ
comp_gzip = 0x1

abbrev event_session_finished : ℕ
event_session_finished = 152

-- `1 | 2 | 50 | 51 | 52`, and `50 | 51 | 52`.
abbrev pub is_plain_event : ℕ → Bool
is_plain_event event = event == 1 || event == 2 || event == 50 || event == 51 || event == 52

abbrev pub is_connection_event : ℕ → Bool
is_connection_event event = event == 50 || event == 51 || event == 52

-- `(hi << 4) | lo` on bytes.
unfoldable pub pack_nibbles : ℕ → ℕ → ℕ
pack_nibbles hi lo = bit_or (hi * 16 % 256) lo

pub marshal_message : ℕ → ℕ → ℕ → ℕ → ℕ → List ℕ → List ℕ
marshal_message msg_type flags event sequence error_code payload =
    pack_nibbles 1 1
    ∷ pack_nibbles msg_type flags
    ∷ pack_nibbles 1 0
    ∷ 0
    ∷ ((if flags == flag_with_event
          then u32_be_bytes event ++ (if not (is_plain_event event) then u32_be_bytes 0 else [])
          else [])
        ++ ((if flags == flag_negative_seq || flags == 1 then u32_be_bytes sequence else [])
            ++ ((if msg_type == msg_error then u32_be_bytes error_code else [])
                ++ (u32_be_bytes (u32 (length payload)) ++ payload))))

pub marshal_full_client : List ℕ → List ℕ
marshal_full_client payload = marshal_message msg_full_client flag_no_seq 0 0 0 payload

pub marshal_finish_connection : List ℕ
marshal_finish_connection = marshal_message msg_full_client flag_with_event 2 0 0 []

-- The request frame of the Doubao WebSocket; `gzip` is the crate `flate2`.
pub marshal_doubao_ws_binary_request : (List ℕ → Option (List ℕ)) → List ℕ → Option (List ℕ)
marshal_doubao_ws_binary_request gzip payload = elim (gzip payload) [
  | none ↦ none
  | some compressed ↦
      some (0x11 ∷ 0x10 ∷ 0x11 ∷ 0x00 ∷ (u32_be_bytes (u32 (length compressed)) ++ compressed))
]

abbrev word_at : ℕ → List ℕ → ℕ
word_at i bytes =
    u32_from_be (get_or (drop i bytes) 0 0) (get_or (drop i bytes) 1 0) (get_or (drop i bytes) 2 0)
      (get_or (drop i bytes) 3 0)

-- The word at the cursor and the cursor behind it.
pub read_word : List ℕ → ℕ → Error → Result (ℕ × ℕ)
read_word bytes pos missing =
    if ltb (length bytes) (pos + 4) then err missing else ok (word_at pos bytes, pos + 4)

skip_session : List ℕ → ℕ → Result ℕ
skip_session bytes pos = do
  (sid_len, pos) ← read_word bytes pos no_session_len
  if ltb (length bytes) (pos + sid_len) then err session_incomplete else ok (pos + sid_len)

skip_connection : List ℕ → ℕ → ℕ
skip_connection bytes pos =
    if leb (pos + 4) (length bytes)
    then (let cid_len = word_at pos bytes in
        if leb (pos + 4 + cid_len) (length bytes) then pos + 4 + cid_len else pos + 4)
    else pos

read_event : List ℕ → ℕ → Result (ℕ × ℕ)
read_event bytes pos = do
  (event, pos) ← read_word bytes pos no_event
  pos ← if not (is_plain_event event) then skip_session bytes pos else ok pos
  ok (event, if is_connection_event event then skip_connection bytes pos else pos)

module _ (gunzip : List ℕ → Option (List ℕ)) where
  unzip : ℕ → List ℕ → Result (List ℕ)
  unzip compression [] = ok []
  unzip compression (b ∷ bs) =
      if compression == comp_gzip
      then elim (gunzip (b ∷ bs)) [ none ↦ err gunzip_failed | some out ↦ ok out ]
      else ok (b ∷ bs)

  read_payload : ℕ → List ℕ → ℕ → Result (List ℕ)
  read_payload compression bytes pos = do
    (payload_len, pos) ← read_word bytes pos no_payload_len
    if ltb (length bytes) (pos + payload_len)
        then err payload_incomplete
        else unzip compression (take payload_len (drop pos bytes))

  -- `parse_message` behind the three bytes of the header that it reads.
  parse_fields : ℕ → ℕ → ℕ → List ℕ → ℕ → Result VolcMessage
  parse_fields msg_type flags compression bytes pos = do
    (event, pos) ← if flags == flag_with_event then read_event bytes pos else ok (0, pos)
    (sequence, pos) ←
        if flags == 1 || flags == flag_negative_seq
        then read_word bytes pos no_sequence
        else ok (0, pos)
    (error_code, pos) ←
        if msg_type == msg_error then read_word bytes pos no_error_code else ok (0, pos)
    payload ← read_payload compression bytes pos
    ok (record {
      msg_type = msg_type;
      flags = flags;
      event = event;
      sequence = sequence;
      error_code = error_code;
      payload = payload;
    })

  pub parse_message : List ℕ → Result VolcMessage
  parse_message bytes =
      let header_size = bit_and (get_or bytes 0 0) 0x0f * 4 in
      if ltb (length bytes) 4
      then err frame_short
      else if ltb (length bytes) header_size
      then err header_incomplete
      else parse_fields (get_or bytes 1 0 / 16) (bit_and (get_or bytes 1 0) 0x0f)
          (bit_and (get_or bytes 2 0) 0x0f) bytes header_size

-- `msg.sequence < 0`
abbrev is_negative : ℕ → Bool
is_negative word = leb 2147483648 word

pub is_stream_end : VolcMessage → Bool
is_stream_end msg =
    msg.event == event_session_finished
    || (msg.msg_type == msg_audio_only_server && is_negative msg.sequence)
    || msg.msg_type == msg_error
