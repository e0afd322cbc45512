-- ===== src/Protocol/BinaryAudio.antt =====
-- crates/xiaozhi-protocol/src/binary_audio.rs: the audio frames of the WebSocket transport.
pub mod RoundTrip
mod Tests
use xiaozhi_esp32_server_rus.Common.{
  ℕ, ◌+◌, ◌≡◌, Bool, not, List, [], ◌∷◌, ◌++◌, Option, none, some, ltb, ◌==◌, if◌then◌else◌, length,
  drop, get_or,
}
use xiaozhi_esp32_server_rus.Common.Words.{
  u16, u32, u16_be_bytes, u32_be_bytes, u16_from_be, u32_from_be,
}

abbrev header_v2 : ℕ
header_v2 = 16

abbrev header_v3 : ℕ
header_v3 = 4

-- `data[i]`, where the length has been checked.
abbrev at : List ℕ → ℕ → ℕ
at bytes i = get_or bytes i 0

pub unpack_v2 : List ℕ → Option (List ℕ)
unpack_v2 bytes =
    if ltb (length bytes) header_v2
    then none
    else if not (u16_from_be (at bytes 0) (at bytes 1) == 2)
    then none
    else if not (
        header_v2 + u32_from_be (at bytes 12) (at bytes 13) (at bytes 14) (at bytes 15)
        == length bytes)
    then none
    else some (drop header_v2 bytes)

pub unpack_v3 : List ℕ → Option (List ℕ)
unpack_v3 bytes =
    if ltb (length bytes) header_v3
    then none
    else if not (header_v3 + u16_from_be (at bytes 2) (at bytes 3) == length bytes)
    then none
    else if not (at bytes 0 == 0)
    then none
    else some (drop header_v3 bytes)

-- `unwrap_or`
abbrev or_whole : Option (List ℕ) → List ℕ → List ℕ
or_whole none bytes = bytes
or_whole (some payload) bytes = payload

pub unpack_device_audio : List ℕ → ℕ → List ℕ
unpack_device_audio bytes version =
    if version == 2
    then or_whole (unpack_v2 bytes) bytes
    else if version == 3
    then or_whole (unpack_v3 bytes) bytes
    else bytes

pub pack_v2 : List ℕ → ℕ → List ℕ
pack_v2 opus timestamp_ms =
    u16_be_bytes 2
    ++ (u16_be_bytes 0
        ++ (u32_be_bytes 0
            ++ (u32_be_bytes timestamp_ms ++ (u32_be_bytes (u32 (length opus)) ++ opus))))

pub pack_v3 : List ℕ → List ℕ
pack_v3 opus = 0 ∷ 0 ∷ (u16_be_bytes (u16 (length opus)) ++ opus)

pub pack_device_audio : List ℕ → ℕ → List ℕ
pack_device_audio opus version =
    if version == 2 then pack_v2 opus 0 else if version == 3 then pack_v3 opus else opus
