-- ===== src/Protocol/BinaryAudio/RoundTrip.antt =====
-- Packing and unpacking the frames of binary_audio.rs.
use xiaozhi_esp32_server_rus.Common.{
  ℕ, ◌+◌, ◌<◌, ◌≤◌, ◌≡◌, List, ◌++◌, some, arith, length, length-append, length-drop, drop, ◌==◌,
  if◌then◌else◌, ◌⊎◌,
}
use xiaozhi_esp32_server_rus.Common.Words.{u16_round_trip, u32_round_trip}
use xiaozhi_esp32_server_rus.Protocol.BinaryAudio.{
  unpack_v2, unpack_v3, pack_v2, pack_v3, pack_device_audio, unpack_device_audio,
}

unpack_v2-pack_v2 :
    (opus : List ℕ) (timestamp_ms : ℕ)
    → length opus < 4294967296
    → unpack_v2 (pack_v2 opus timestamp_ms) ≡ some opus
unfolding unpack_v2 pack_v2
unpack_v2-pack_v2 opus t h = ground (arith, u32_round_trip (length opus))

unpack_v3-pack_v3 : (opus : List ℕ) → length opus < 65536 → unpack_v3 (pack_v3 opus) ≡ some opus
unfolding unpack_v3 pack_v3
unpack_v3-pack_v3 opus h = ground (arith, u16_round_trip (length opus))

-- The longest payload whose length its frame's header holds.
abbrev capacity : ℕ → ℕ
capacity version = if version == 3 then 65535 else 4294967295

-- A device gets back the payload that was packed, in each version of the protocol, when the
-- payload is no longer than what the version's length field holds.
pub unpack-pack :
    (opus : List ℕ) (version : ℕ)
    → length opus ≤ capacity version
    → unpack_device_audio (pack_device_audio opus version) version ≡ opus
unfolding unpack_device_audio pack_device_audio
unpack-pack opus version h = ground (arith, unpack_v2-pack_v2 opus 0, unpack_v3-pack_v3 opus)

-- A longer payload in version 3 is written under a wrapped length, and is not read back: the
-- receiver takes the whole frame, header included, for the payload.
unpack-pack_oversize :
    (opus : List ℕ)
    → 65536 ≤ length opus
    → unpack_device_audio (pack_device_audio opus 3) 3 ≡ pack_device_audio opus 3
unfolding unpack_device_audio pack_device_audio unpack_v3 pack_v3
unpack-pack_oversize opus h = ground arith

-- In versions 2 and 3, bytes behind a packed frame make the receiver keep the whole input.
unpack-pack_trailing :
    (opus extra : List ℕ) (version : ℕ)
    → (version ≡ 2) ⊎ (version ≡ 3)
    → length opus ≤ capacity version
    → 0 < length extra
    → unpack_device_audio (pack_device_audio opus version ++ extra) version
      ≡ pack_device_audio opus version ++ extra
unfolding unpack_device_audio pack_device_audio unpack_v2 unpack_v3 pack_v2 pack_v3
unpack-pack_trailing opus extra version v h e =
    ground
      (arith, length-append opus extra, u32_round_trip (length opus), u16_round_trip (length opus))

-- What `unpack_device_audio` returns is the input itself or a suffix of it: exactly one header of
-- the version is taken off, and only in versions 2 and 3.
unpack-length :
    (bytes : List ℕ) (version : ℕ)
    → (unpack_device_audio bytes version ≡ bytes)
      ⊎ ((version ≡ 2)
          × (unpack_device_audio bytes version ≡ drop 16 bytes)
          × (length bytes ≡ length (unpack_device_audio bytes version) + 16))
      ⊎ ((version ≡ 3)
          × (unpack_device_audio bytes version ≡ drop 4 bytes)
          × (length bytes ≡ length (unpack_device_audio bytes version) + 4))
unfolding unpack_device_audio unpack_v2 unpack_v3
unpack-length bytes version = ground (arith, length-drop 16 bytes, length-drop 4 bytes)
