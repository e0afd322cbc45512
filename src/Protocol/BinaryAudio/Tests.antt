-- ===== src/Protocol/BinaryAudio/Tests.antt =====
-- The frames of binary_audio.rs at concrete payloads.
use xiaozhi_esp32_server_rus.Common.{ℕ, ◌≡◌, refl, List, [], ◌∷◌, arith, replicate}
use xiaozhi_esp32_server_rus.Protocol.BinaryAudio.{pack_device_audio, unpack_device_audio, pack_v3}
use xiaozhi_esp32_server_rus.Protocol.BinaryAudio.RoundTrip.{unpack-pack}

abbrev opus : List ℕ
opus = 0xf8 ∷ 0xff ∷ 0xfe ∷ []

packed_v3 : pack_device_audio opus 3 ≡ 0 ∷ 0 ∷ 0 ∷ 3 ∷ opus
unfolding pack_device_audio pack_v3
packed_v3 = refl

raw_v1 : unpack_device_audio (0x58 ∷ 0x01 ∷ 0x02 ∷ []) 1 ≡ 0x58 ∷ 0x01 ∷ 0x02 ∷ []
unfolding unpack_device_audio
raw_v1 = refl

unpack-pack_example : unpack_device_audio (pack_device_audio opus 2) 2 ≡ opus
unpack-pack_example = unpack-pack opus 2 (omega arith)

abbrev long : List ℕ
long = replicate 65536 7

abbrev frame : List ℕ
frame = 0 ∷ 0 ∷ 0 ∷ 3 ∷ opus
