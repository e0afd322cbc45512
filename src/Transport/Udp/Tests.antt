-- ===== src/Transport/Udp/Tests.antt =====
-- The packets of udp.rs under a small cipher, which flips the lowest bit of each byte.
use xiaozhi_esp32_server_rus.Common.{
  ℕ, suc, ◌+◌, ◌-◌, ◌%◌, ◌≡◌, refl, ap, List, [], ◌∷◌, arith, ◌==◌, if◌then◌else◌, length, map,
}
use xiaozhi_esp32_server_rus.Transport.Udp.{
  StreamCipher, UdpCrypto, ok, err, encrypt, decrypt, build_downlink_header, too_short,
}
use xiaozhi_esp32_server_rus.Transport.Udp.Crypto.{IsTemplate, decrypt-encrypt}

abbrev flip : ℕ → ℕ
flip b = if b % 2 == 0 then b + 1 else b - 1

flip-flip : (b : ℕ) → flip (flip b) ≡ b
flip-flip b = ground arith

map-flip : (bytes : List ℕ) → map flip (map flip bytes) ≡ bytes
map-flip [] = refl
map-flip (b ∷ bytes) = cc (flip-flip b, map-flip bytes)

length-flip : (bytes : List ℕ) → length (map flip bytes) ≡ length bytes
length-flip [] = refl
length-flip (b ∷ bytes) = ap suc (length-flip bytes)

abbrev flipping : StreamCipher
flipping = record {
  apply_keystream = λ key iv bytes. map flip bytes;
  keeps_length = λ key iv bytes. length-flip bytes;
  undoes_itself = λ key iv bytes. map-flip bytes;
}

abbrev session : UdpCrypto
session = record {
  key = 9 ∷ [];
  nonce_template = 1 ∷ 0 ∷ 0 ∷ 0 ∷ 0 ∷ 0 ∷ 0 ∷ 5 ∷ 0 ∷ 0 ∷ 1 ∷ 0 ∷ 0 ∷ 0 ∷ 0 ∷ 0 ∷ [];
}

session-IsTemplate : IsTemplate session
session-IsTemplate = record { sized = refl; typed = refl }

sealed :
    encrypt flipping session 1 (0xab ∷ [])
    ≡ 1 ∷ 0 ∷ 0 ∷ 1 ∷ 0 ∷ 0 ∷ 0 ∷ 5 ∷ 0 ∷ 0 ∷ 1 ∷ 0 ∷ 0 ∷ 0 ∷ 0 ∷ 1 ∷ 0xaa ∷ []
unfolding encrypt build_downlink_header
sealed = refl

short_packet : decrypt flipping session (1 ∷ 0 ∷ []) ≡ err too_short
unfolding decrypt
short_packet = refl

decrypt-encrypt_example :
    decrypt flipping session (encrypt flipping session 1 (0xab ∷ [])) ≡ ok (256, 1, 0xab ∷ [])
decrypt-encrypt_example =
    decrypt-encrypt flipping session 1 (0xab ∷ []) session-IsTemplate (omega arith)
