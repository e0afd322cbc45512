-- ===== src/Transport/Udp.antt =====
-- crates/xiaozhi-transport/src/udp.rs: the encrypted audio packets over UDP.
pub mod Crypto
mod Tests
use xiaozhi_esp32_server_rus.Common.{
  ℕ, ◌%◌, ◌≡◌, not, List, [], ◌∷◌, ◌++◌, ltb, ◌==◌, if◌then◌else◌, length, take, drop, get_or,
}
use xiaozhi_esp32_server_rus.Common.Words.{u16, u32, u16_be_bytes, u32_be_bytes, u32_from_be}

-- The crates `aes` and `ctr`: `Aes128Ctr::new_from_slices(key, iv)` and `apply_keystream`. A stream
-- cipher in counter mode keeps the length of its input, and undoes itself under one key and
-- counter block.
pub record StreamCipher : Type 0 where
  pub apply_keystream : List ℕ → List ℕ → List ℕ → List ℕ
  pub keeps_length : (key iv bytes : List ℕ) → length (apply_keystream key iv bytes) ≡ length bytes
  pub undoes_itself :
      (key iv bytes : List ℕ) → apply_keystream key iv (apply_keystream key iv bytes) ≡ bytes

abbrev pub packet_type_audio : ℕ
packet_type_audio = 1

pub record UdpCrypto : Type 0 where
  pub key : List ℕ
  pub nonce_template : List ℕ

pub data Error : Type 0 where
  too_short : Error
  bad_type : ℕ → Error

pub data Result {ℓ} (A : Type ℓ) : Type ℓ where
  ok : A → Result A
  err : Error → Result A

-- The random key and word, and the clock in seconds, are arguments.
pub generate_session_keys : List ℕ → ℕ → ℕ → List ℕ × List ℕ × ℕ
generate_session_keys key random created =
    let conn_id = random % 2147483648 in
    (
      key,
      packet_type_audio
          ∷ 0
          ∷ 0
          ∷ 0
          ∷ (u32_be_bytes conn_id ++ (u32_be_bytes (u32 created) ++ (0 ∷ 0 ∷ 0 ∷ 0 ∷ []))),
      conn_id,
    )

abbrev pub word_at : ℕ → List ℕ → ℕ
word_at i bytes =
    u32_from_be (get_or (drop i bytes) 0 0) (get_or (drop i bytes) 1 0) (get_or (drop i bytes) 2 0)
      (get_or (drop i bytes) 3 0)

pub conn_id_from_nonce : List ℕ → ℕ
conn_id_from_nonce nonce = word_at 4 nonce

-- The template with its bytes 2 to 3 and 12 to 15 written over.
pub build_downlink_header : UdpCrypto → ℕ → ℕ → List ℕ
build_downlink_header c payload_len sequence =
    take 2 c.nonce_template
    ++ (u16_be_bytes (u16 payload_len)
        ++ (take 8 (drop 4 c.nonce_template) ++ u32_be_bytes sequence))

module _ (cipher : StreamCipher) where
  pub encrypt : UdpCrypto → ℕ → List ℕ → List ℕ
  encrypt c sequence payload =
      let header = build_downlink_header c (length payload) sequence in
      header ++ cipher.apply_keystream c.key header payload

  pub decrypt : UdpCrypto → List ℕ → Result (ℕ × ℕ × List ℕ)
  decrypt c packet =
      if ltb (length packet) 16
      then err too_short
      else if not (get_or packet 0 0 == packet_type_audio)
      then err (bad_type (get_or packet 0 0))
      else ok (
        word_at 8 packet,
        word_at 12 packet,
        cipher.apply_keystream c.key (take 16 packet) (drop 16 packet),
      )
