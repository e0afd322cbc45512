-- ===== src/Tts/Volcengine/Compressed.antt =====
-- The compressed request frame of volcengine_protocol.rs.
use xiaozhi_esp32_server_rus.Common.{
  ℕ, ◌<◌, ◌≡◌, ◌≢◌, refl, List, [], ◌∷◌, ◌++◌, Option, some, arith, length, take-length,
}
use xiaozhi_esp32_server_rus.Common.Words.{u32, u32_be_bytes}
use xiaozhi_esp32_server_rus.Tts.Volcengine.{
  ok, marshal_doubao_ws_binary_request, parse_message, parse_fields, read_payload, unzip,
  no_payload_len,
}
use xiaozhi_esp32_server_rus.Tts.Volcengine.RoundTrip.{At, read_word-At}

-- The encoder and the decoder of `flate2`: the encoder never answers with nothing, and the decoder
-- undoes it.
pub record Gzip : Type 0 where
  pub gzip : List ℕ → Option (List ℕ)
  pub gunzip : List ℕ → Option (List ℕ)
  pub not_empty : (payload out : List ℕ) → gzip payload ≡ some out → out ≢ []
  pub decodes : (payload out : List ℕ) → gzip payload ≡ some out → gunzip out ≡ some payload

module _ (codec : Gzip) where
  unzip_packed :
      (payload out : List ℕ) → codec.gzip payload ≡ some out → unzip codec.gunzip 1 out ≡ ok payload
  unfolding unzip
  unzip_packed payload [] e = absurd (codec.not_empty payload [] e refl)
  unzip_packed payload (b ∷ bs) e = rw (codec.decodes payload (b ∷ bs) e) refl

  read_packed :
      (payload out bytes : List ℕ) (pos : ℕ)
      → length out < 4294967296
      → codec.gzip payload ≡ some out
      → At pos bytes (u32_be_bytes (u32 (length out)) ++ out)
      → read_payload codec.gunzip 1 bytes pos ≡ ok payload
  unfolding read_payload
  read_packed payload out bytes pos h g a =
      let same : u32 (length out) ≡ length out = omega arith in
      let (e, (l, d)) = read_word-At bytes out pos (length out) no_payload_len h (rw same at a) in
      rw (e, d, take-length out, unzip_packed payload out g) (ground (arith, l))

  -- The frame of a compressed request is parsed back to the payload before compression, as a client
  -- request with no event, sequence or error code, when the compressed payload's length fits in 32
  -- bits.
  parse-doubao_request :
      (payload out frame : List ℕ)
      → codec.gzip payload ≡ some out
      → length out < 4294967296
      → marshal_doubao_ws_binary_request codec.gzip payload ≡ some frame
      → parse_message codec.gunzip frame
        ≡ ok (record {
          msg_type = 1;
          flags = 0;
          event = 0;
          sequence = 0;
          error_code = 0;
          payload = payload;
        })
  unfolding marshal_doubao_ws_binary_request parse_message parse_fields
  parse-doubao_request payload out frame g h e =
      let f : frame ≡ 17 ∷ 16 ∷ 17 ∷ 0 ∷ (u32_be_bytes (u32 (length out)) ++ out) =
        cc (rw (g, marshal_doubao_ws_binary_request) at e) in
      rw f (
        rw
          (read_packed payload out (17 ∷ 16 ∷ 17 ∷ 0 ∷ (u32_be_bytes (u32 (length out)) ++ out)) 4 h
            g (omega arith, refl))
          (ground arith))
