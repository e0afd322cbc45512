-- ===== src/Tts/Volcengine/RoundTrip.antt =====
-- `parse_message` on what `marshal_message` writes.
use xiaozhi_esp32_server_rus.Common.{
  ℕ, ◌+◌, ◌*◌, ◌/◌, ◌%◌, ◌<◌, ◌≡◌, inl, inr, refl, ◌∙◌, Bool, true, false, not, ◌||◌, List, [], ◌∷◌,
  ◌++◌, Option, arith, ◌==◌, if◌then◌else◌, length, drop, take-length, drop-add, Bool-cases,
}
use xiaozhi_esp32_server_rus.Common.Words.{u32, u32_be_bytes, u32_round_trip}
use xiaozhi_esp32_server_rus.Tts.Volcengine.Nibbles.{low_nibble, pack_nibbles_lem}
use xiaozhi_esp32_server_rus.Tts.Volcengine.{
  skip_session, no_session_len, no_event, no_sequence, no_error_code, no_payload_len, Error, Result,
  ok, marshal_message, parse_message, parse_fields, read_word, read_event, read_payload, unzip,
  is_plain_event, is_connection_event, msg_error, flag_with_event, flag_negative_seq, pack_nibbles,
  ◌>>=◌,
}

first_byte : pack_nibbles 1 1 ≡ 17
unfolding pack_nibbles
first_byte = refl

third_byte : pack_nibbles 1 0 ≡ 16
unfolding pack_nibbles
third_byte = refl

or_comm : (a b : Bool) → (a || b) ≡ (b || a)
or_comm a b = ground arith

-- A run of `bytes` in front of the rest of a frame, from the cursor `pos`.
abbrev pub At : ℕ → List ℕ → List ℕ → Type 0
At pos bytes rest = (length bytes ≡ pos + length rest) × (drop pos bytes ≡ rest)

pub read_word-At :
    (bytes rest : List ℕ) (pos w : ℕ) (missing : Error)
    → w < 4294967296
    → At pos bytes (u32_be_bytes w ++ rest)
    → (read_word bytes pos missing ≡ ok (w, pos + 4)) × At (pos + 4) bytes rest
unfolding read_word
read_word-At bytes rest pos w missing h (l, d) = (
  rw d (ground (arith, l, u32_round_trip w h)),
  (omega (arith, l), rw (drop-add pos 4 bytes, d) refl),
)

read_session :
    (bytes rest : List ℕ) (pos : ℕ)
    → At pos bytes (u32_be_bytes 0 ++ rest)
    → (skip_session bytes pos ≡ ok (pos + 4 + 0)) × At (pos + 4 + 0) bytes rest
unfolding skip_session
read_session bytes rest pos a =
    let (e, (l, d)) = read_word-At bytes rest pos 0 no_session_len (omega arith) a in
    (rw (e, ◌>>=◌) (ground (arith, l)), (omega (arith, l), rw (drop-add (pos + 4) 0 bytes, d) refl))

-- A stage of the parser that reads `value` and leaves the cursor in front of `rest`.
abbrev Reads : List ℕ → Result (ℕ × ℕ) → ℕ → List ℕ → Type 0
Reads bytes stage value rest = (pos : ℕ) × (stage ≡ ok (value, pos)) × At pos bytes rest

abbrev session_bytes : ℕ → List ℕ
session_bytes event = if not (is_plain_event event) then u32_be_bytes 0 else []

read_event-At :
    (bytes rest : List ℕ) (pos event : ℕ)
    → event < 4294967296
    → is_connection_event event ≡ false
    → At pos bytes (u32_be_bytes event ++ (session_bytes event ++ rest))
    → Reads bytes (read_event bytes pos) event rest
unfolding read_event
read_event-At bytes rest pos event h c a = elim (Bool-cases (is_plain_event event)) [
  | inl plain ↦
      let (e, at') = read_word-At bytes rest pos event no_event h (rw plain at a) in
      (pos + 4, rw (e, plain, c) refl, at')
  | inr session ↦
      let (e, at') =
        read_word-At bytes (u32_be_bytes 0 ++ rest) pos event no_event h (rw session at a) in
      let (e', at'') = read_session bytes rest (pos + 4) at' in
      (pos + 4 + 4 + 0, rw (e, session, e', c) refl, at'')
]

read_optional :
    (present : Bool) (bytes rest : List ℕ) (pos w : ℕ) (missing : Error)
    → w < 4294967296
    → At pos bytes ((if present then u32_be_bytes w else []) ++ rest)
    → Reads bytes
        (if present then read_word bytes pos missing else ok (0, pos))
        (if present then w else 0)
        rest
read_optional true bytes rest pos w missing h a =
    let (e, at') = read_word-At bytes rest pos w missing h a in (pos + 4, e, at')
read_optional false bytes rest pos w missing h a = (pos, refl, a)

read_optional_event :
    (present : Bool) (bytes rest : List ℕ) (pos event : ℕ)
    → event < 4294967296
    → is_connection_event event ≡ false
    → At pos bytes ((if present then u32_be_bytes event ++ session_bytes event else []) ++ rest)
    → Reads bytes
        (if present then read_event bytes pos else ok (0, pos))
        (if present then event else 0)
        rest
read_optional_event true bytes rest pos event h c a = read_event-At bytes rest pos event h c a
read_optional_event false bytes rest pos event h c a = (pos, refl, a)

module _ (gunzip : List ℕ → Option (List ℕ)) where
  unzip_plain : (payload : List ℕ) → unzip gunzip 0 payload ≡ ok payload
  unfolding unzip
  unzip_plain [] = refl
  unzip_plain (b ∷ bs) = refl

  read_payload-At :
      (bytes payload : List ℕ) (pos : ℕ)
      → length payload < 4294967296
      → At pos bytes (u32_be_bytes (u32 (length payload)) ++ payload)
      → read_payload gunzip 0 bytes pos ≡ ok payload
  unfolding read_payload
  read_payload-At bytes payload pos h a =
      let same : u32 (length payload) ≡ length payload = omega arith in
      let (e, (l, d)) =
        read_word-At bytes payload pos (length payload) no_payload_len h (rw same at a) in
      rw (e, d, take-length payload, unzip_plain payload) (ground (arith, l))

  abbrev fields_bytes : ℕ → ℕ → ℕ → ℕ → ℕ → List ℕ → List ℕ
  fields_bytes msg_type flags event sequence error_code payload =
      (if flags == flag_with_event then u32_be_bytes event ++ session_bytes event else [])
      ++ ((if flags == flag_negative_seq || flags == 1 then u32_be_bytes sequence else [])
          ++ ((if msg_type == msg_error then u32_be_bytes error_code else [])
              ++ (u32_be_bytes (u32 (length payload)) ++ payload)))

  parse_fields-At :
      (msg_type flags event sequence error_code : ℕ) (payload bytes : List ℕ)
      → event < 4294967296
      → sequence < 4294967296
      → error_code < 4294967296
      → length payload < 4294967296
      → is_connection_event event ≡ false
      → At 4 bytes (fields_bytes msg_type flags event sequence error_code payload)
      → parse_fields gunzip msg_type flags 0 bytes 4
        ≡ ok (record {
          msg_type = msg_type;
          flags = flags;
          event = if flags == flag_with_event then event else 0;
          sequence = if flags == flag_negative_seq || flags == 1 then sequence else 0;
          error_code = if msg_type == msg_error then error_code else 0;
          payload = payload;
        })
  unfolding parse_fields
  parse_fields-At msg_type flags event sequence error_code payload bytes he hs hc hp c a =
      let (p, e, a) = read_optional_event (flags == flag_with_event) bytes _ 4 event he c a in
      let (q, e', a') =
        read_optional (flags == flag_negative_seq || flags == 1) bytes _ p sequence no_sequence hs
          a in
      let (r, e'', a'') =
        read_optional (msg_type == msg_error) bytes _ q error_code no_error_code hc a' in
      rw
        (
          e,
          or_comm (flags == 1) (flags == flag_negative_seq),
          e',
          e'',
          read_payload-At bytes payload r hp a'',
        )
        refl

  parse_header :
      (b : ℕ) (rest : List ℕ)
      → b < 256
      → parse_message gunzip (17 ∷ b ∷ 16 ∷ 0 ∷ rest)
        ≡ parse_fields gunzip (b / 16) (b % 16) 0 (17 ∷ b ∷ 16 ∷ 0 ∷ rest) 4
  unfolding parse_message
  parse_header b rest h = rw (low_nibble b h) (ground arith)

  -- A frame that `marshal_message` writes is parsed back to its fields: the event under the flag
  -- for events, the sequence under the flags 1 and 2, the error code in error messages, and 0 where
  -- a field is not written. The type and the flags are nibbles, the other numbers and the payload's
  -- length fit in 32 bits, and the event is not one of 50, 51 and 52, whose frames carry a
  -- connection id that `marshal_message` does not write.
  pub parse-marshal :
      (msg_type flags event sequence error_code : ℕ) (payload : List ℕ)
      → msg_type < 16
      → flags < 16
      → event < 4294967296
      → sequence < 4294967296
      → error_code < 4294967296
      → length payload < 4294967296
      → is_connection_event event ≡ false
      → parse_message gunzip (marshal_message msg_type flags event sequence error_code payload)
        ≡ ok (record {
          msg_type = msg_type;
          flags = flags;
          event = if flags == flag_with_event then event else 0;
          sequence = if flags == flag_negative_seq || flags == 1 then sequence else 0;
          error_code = if msg_type == msg_error then error_code else 0;
          payload = payload;
        })
  unfolding marshal_message
  parse-marshal msg_type flags event sequence error_code payload hm hf he hs hc hp c =
      let high : (msg_type * 16 + flags) / 16 ≡ msg_type = omega arith in
      let low : (msg_type * 16 + flags) % 16 ≡ flags = omega arith in
      let body = fields_bytes msg_type flags event sequence error_code payload in
      let frame = 17 ∷ (msg_type * 16 + flags) ∷ 16 ∷ 0 ∷ body in
      rw (first_byte, third_byte, pack_nibbles_lem msg_type flags hm hf)
        (parse_header (msg_type * 16 + flags) body (omega arith)
          ∙ rw (high, low)
              (parse_fields-At msg_type flags event sequence error_code payload frame he hs hc hp c
                (omega arith, refl)))
