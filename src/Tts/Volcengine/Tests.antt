-- ===== src/Tts/Volcengine/Tests.antt =====
-- Frames of volcengine_protocol.rs; the codec of the tests puts a byte in front.
use xiaozhi_esp32_server_rus.Common.{
  ℕ, ◌≡◌, ◌≢◌, refl, List, [], ◌∷◌, Option, none, some, arith, true,
}
use xiaozhi_esp32_server_rus.Tts.Volcengine.{
  ok, err, frame_short, marshal_message, marshal_full_client, marshal_finish_connection,
  marshal_doubao_ws_binary_request, parse_message, parse_fields, pack_nibbles, read_payload,
  read_word, read_event, skip_connection, is_stream_end, no_payload_len,
}
use xiaozhi_esp32_server_rus.Tts.Volcengine.RoundTrip.{parse-marshal}
use xiaozhi_esp32_server_rus.Tts.Volcengine.Compressed.{Gzip}

abbrev unframe : List ℕ → Option (List ℕ)
unframe [] = none
unframe (b ∷ bs) = some bs

framed :
    (payload out : List ℕ)
    → ◌≡◌ {A = Option (List ℕ)} (some (0x1f ∷ payload)) (some out)
    → out ≡ 0x1f ∷ payload
framed payload out e = cc

framing_not_empty :
    (payload out : List ℕ) → ◌≡◌ {A = Option (List ℕ)} (some (0x1f ∷ payload)) (some out) → out ≢ []
framing_not_empty payload out e n = ground (arith, framed payload out e)

framing_decodes :
    (payload out : List ℕ)
    → ◌≡◌ {A = Option (List ℕ)} (some (0x1f ∷ payload)) (some out)
    → unframe out ≡ some payload
framing_decodes payload out e = ground (arith, framed payload out e)

abbrev framing : Gzip
framing = record {
  gzip = λ payload. some (0x1f ∷ payload);
  gunzip = unframe;
  not_empty = framing_not_empty;
  decodes = framing_decodes;
}

finish_connection :
    marshal_finish_connection ≡ 0x11 ∷ 0x14 ∷ 0x10 ∷ 0 ∷ 0 ∷ 0 ∷ 0 ∷ 2 ∷ 0 ∷ 0 ∷ 0 ∷ 0 ∷ []
unfolding marshal_finish_connection marshal_message pack_nibbles
finish_connection = refl

full_client : marshal_full_client (7 ∷ []) ≡ 0x11 ∷ 0x10 ∷ 0x10 ∷ 0 ∷ 0 ∷ 0 ∷ 0 ∷ 1 ∷ 7 ∷ []
unfolding marshal_full_client marshal_message pack_nibbles
full_client = refl

parse_short : parse_message unframe (0x11 ∷ []) ≡ err frame_short
unfolding parse_message
parse_short = refl

-- The frame of a connection event as `marshal_message` writes it is not read back.
connection_event_lost :
    parse_message unframe (marshal_message 1 4 50 0 0 (7 ∷ [])) ≡ err no_payload_len
unfolding parse_message parse_fields marshal_message pack_nibbles read_event read_word
    skip_connection read_payload
connection_event_lost = refl

parse-marshal_example :
    parse_message unframe (marshal_message 11 4 352 5 6 (7 ∷ []))
    ≡ ok (record {
      msg_type = 11;
      flags = 4;
      event = 352;
      sequence = 0;
      error_code = 0;
      payload = 7 ∷ [];
    })
parse-marshal_example =
    parse-marshal unframe 11 4 352 5 6 (7 ∷ []) (omega arith) (omega arith) (omega arith)
      (omega arith) (omega arith) (omega arith) refl

abbrev doubao_frame : List ℕ
doubao_frame = 17 ∷ 16 ∷ 17 ∷ 0 ∷ 0 ∷ 0 ∷ 0 ∷ 2 ∷ 0x1f ∷ 7 ∷ []

doubao_marshalled : marshal_doubao_ws_binary_request framing.gzip (7 ∷ []) ≡ some doubao_frame
unfolding marshal_doubao_ws_binary_request
doubao_marshalled = refl

error_ends_stream :
    is_stream_end
      (record { msg_type = 15; flags = 0; event = 0; sequence = 0; error_code = 9; payload = [] })
    ≡ true
unfolding is_stream_end
error_ends_stream = refl
