-- ===== src/Chat/Endpoints/Tests.antt =====
-- A device with a board and a browser in endpoint_hub.rs.
use xiaozhi_esp32_server_rus.Common.{ℕ, ◌≡◌, refl, Bool, true, [], ◌∷◌, some}
use xiaozhi_esp32_server_rus.Common.Text.{codes, text_eq, trim_start_by, trim_end_by, is_whitespace}
use xiaozhi_esp32_server_rus.Common.Assoc.{remove}
use xiaozhi_esp32_server_rus.Chat.Endpoints.{
  EndpointHub, EndpointRegistration, hardware, web, tool, hardware_first, all_endpoints, audio,
  unregister, send_audio_routed, send_each, primary_sender, parse_tts_audio_route,
}

abbrev board : EndpointRegistration
board = record { id = codes "esp"; kind = hardware }

abbrev hub : EndpointHub
hub = record {
  endpoints =
      (codes "tool", (record { id = codes "tool"; kind = tool }, 1))
      ∷ (codes "web", (record { id = codes "web"; kind = web }, 2))
      ∷ (codes "esp", (board, 3))
      ∷ [];
  tts_audio_route = hardware_first;
}

abbrev alive : ℕ → Bool
alive tx = true

audio_to_board : send_audio_routed alive hub (9 ∷ []) ≡ ((3, audio (9 ∷ [])) ∷ [], 1)
unfolding send_audio_routed send_each
audio_to_board = refl

audio_to_web :
    (send_audio_routed alive (unregister hub (codes "esp")).0 (9 ∷ [])).0 ≡ (2, audio (9 ∷ [])) ∷ []
unfolding send_audio_routed send_each unregister remove text_eq
audio_to_web = refl

primary_is_board : primary_sender hub ≡ some 3
unfolding primary_sender
primary_is_board = refl

default_route : parse_tts_audio_route (λ s. s) (codes " all ") ≡ all_endpoints
unfolding parse_tts_audio_route text_eq trim_start_by trim_end_by is_whitespace
default_route = refl
