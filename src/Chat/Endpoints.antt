-- ===== src/Chat/Endpoints.antt =====
-- crates/xiaozhi-chat/src/endpoint_hub.rs: the connections of one logical device. A channel is a
-- number, and `is_open` says whether its receiver is alive; what is sent is returned as a list.
pub mod Routing
pub mod Registry
mod Tests
use xiaozhi_esp32_server_rus.Common.{
  ℕ, suc, Bool, true, false, not, ◌&&◌, ◌||◌, List, [], ◌∷◌, map, Option, none, some, if◌then◌else◌,
  length, any, keep, find,
}
use xiaozhi_esp32_server_rus.Common.Text.{Text, codes, text_eq, trim}
use xiaozhi_esp32_server_rus.Common.Assoc.{Assoc, lookup, insert, remove}

pub data EndpointKind : Type 0 where
  hardware web tool : EndpointKind

pub data TtsAudioRoute : Type 0 where
  hardware_first all_endpoints hardware_only web_only : TtsAudioRoute

pub data OutboundFrame : Type 0 where
  command audio : List ℕ → OutboundFrame

pub record EndpointRegistration : Type 0 where
  pub id : Text
  pub kind : EndpointKind

abbrev pub Endpoint : Type 0
Endpoint = EndpointRegistration × ℕ

pub record EndpointHub : Type 0 where
  pub endpoints : Assoc Endpoint
  pub tts_audio_route : TtsAudioRoute

abbrev pub is_hardware : EndpointKind → Bool
is_hardware hardware = true
is_hardware _ = false

abbrev pub is_web : EndpointKind → Bool
is_web web = true
is_web _ = false

abbrev pub supports_audio_playback : EndpointKind → Bool
supports_audio_playback kind = is_hardware kind || is_web kind

route_as_str : TtsAudioRoute → Text
route_as_str hardware_first = codes "hardware_first"
route_as_str all_endpoints = codes "all"
route_as_str hardware_only = codes "hardware_only"
route_as_str web_only = codes "web_only"

-- `to_lowercase` is an argument.
pub parse_tts_audio_route : (Text → Text) → Text → TtsAudioRoute
parse_tts_audio_route to_lowercase target =
    let t = to_lowercase (trim target) in
    if text_eq t (codes "web") || text_eq t (codes "web_only")
    then web_only
    else if text_eq t (codes "hardware") || text_eq t (codes "hardware_only")
    then hardware_only
    else if text_eq t (codes "all")
    then all_endpoints
    else hardware_first

pub new : EndpointHub
new = record { endpoints = []; tts_audio_route = hardware_first }

pub set_tts_audio_route : EndpointHub → TtsAudioRoute → EndpointHub
set_tts_audio_route hub route = record hub { tts_audio_route = route }

pub register : EndpointHub → EndpointRegistration → ℕ → EndpointHub
register hub reg tx = record hub { endpoints = insert reg.id (reg, tx) hub.endpoints }

abbrev no_endpoints : Assoc Endpoint → Bool
no_endpoints [] = true
no_endpoints (e ∷ es) = false

pub is_empty : EndpointHub → Bool
is_empty hub = no_endpoints hub.endpoints

pub unregister : EndpointHub → Text → EndpointHub × Bool
unfolding is_empty
unregister hub id =
    let hub' = record hub { endpoints = remove id hub.endpoints } in (hub', is_empty hub')

endpoint_count : EndpointHub → ℕ
endpoint_count hub = length hub.endpoints

-- `values()`
abbrev pub values : Assoc Endpoint → List Endpoint
values m = map (λ e. e.1) m

abbrev pub kind_of : Endpoint → EndpointKind
kind_of e = e.0.kind

pub has_hardware : EndpointHub → Bool
has_hardware hub = any (λ e. is_hardware (kind_of e)) (values hub.endpoints)

has_web : EndpointHub → Bool
has_web hub = any (λ e. is_web (kind_of e)) (values hub.endpoints)

list_endpoints : EndpointHub → List EndpointRegistration
list_endpoints hub = map (λ e. e.0) (values hub.endpoints)

abbrev first_sender : List Endpoint → Option ℕ
first_sender [] = none
first_sender (e ∷ es) = some e.1

pub primary_sender : EndpointHub → Option ℕ
primary_sender hub = elim (find (λ e. is_hardware (kind_of e)) (values hub.endpoints)) [
  | none ↦ first_sender (values hub.endpoints)
  | some e ↦ some e.1
]

clear : EndpointHub → EndpointHub
clear hub = record hub { endpoints = [] }

-- The endpoints of a kind, in the map's order, as their channels.
abbrev pub senders : (EndpointKind → Bool) → EndpointHub → List ℕ
senders test hub = map (λ e. e.1) (keep (λ e. test (kind_of e)) (values hub.endpoints))

abbrev if_none : List ℕ → List ℕ → List ℕ
if_none [] other = other
if_none (t ∷ ts) other = t ∷ ts

pub audio_targets : EndpointHub → List ℕ
audio_targets hub = elim hub.tts_audio_route [
  | all_endpoints ↦ senders supports_audio_playback hub
  | hardware_only ↦ senders is_hardware hub
  | web_only ↦ senders is_web hub
  | hardware_first ↦ if_none (senders is_hardware hub) (senders is_web hub)
]

module _ (is_open : ℕ → Bool) where
  -- One `send` to each channel; those whose receiver is gone fail.
  pub send_each : OutboundFrame → List ℕ → List (ℕ × OutboundFrame) × ℕ
  send_each frame [] = ([], 0)
  send_each frame (tx ∷ txs) =
      let (sent, count) = send_each frame txs in
      if is_open tx then ((tx, frame) ∷ sent, suc count) else (sent, count)

  send_command_all : EndpointHub → List ℕ → List (ℕ × OutboundFrame) × ℕ
  send_command_all hub bytes = send_each (command bytes) (map (λ e. e.1) (values hub.endpoints))

  pub send_command_to : EndpointHub → Text → List ℕ → Option (ℕ × OutboundFrame)
  send_command_to hub id bytes = elim (lookup id hub.endpoints) [
    | none ↦ none
    | some (reg, tx) ↦ if is_open tx then some (tx, command bytes) else none
  ]

  pub send_audio_routed : EndpointHub → List ℕ → List (ℕ × OutboundFrame) × ℕ
  unfolding audio_targets
  send_audio_routed hub bytes = send_each (audio bytes) (audio_targets hub)
