-- ===== src/Chat/Endpoints/Registry.antt =====
-- Registering and unregistering in endpoint_hub.rs.
use xiaozhi_esp32_server_rus.Common.{ℕ, ◌≡◌, Bool, List, none, some, arith, if◌then◌else◌}
use xiaozhi_esp32_server_rus.Common.Text.{Text, text_eq}
use xiaozhi_esp32_server_rus.Common.Assoc.{lookup-insert, lookup-remove}
use xiaozhi_esp32_server_rus.Chat.Endpoints.{
  EndpointRegistration, Endpoint, EndpointHub, command, register, unregister, send_command_to,
}

module _ (is_open : ℕ → Bool) where
  -- A command to an endpoint goes to the channel under which that id was registered last, if its
  -- receiver is alive; registering one id does not change where commands to another go.
  send_command_to-register :
      (hub : EndpointHub) (reg : EndpointRegistration) (tx : ℕ) (id : Text) (bytes : List ℕ)
      → send_command_to is_open (register hub reg tx) id bytes ≡ (
          if text_eq reg.id id
          then (if is_open tx then some (tx, command bytes) else none)
          else send_command_to is_open hub id bytes)
  unfolding send_command_to register
  send_command_to-register hub reg tx id bytes =
      ground (arith, lookup-insert reg.id id (let e : Endpoint = (reg, tx) in e) hub.endpoints)

  -- After an endpoint is unregistered no command reaches its id, and the others get theirs as before.
  send_command_to-unregister :
      (hub : EndpointHub) (gone id : Text) (bytes : List ℕ)
      → send_command_to is_open (unregister hub gone).0 id bytes
        ≡ (if text_eq gone id then none else send_command_to is_open hub id bytes)
  unfolding send_command_to unregister
  send_command_to-unregister hub gone id bytes = ground (arith, lookup-remove gone id hub.endpoints)
