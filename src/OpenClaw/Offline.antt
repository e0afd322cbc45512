-- ===== src/OpenClaw/Offline.antt =====
-- crates/xiaozhi-openclaw/src/manager.rs: the queues of messages for devices that are not connected.
-- Times are in milliseconds.
pub mod Delivery
mod Tests
use xiaozhi_esp32_server_rus.Common.{
  ℕ, ◌-◌, ◌*◌, Bool, true, false, List, [], ◌∷◌, ◌++◌, map, Option, none, some, ◌&&◌, not, leb, ltb,
  if◌then◌else◌, length, keep,
}
use xiaozhi_esp32_server_rus.Common.Text.{Text, trim, is_empty}
use xiaozhi_esp32_server_rus.Common.Assoc.{Assoc, lookup, insert, remove}

pub record OpenClawOfflineMessage : Type 0 where
  pub text : Text
  pub correlation_id : Text
  pub is_end : Bool

pub record OfflineMessage : Type 0 where
  pub text : Text
  pub correlation_id : Text
  pub is_end : Bool
  pub created_at : ℕ

abbrev pub Queues : Type 0
Queues = Assoc (List OfflineMessage)

abbrev max_offline_messages : ℕ
max_offline_messages = 20

abbrev offline_ttl : ℕ
offline_ttl = 24 * 3600 * 1000

-- `while queue.len() > MAX_OFFLINE_MESSAGES { queue.pop_front(); }`
pub pop_excess : List OfflineMessage → List OfflineMessage
pop_excess [] = []
pop_excess (msg ∷ queue) =
    let popped = pop_excess queue in
    if ltb max_offline_messages (length (msg ∷ queue)) then popped else msg ∷ queue

-- `or_default()`
abbrev pub or_empty : Option (List OfflineMessage) → List OfflineMessage
or_empty none = []
or_empty (some queue) = queue

pub queue_offline_message_ex : Queues → Text → Text → Text → Bool → ℕ → Queues
queue_offline_message_ex queues device_id text correlation_id is_end now =
    let id = trim device_id in
    let text = trim text in
    let msg : OfflineMessage = record {
      text = text;
      correlation_id = trim correlation_id;
      is_end = is_end;
      created_at = now;
    } in
    if is_empty id
    then queues
    else if is_empty text && not is_end
    then queues
    else insert id (pop_excess (or_empty (lookup id queues) ++ (msg ∷ []))) queues

queue_offline_message : Queues → Text → Text → ℕ → Queues
unfolding queue_offline_message_ex
queue_offline_message queues device_id text now =
    queue_offline_message_ex queues device_id text [] false now

clear_offline_messages : Queues → Text → Queues
clear_offline_messages queues device_id =
    let id = trim device_id in if is_empty id then queues else remove id queues

abbrev pub is_fresh : ℕ → OfflineMessage → Bool
is_fresh now msg = ltb (now - msg.created_at) offline_ttl

abbrev pub opened : OfflineMessage → OpenClawOfflineMessage
opened msg = record { text = msg.text; correlation_id = msg.correlation_id; is_end = msg.is_end }

pub drain_offline_messages : Queues → Text → ℕ → Queues × List OpenClawOfflineMessage
drain_offline_messages queues device_id now =
    let id = trim device_id in
    if is_empty id then (queues, []) else elim (lookup id queues) [
      | none ↦ (queues, [])
      | some queue ↦ (remove id queues, map opened (keep (is_fresh now) queue))
    ]
