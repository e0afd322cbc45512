-- ===== src/OpenClaw/Session.antt =====
-- crates/xiaozhi-openclaw/src/agent_session.rs: the connection of one agent. The state of a stream
-- and the messages are the parameters `Stream` and `Message`; a channel is a number.
use xiaozhi_esp32_server_rus.Common.{
  ℕ, Bool, true, false, [], ◌∷◌, Option, none, some, ◌||◌, if◌then◌else◌,
}
use xiaozhi_esp32_server_rus.Common.Text.{Text, trim, is_empty}
use xiaozhi_esp32_server_rus.Common.Assoc.{Assoc, lookup, insert, remove}

pub record AgentSession (Stream : Type 0) : Type 0 where
  pub agent_id : Text
  outbound : ℕ
  pub closed : Bool
  pub pending : Assoc Text
  pub modes : Assoc Bool
  streams : Assoc Stream

pub data SendError : Type 0 where
  session_closed send_failed : SendError

pub data SendResult (Message : Type 0) : Type 0 where
  sent : ℕ → Message → SendResult Message
  refused : SendError → SendResult Message

abbrev pub or_false : Option Bool → Bool
or_false none = false
or_false (some b) = b

-- Whether a key was there, as `remove(..).is_some()` says.
abbrev is_some_mode : Option Bool → Bool
is_some_mode none = false
is_some_mode (some b) = true

-- The entries of the one map put into the other, in an order that `DashMap` leaves open.
unfoldable pub insert_all : Assoc Bool → Assoc Bool → Assoc Bool
insert_all [] into = into
insert_all ((key, value) ∷ m) into = insert key value (insert_all m into)

module _ {Stream : Type 0} where
  unfoldable pub new : Text → ℕ → AgentSession Stream
  new agent_id outbound = record {
    agent_id = agent_id;
    outbound = outbound;
    closed = false;
    pending = [];
    modes = [];
    streams = [];
  }

  unfoldable pub copy_modes_from : AgentSession Stream → AgentSession Stream → AgentSession Stream
  copy_modes_from s other = record s { modes = insert_all other.modes s.modes }

  abbrev or_new : Stream → Option Stream → Stream
  or_new fresh none = fresh
  or_new fresh (some stream) = stream

  load_or_create_stream : Stream → AgentSession Stream → Text → AgentSession Stream × Stream
  load_or_create_stream fresh s correlation_id =
      let id = trim correlation_id in
      let stream = or_new fresh (lookup id s.streams) in
      (record s { streams = insert id stream s.streams }, stream)

  update_stream : Stream → AgentSession Stream → Text → (Stream → Stream) → AgentSession Stream
  update_stream fresh s correlation_id update =
      let id = trim correlation_id in
      if is_empty id
      then s
      else record s { streams = insert id (update (or_new fresh (lookup id s.streams))) s.streams }

  abbrev named_device : (Stream → Text) → Option Stream → Option Text
  named_device device_id none = none
  named_device device_id (some stream) =
      if is_empty (device_id stream) then none else some (device_id stream)

  get_stream_device_id : (Stream → Text) → AgentSession Stream → Text → Option Text
  get_stream_device_id device_id s correlation_id =
      named_device device_id (lookup (trim correlation_id) s.streams)

  remove_stream : AgentSession Stream → Text → AgentSession Stream
  remove_stream s correlation_id =
      let id = trim correlation_id in
      if is_empty id then s else record s { streams = remove id s.streams }

  unfoldable pub track_pending : AgentSession Stream → Text → Text → AgentSession Stream
  track_pending s correlation_id device_id =
      let id = trim correlation_id in
      let device = trim device_id in
      if is_empty id || is_empty device
      then s
      else record s { pending = insert id device s.pending }

  remove_pending : AgentSession Stream → Text → AgentSession Stream
  remove_pending s correlation_id =
      let id = trim correlation_id in
      if is_empty id then s else record s { pending = remove id s.pending }

  unfoldable pub resolve_pending : AgentSession Stream → Text → AgentSession Stream × Option Text
  resolve_pending s correlation_id =
      let id = trim correlation_id in
      if is_empty id
      then (s, none)
      else (record s { pending = remove id s.pending }, lookup id s.pending)

  peek_pending : AgentSession Stream → Text → Option Text
  peek_pending s correlation_id = lookup (trim correlation_id) s.pending

  unfoldable pub enter_mode : AgentSession Stream → Text → AgentSession Stream × Bool
  enter_mode s device_id =
      let id = trim device_id in
      if is_empty id then (s, false) else (record s { modes = insert id true s.modes }, true)

  unfoldable pub exit_mode : AgentSession Stream → Text → AgentSession Stream × Bool
  exit_mode s device_id =
      let id = trim device_id in
      if is_empty id
      then (s, false)
      else (record s { modes = remove id s.modes }, is_some_mode (lookup id s.modes))

  unfoldable pub is_mode_enabled : AgentSession Stream → Text → Bool
  is_mode_enabled s device_id = or_false (lookup (trim device_id) s.modes)

  -- `is_open` says which channels have a receiver.
  pub send : {Message : Type 0} → (ℕ → Bool) → AgentSession Stream → Message → SendResult Message
  send is_open s msg =
      if s.closed
      then refused session_closed
      else if is_open s.outbound
      then sent s.outbound msg
      else refused send_failed

  unfoldable pub close : AgentSession Stream → AgentSession Stream
  close s = record s { closed = true }
