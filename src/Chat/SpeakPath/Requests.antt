-- ===== src/Chat/SpeakPath/Requests.antt =====
-- The requests of speak_path.rs: `get_or_create_pending_speak_request`, the waiting of
-- `prepare_speak_path_for_injected_speech_once` and `finish_pending_speak_request`, in the steps
-- between which other tasks may run.
use xiaozhi_esp32_server_rus.Common.{
  ℕ, zero, suc, Bool, true, false, not, Option, none, some, List, [], ◌∷◌, ◌++◌, ◌==◌,
  if◌then◌else◌, length, get_elem?,
}
use xiaozhi_esp32_server_rus.Common.Text.{Text, codes}
use xiaozhi_esp32_server_rus.Chat.Manager.{ChatManager}
use xiaozhi_esp32_server_rus.Chat.SpeakPath.{
  PendingSpeakRequest, SpeakPath, Effect, wake, push_speak_request, should_send_speak_request,
}

unfoldable pub get_or_create_pending_speak_request : SpeakPath → Text → SpeakPath × ℕ × Bool
get_or_create_pending_speak_request p session_id = got p.pending_speak_request
  where
    got : Option ℕ → SpeakPath × ℕ × Bool
    got (some k) = (p, k, false)
    got none = (
      record p {
        pending_speak_request = some (length p.requests);
        requests =
            p.requests ++ record { session_id = session_id; waiters = []; error = none } ∷ [];
      },
      length p.requests,
      true,
    )

-- `Arc::ptr_eq`
abbrev pub is_request : Option ℕ → ℕ → Bool
is_request none k = false
is_request (some j) k = j == k

abbrev or_error : Option Text → Option Text → Option Text
or_error none old = old
or_error (some e) old = some e

abbrev pub waking : List ℕ → List Effect
waking [] = []
waking (t ∷ ts) = wake t ∷ waking ts

-- The request at a place after its error is set and its waiters are notified.
abbrev pub finish_at :
    ℕ → Option Text → List PendingSpeakRequest → List PendingSpeakRequest × List Effect
finish_at k err [] = ([], [])
finish_at zero err (r ∷ rs) =
    (record r { waiters = []; error = or_error err r.error } ∷ rs, waking r.waiters)
finish_at (suc k) err (r ∷ rs) = (r ∷ (finish_at k err rs).0, (finish_at k err rs).1)

unfoldable pub finish_pending_speak_request : SpeakPath → ℕ → Option Text → SpeakPath × List Effect
finish_pending_speak_request p k err = (
  record p {
    pending_speak_request =
        if is_request p.pending_speak_request k then none else p.pending_speak_request;
    requests = (finish_at k err p.requests).0;
  },
  (finish_at k err p.requests).1,
)

abbrev pub wait_at : ℕ → ℕ → List PendingSpeakRequest → List PendingSpeakRequest
wait_at k task [] = []
wait_at zero task (r ∷ rs) = record r { waiters = r.waiters ++ task ∷ [] } ∷ rs
wait_at (suc k) task (r ∷ rs) = r ∷ wait_at k task rs

-- `pending.notify.notified()`: from here on the task is notified.
unfoldable pub wait_for : SpeakPath → ℕ → ℕ → SpeakPath
wait_for p k task = record p { requests = wait_at k task p.requests }

pub data Prepared : Type 0 where
  ready : Prepared
  refused : Text → Prepared
  waits_for : ℕ → Prepared

abbrev not_sent : Text
not_sent = codes "speak_request 下发失败（无硬件 MQTT 通道）"

abbrev not_sent_error : Text
not_sent_error = codes "speak_request 下发失败（无硬件 MQTT 通道，请确认设备 MQTT 在线）"

abbrev session_of : ℕ → List PendingSpeakRequest → Text
session_of k [] = []
session_of zero (r ∷ rs) = r.session_id
session_of (suc k) (r ∷ rs) = session_of k rs

-- A request that was got: a new one is sent, if there is a channel.
unfoldable pub push_request :
    SpeakPath → ℕ → Bool → Bool → Text → Bool → SpeakPath × List Effect × Prepared
unfolding finish_pending_speak_request
push_request p k created sent preview auto_listen =
    if not created
    then (p, [], waits_for k)
    else if sent
    then (p, push_speak_request preview (session_of k p.requests) auto_listen ∷ [], waits_for k)
    else (let (p', es) = finish_pending_speak_request p k (some not_sent) in
        (p', es, refused not_sent_error))

module _ {C A : Type 0} where
  -- Up to the wait. `session_id` is what `ensure_client_session_id` gives, and `sent` whether the
  -- command goes out.
  unfoldable pub prepare_speak_path :
      ChatManager C A
      → SpeakPath
      → Bool
      → Bool
      → ℕ
      → ℕ
      → Text
      → Bool
      → Text
      → Bool
      → SpeakPath × List Effect × Prepared
  unfolding get_or_create_pending_speak_request
  prepare_speak_path m p hardware tts_active reuse_ms now session_id sent preview auto_listen =
      if not m.is_mqtt_transport
      then (p, [], ready)
      else if not (should_send_speak_request m p hardware tts_active reuse_ms now)
      then (p, [], ready)
      else (let (p', k, created) = get_or_create_pending_speak_request p session_id in
          push_request p' k created sent preview auto_listen)

abbrev pub error_at : Option PendingSpeakRequest → Option Text
error_at none = none
error_at (some r) = r.error

-- A task that was notified reads the error of its request.
unfoldable pub notified : SpeakPath → ℕ → Option Text
notified p k = error_at (get_elem? p.requests k)

abbrev timeout_error : Text
timeout_error = codes "等待 speak_ready 超时"

-- The wait is over by the clock.
unfoldable pub timed_out : SpeakPath → ℕ → SpeakPath × List Effect × Text
unfolding finish_pending_speak_request
timed_out p k =
    let (p', es) = finish_pending_speak_request p k (some timeout_error) in (p', es, timeout_error)
