-- ===== src/Chat/SpeakPath/Tests.antt =====
-- Runs of speak_path.rs.
use xiaozhi_esp32_server_rus.Common.{
  ℕ, ◌≡◌, refl, true, false, not, ◌&&◌, ◌||◌, none, some, List, [], ◌∷◌, any, arith,
}
use xiaozhi_esp32_server_rus.Common.Text.{codes, text_eq, trim_start_by, trim_end_by, is_whitespace}
use xiaozhi_esp32_server_rus.Chat.State
use xiaozhi_esp32_server_rus.Chat.Session
use xiaozhi_esp32_server_rus.Chat.Session.{ChatSession}
use xiaozhi_esp32_server_rus.Chat.Manager.{ChatManager}
use xiaozhi_esp32_server_rus.Chat.Manager.Retain.{handle_device_goodbye}
use xiaozhi_esp32_server_rus.Chat.SpeakPath.{
  PendingSpeakRequest, SpeakPath, is_set, wake, push_speak_request, should_send_speak_request,
  touch_udp_transport_active, refresh_speak_path_warm_from_transport, on_hardware_hello_received,
  has_pending_speak_request, requires_hello_bootstrap_for_session, is_conversation_active,
  current_speak_path_warm_at_ms, clear_mqtt_rebootstrap_pending,
}
use xiaozhi_esp32_server_rus.Chat.SpeakPath.Requests.{
  notified, prepare_speak_path, push_request, get_or_create_pending_speak_request,
}
use xiaozhi_esp32_server_rus.Chat.SpeakPath.Ready.{SpeakReady, handle_speak_ready_message}
use xiaozhi_esp32_server_rus.Chat.SpeakPath.Reset.{reset_speak_path_after_goodbye}
use xiaozhi_esp32_server_rus.Chat.SpeakPath.Injected.{inject_message_inner, is_guarded}
use xiaozhi_esp32_server_rus.Chat.SpeakPath.Early.{
  wakes, Event, answers, resets, gets, waits, times_out, times_out_at, run,
}
use xiaozhi_esp32_server_rus.Chat.SpeakPath.Lost.{answered_early, answered_early-lost}
use xiaozhi_esp32_server_rus.Chat.SpeakPath.Woken.{ready-wakes}
use xiaozhi_esp32_server_rus.Chat.SpeakPath.Warm.{goodbye-reused}
use xiaozhi_esp32_server_rus.Chat.SpeakPath.Guard.{is_failed, inject-guard}

abbrev session : ChatSession ℕ ℕ
session = Session.new (State.new (λ c. codes "1") (codes "d") (codes "s") 0) 200 false false

abbrev manager : ChatManager ℕ ℕ
manager = record {
  session = some session;
  pre_listen_pcm = [];
  need_fresh_hello = false;
  hello_inited = true;
  listen_start_seq = 0;
  realtime_listen_active = false;
  detect_llm_handle = none;
  tts_manager = true;
  llm_manager = false;
  session_media = true;
  session_abort = true;
  idle_watchdog = some 4;
  retained_cleanup = none;
  is_mqtt_transport = true;
  hello_session_id = none;
  injected_speech_guard = false;
  session_closing = false;
  outbound = true;
}

abbrev request : PendingSpeakRequest
request = record { session_id = codes "s"; waiters = 6 ∷ 7 ∷ []; error = none }

abbrev cold : SpeakPath
cold = record {
  has_udp_binding = true;
  udp_last_active_ms = 0;
  mqtt_rebootstrap_pending = false;
  last_speak_path_warm_at_ms = 0;
  pending_speak_request = none;
  requests = [];
}

abbrev pending : SpeakPath
pending = record cold { pending_speak_request = some 0; requests = request ∷ [] }

abbrev warm : SpeakPath
warm = record cold { udp_last_active_ms = 900 }

abbrev message : SpeakReady
message = record { session_id = some (codes "s"); state = some (codes "ready"); udp_config = none }

-- The task 9 waits at the request of the task 7, and its time is over.
abbrev later : List Event
later =
    answers 5
    ∷ gets (codes "t")
    ∷ waits 1 8
    ∷ waits 0 9
    ∷ answers 6
    ∷ resets (codes "x")
    ∷ times_out 0
    ∷ []

answered_early-lost_example :
    let (p', woken) = run (answered_early cold (codes "s") 4 7) later in
    ((wakes 7 woken && not (any (times_out_at 0) later)) ≡ false)
    × ((wakes 7 woken && not (is_set (notified p' 0))) ≡ false)
answered_early-lost_example = answered_early-lost cold (codes "s") 4 7 later refl refl refl

ready-wakes_example :
    ((handle_speak_ready_message manager pending message 900).1 ≡ wake 6 ∷ wake 7 ∷ [])
    × (notified (handle_speak_ready_message manager pending message 900).0 0 ≡ none)
    × ((handle_speak_ready_message manager pending message 900).0.pending_speak_request ≡ none)
    × (should_send_speak_request manager
          (handle_speak_ready_message manager pending message 900).0
          true
          false
          100
          950
        ≡ false)
unfolding text_eq trim_start_by trim_end_by is_whitespace requires_hello_bootstrap_for_session
ready-wakes_example =
    ready-wakes manager pending message 0 request 900 950 100 false refl refl refl refl refl refl
      refl refl (omega arith) (omega arith) (omega arith) (omega arith)

goodbye-reused_example :
    should_send_speak_request
      (handle_device_goodbye manager 9).0
      (reset_speak_path_after_goodbye warm).0
      true
      false
      100
      950
    ≡ false
goodbye-reused_example =
    goodbye-reused manager session warm 9 false 100 950 refl refl (omega arith) (omega arith)
      (omega arith)

abbrev retaining : ChatManager ℕ ℕ
retaining = record manager { retained_cleanup = some (record { task = 5; target = codes "s" }) }

inject-guard_example :
    ((inject_message_inner retaining (codes "hi") true false none none).0.injected_speech_guard ≡ (
      is_guarded retaining false
      && (not (is_failed (inject_message_inner retaining (codes "hi") true false none none).2)
          || true)))
    × ((inject_message_inner retaining (codes "hi") true false none none).0.retained_cleanup ≡ none)
inject-guard_example = inject-guard retaining (codes "hi") true false none none refl

-- A cold path asks for a request, and without a channel the task is refused.
asked :
    (prepare_speak_path manager cold true false 100 950 (codes "s") true (codes "hi") false).1
    ≡ push_speak_request (codes "hi") (codes "s") false ∷ []
unfolding prepare_speak_path push_request get_or_create_pending_speak_request
    should_send_speak_request requires_hello_bootstrap_for_session is_conversation_active State.new
    Session.new current_speak_path_warm_at_ms
asked = refl

-- UDP that is touched makes the path warm, and a hello ends the rebootstrap.
touched :
    refresh_speak_path_warm_from_transport manager
      (touch_udp_transport_active manager (on_hardware_hello_received cold) 900)
      901
    ≡ record cold { udp_last_active_ms = 900; last_speak_path_warm_at_ms = 900 }
unfolding refresh_speak_path_warm_from_transport touch_udp_transport_active
    on_hardware_hello_received clear_mqtt_rebootstrap_pending has_pending_speak_request
touched = refl
