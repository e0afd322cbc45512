-- ===== src/Chat/SpeakPath/Lost.antt =====
-- An answer in speak_path.rs that comes before the task waits for it wakes nobody.
use xiaozhi_esp32_server_rus.Common.{
  ℕ, ◌≡◌, refl, true, false, not, ◌&&◌, none, some, List, [], ◌∷◌, ◌++◌, ◌==◌, if◌then◌else◌,
  length, any, all, arith,
}
use xiaozhi_esp32_server_rus.Common.Text.{Text}
use xiaozhi_esp32_server_rus.Chat.SpeakPath.{
  PendingSpeakRequest, SpeakPath, is_set, mark_speak_path_warm, clear_mqtt_rebootstrap_pending,
}
use xiaozhi_esp32_server_rus.Chat.SpeakPath.Requests.{
  get_or_create_pending_speak_request, is_request, finish_at, finish_pending_speak_request, wait_at,
  wait_for, notified,
}
use xiaozhi_esp32_server_rus.Chat.SpeakPath.Failed.{run-FailsIfWoken}
use xiaozhi_esp32_server_rus.Chat.SpeakPath.Ready.{accept_answer, take_answer}
use xiaozhi_esp32_server_rus.Chat.SpeakPath.Early.{
  wakes, waits_at, OnlyAt, IsLost, Event, is_other, times_out_at, run,
}

late-OnlyAt :
    (task : ℕ) (rs : List PendingSpeakRequest) (r : PendingSpeakRequest)
    → any (waits_at task) rs ≡ false
    → OnlyAt
        (length rs)
        task
        (wait_at (length rs) task (finish_at (length rs) none (rs ++ r ∷ [])).0)
late-OnlyAt task [] r h = refl
late-OnlyAt task (x ∷ rs) r h = (ground arith, late-OnlyAt task rs r (ground arith))

-- The request is new, and its answer is taken before the task waits.
abbrev pub answered_early : SpeakPath → Text → ℕ → ℕ → SpeakPath
answered_early p session_id now task =
    wait_for (take_answer (get_or_create_pending_speak_request p session_id).0 now).0
      (length p.requests) task

gone : (k : ℕ) → is_request (if k == k then none else some k) k ≡ false
gone k = ground arith

early-IsLost :
    (p : SpeakPath) (session_id : Text) (now task : ℕ)
    → p.pending_speak_request ≡ none
    → any (waits_at task) p.requests ≡ false
    → IsLost (length p.requests) task (answered_early p session_id now task)
unfolding get_or_create_pending_speak_request take_answer accept_answer finish_pending_speak_request
    mark_speak_path_warm clear_mqtt_rebootstrap_pending wait_for
early-IsLost p session_id now task h w =
    rw h (gone (length p.requests), late-OnlyAt task p.requests _ w)

-- When the answer to a new request is taken after the request was made but before its task waits for
-- the notification, the task never goes on with its speech, whatever other tasks do behind it and in
-- whatever order: no later answer, reset, request or wait wakes it, only a timeout at this request, its
-- own or that of another task; and then the request has an error.
pub answered_early-lost :
    (p : SpeakPath) (session_id : Text) (now task : ℕ) (es : List Event)
    → p.pending_speak_request ≡ none
    → any (waits_at task) p.requests ≡ false
    → all (is_other task) es ≡ true
    → let k = length p.requests in
      let (p', woken) = run (answered_early p session_id now task) es in
      ((wakes task woken && not (any (times_out_at k) es)) ≡ false)
      × ((wakes task woken && not (is_set (notified p' k))) ≡ false)
answered_early-lost p session_id now task es h w o =
    run-FailsIfWoken (answered_early p session_id now task) (length p.requests) task es o
      (early-IsLost p session_id now task h w)
