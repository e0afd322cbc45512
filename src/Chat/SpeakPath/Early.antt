-- ===== src/Chat/SpeakPath/Early.antt =====
-- An answer in speak_path.rs that comes before the task waits for it.
use xiaozhi_esp32_server_rus.Common.{
  ℕ, zero, suc, ◌<◌, ◌≡◌, refl, sym, ap, ◌∙◌, Bool, true, false, Bool-cases, inl, inr, not, ◌||◌,
  Option, none, some, List, [], ◌∷◌, ◌++◌, ◌==◌, length, any, any-append, arith,
}
use xiaozhi_esp32_server_rus.Common.Text.{Text}
use xiaozhi_esp32_server_rus.Chat.SpeakPath.{
  PendingSpeakRequest, SpeakPath, Effect, wake, push_speak_request,
}
use xiaozhi_esp32_server_rus.Chat.SpeakPath.Requests.{
  get_or_create_pending_speak_request, is_request, waking, finish_at, finish_pending_speak_request,
  wait_at, wait_for, timed_out,
}
use xiaozhi_esp32_server_rus.Chat.SpeakPath.Ready.{accept_answer, take_answer}
use xiaozhi_esp32_server_rus.Chat.SpeakPath.Reset.{
  reset_speak_path_after_session_reset, take_pending,
}
use xiaozhi_esp32_server_rus.Chat.SpeakPath.{mark_speak_path_warm, clear_mqtt_rebootstrap_pending}

abbrev pub is_waked : ℕ → Effect → Bool
is_waked task (wake t) = t == task
is_waked task (push_speak_request a b c) = false

abbrev pub wakes : ℕ → List Effect → Bool
wakes task es = any (is_waked task) es

abbrev pub waits_at : ℕ → PendingSpeakRequest → Bool
waits_at task r = any (λ t. t == task) r.waiters

-- The task waits for no request but perhaps for that at place `k`, which there is.
abbrev pub OnlyAt : ℕ → ℕ → List PendingSpeakRequest → Type 0
OnlyAt k task [] = true ≡ false
OnlyAt zero task (r ∷ rs) = any (waits_at task) rs ≡ false
OnlyAt (suc k) task (r ∷ rs) = (waits_at task r ≡ false) × OnlyAt k task rs

waking-wakes : (task : ℕ) (ts : List ℕ) → wakes task (waking ts) ≡ any (λ t. t == task) ts
waking-wakes task [] = refl
waking-wakes task (t ∷ ts) = ap (λ b. (t == task) || b) (waking-wakes task ts)

-- No task that waits nowhere is woken, and it still waits nowhere.
finish-none :
    (j task : ℕ) (err : Option Text) (rs : List PendingSpeakRequest)
    → any (waits_at task) rs ≡ false
    → (wakes task (finish_at j err rs).1 ≡ false)
      × (any (waits_at task) (finish_at j err rs).0 ≡ false)
finish-none j task err [] h = (refl, refl)
finish-none zero task err (r ∷ rs) h = ground (arith, waking-wakes task r.waiters)
finish-none (suc j) task err (r ∷ rs) h = ground (arith, finish-none j task err rs)

finish-OnlyAt :
    (j k task : ℕ) (err : Option Text) (rs : List PendingSpeakRequest)
    → (j == k) ≡ false
    → OnlyAt k task rs
    → (wakes task (finish_at j err rs).1 ≡ false) × OnlyAt k task (finish_at j err rs).0
finish-OnlyAt j k task err [] n h = (refl, h)
finish-OnlyAt zero zero task err (r ∷ rs) n h = absurd (ground arith)
finish-OnlyAt (suc j) zero task err (r ∷ rs) n h = finish-none j task err rs h
finish-OnlyAt zero (suc k) task err (r ∷ rs) n (h, hs) =
    (waking-wakes task r.waiters ∙ h, (refl, hs))
finish-OnlyAt (suc j) (suc k) task err (r ∷ rs) n (h, hs) =
    let ih = finish-OnlyAt j k task err rs (ground arith) hs in (ih.0, (h, ih.1))

any-wait :
    (j task other : ℕ) (rs : List PendingSpeakRequest)
    → (other == task) ≡ false
    → any (waits_at task) rs ≡ false
    → any (waits_at task) (wait_at j other rs) ≡ false
any-wait j task other [] n h = refl
any-wait zero task other (r ∷ rs) n h =
    ground (arith, any-append (λ t. t == task) r.waiters (other ∷ []))
any-wait (suc j) task other (r ∷ rs) n h = ground (arith, any-wait j task other rs)

wait-OnlyAt :
    (j k task other : ℕ) (rs : List PendingSpeakRequest)
    → (other == task) ≡ false
    → OnlyAt k task rs
    → OnlyAt k task (wait_at j other rs)
wait-OnlyAt j k task other [] n h = h
wait-OnlyAt zero zero task other (r ∷ rs) n h = h
wait-OnlyAt (suc j) zero task other (r ∷ rs) n h = any-wait j task other rs n h
wait-OnlyAt zero (suc k) task other (r ∷ rs) n (h, hs) =
    (any-append (λ t. t == task) r.waiters (other ∷ []) ∙ ground arith, hs)
wait-OnlyAt (suc j) (suc k) task other (r ∷ rs) n (h, hs) = (h, wait-OnlyAt j k task other rs n hs)

new-OnlyAt :
    (k task : ℕ) (rs : List PendingSpeakRequest) (id : Text)
    → OnlyAt k task rs
    → OnlyAt k task (rs ++ record { session_id = id; waiters = []; error = none } ∷ [])
      × (k < length rs)
new-OnlyAt k task [] id h = absurd (ground arith)
new-OnlyAt zero task (r ∷ rs) id h = (any-append (waits_at task) rs _ ∙ ground arith, omega arith)
new-OnlyAt (suc k) task (r ∷ rs) id (h, hs) =
    let ih = new-OnlyAt k task rs id hs in ((h, ih.0), omega (arith, ih.1))

-- A task is lost at a request: the request is no longer pending, and the task waits for no other.
abbrev pub IsLost : ℕ → ℕ → SpeakPath → Type 0
IsLost k task p = (is_request p.pending_speak_request k ≡ false) × OnlyAt k task p.requests

-- What other tasks do: the manager takes an answer at some time or is reset, a request is got, a task
-- waits, or the time of one is over.
pub data Event : Type 0 where
  answers : ℕ → Event
  resets : Text → Event
  gets : Text → Event
  waits : ℕ → ℕ → Event
  times_out : ℕ → Event

unfoldable pub step : SpeakPath → Event → SpeakPath × List Effect
step p (answers now) = take_answer p now
step p (resets reason) = reset_speak_path_after_session_reset p reason
step p (gets session_id) = ((get_or_create_pending_speak_request p session_id).0, [])
step p (waits j other) = (wait_for p j other, [])
step p (times_out j) = ((timed_out p j).0, (timed_out p j).1)

-- What other tasks do: another task waits. The time may be over of any task, at any request.
abbrev pub is_other : ℕ → Event → Bool
is_other task (answers now) = true
is_other task (resets reason) = true
is_other task (gets session_id) = true
is_other task (waits j other) = not (other == task)
is_other task (times_out j) = true

abbrev pub times_out_at : ℕ → Event → Bool
times_out_at k (answers now) = false
times_out_at k (resets reason) = false
times_out_at k (gets session_id) = false
times_out_at k (waits j other) = false
times_out_at k (times_out j) = j == k

abbrev IsLostStep : ℕ → ℕ → SpeakPath × List Effect → Type 0
IsLostStep k task (p, es) = (wakes task es ≡ false) × IsLost k task p

finish-IsLost :
    (p : SpeakPath) (j k task : ℕ) (err : Option Text)
    → (j == k) ≡ false
    → IsLost k task p
    → IsLostStep k task (finish_pending_speak_request p j err)
unfolding finish_pending_speak_request
finish-IsLost p j k task err n (h, o) =
    let f = finish-OnlyAt j k task err p.requests n o in
    (
      f.0,
      (
        elim (Bool-cases (is_request p.pending_speak_request j)) [
          | inl e ↦ rw e refl
          | inr e ↦ rw e h
        ],
        f.1,
      ),
    )

got-IsLost :
    (p : SpeakPath) (k task : ℕ) (id : Text)
    → IsLost k task p
    → IsLost k task (get_or_create_pending_speak_request p id).0
unfolding get_or_create_pending_speak_request
got-IsLost p k task id (h, o) = by_pending p.pending_speak_request refl
  where
    by_pending :
        (q : Option ℕ)
        → p.pending_speak_request ≡ q
        → IsLost k task (get_or_create_pending_speak_request p id).0
    by_pending none e =
        rw e
          (ground (arith, new-OnlyAt k task p.requests id o), (new-OnlyAt k task p.requests id o).0)
    by_pending (some j) e = rw e (ap (λ x. is_request x k) (sym e) ∙ h, o)

accepted-IsLost :
    (p : SpeakPath) (q : Option ℕ) (k task now : ℕ)
    → is_request q k ≡ false
    → IsLost k task p
    → IsLostStep k task (accept_answer p q now)
unfolding accept_answer mark_speak_path_warm clear_mqtt_rebootstrap_pending
accepted-IsLost p none k task now n h = (refl, h)
accepted-IsLost p (some j) k task now n h =
    finish-IsLost (clear_mqtt_rebootstrap_pending (mark_speak_path_warm p now)) j k task none n h

taken-IsLost :
    (p : SpeakPath) (q : Option ℕ) (k task : ℕ) (reason : Text)
    → is_request q k ≡ false
    → IsLost k task p
    → IsLostStep k task (take_pending p q reason)
unfolding take_pending
taken-IsLost p none k task reason n (h, o) = (refl, (h, o))
taken-IsLost p (some j) k task reason n (h, o) =
    finish-IsLost (record p { pending_speak_request = none }) j k task (some reason) n (refl, o)

pub step-IsLost :
    (p : SpeakPath) (k task : ℕ) (e : Event)
    → is_other task e ≡ true
    → times_out_at k e ≡ false
    → IsLost k task p
    → IsLostStep k task (step p e)
unfolding step take_answer wait_for timed_out reset_speak_path_after_session_reset
step-IsLost p k task (answers now) a b h =
    accepted-IsLost p p.pending_speak_request k task now h.0 h
step-IsLost p k task (resets reason) a b (h, o) =
    taken-IsLost (record p { last_speak_path_warm_at_ms = 0 }) p.pending_speak_request k task reason
      h (h, o)
step-IsLost p k task (gets id) a b h = (refl, got-IsLost p k task id h)
step-IsLost p k task (waits j other) a b (h, o) =
    (refl, (h, wait-OnlyAt j k task other p.requests (ground arith) o))
step-IsLost p k task (times_out j) a b h = finish-IsLost p j k task _ b h

unfoldable pub run : SpeakPath → List Event → SpeakPath × List Effect
run p [] = (p, [])
run p (e ∷ es) = let (p', woken) = step p e in let (p'', more) = run p' es in (p'', woken ++ more)
