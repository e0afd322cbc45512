-- ===== src/Chat/SpeakPath/Failed.antt =====
-- What can still wake a task of speak_path.rs that is lost at its request: a timeout there, which leaves
-- an error.
use xiaozhi_esp32_server_rus.Common.{
  ℕ, zero, suc, ◌≡◌, refl, ap, ◌∙◌, Bool, true, false, Bool-cases, inl, inr, not, ◌&&◌, ◌||◌,
  Option, none, some, List, [], ◌∷◌, ◌++◌, ◌==◌, any, all, any-append, get_elem?, arith,
}
use xiaozhi_esp32_server_rus.Common.Text.{Text}
use xiaozhi_esp32_server_rus.Chat.SpeakPath.{
  PendingSpeakRequest, SpeakPath, Effect, is_set, mark_speak_path_warm,
  clear_mqtt_rebootstrap_pending,
}
use xiaozhi_esp32_server_rus.Chat.SpeakPath.Requests.{
  get_or_create_pending_speak_request, finish_at, finish_pending_speak_request, wait_at, wait_for,
  timed_out, error_at, notified,
}
use xiaozhi_esp32_server_rus.Chat.SpeakPath.Ready.{accept_answer, take_answer}
use xiaozhi_esp32_server_rus.Chat.SpeakPath.Reset.{
  reset_speak_path_after_session_reset, take_pending,
}
use xiaozhi_esp32_server_rus.Chat.SpeakPath.Early.{
  is_waked, wakes, OnlyAt, IsLost, Event, answers, resets, gets, waits, times_out, step, is_other,
  times_out_at, step-IsLost, run,
}

-- Whether the request at a place has an error.
abbrev fails_at : ℕ → List PendingSpeakRequest → Bool
fails_at k rs = is_set (error_at (get_elem? rs k))

finish-fails :
    (j k : ℕ) (err : Option Text) (rs : List PendingSpeakRequest)
    → fails_at k rs ≡ true
    → fails_at k (finish_at j err rs).0 ≡ true
finish-fails j k err [] h = h
finish-fails zero zero none (r ∷ rs) h = h
finish-fails zero zero (some e) (r ∷ rs) h = refl
finish-fails zero (suc k) err (r ∷ rs) h = h
finish-fails (suc j) zero err (r ∷ rs) h = h
finish-fails (suc j) (suc k) err (r ∷ rs) h = finish-fails j k err rs h

wait-fails :
    (j k task : ℕ) (rs : List PendingSpeakRequest)
    → fails_at k rs ≡ true
    → fails_at k (wait_at j task rs) ≡ true
wait-fails j k task [] h = h
wait-fails zero zero task (r ∷ rs) h = h
wait-fails zero (suc k) task (r ∷ rs) h = h
wait-fails (suc j) zero task (r ∷ rs) h = h
wait-fails (suc j) (suc k) task (r ∷ rs) h = wait-fails j k task rs h

append-fails :
    (k : ℕ) (rs qs : List PendingSpeakRequest) → fails_at k rs ≡ true → fails_at k (rs ++ qs) ≡ true
append-fails k [] qs h = absurd (ground arith)
append-fails zero (r ∷ rs) qs h = h
append-fails (suc k) (r ∷ rs) qs h = append-fails k rs qs h

-- The request at which the time is over fails.
timeout-fails :
    (j k task : ℕ) (err : Text) (rs : List PendingSpeakRequest)
    → (j == k) ≡ true
    → OnlyAt k task rs
    → fails_at k (finish_at j (some err) rs).0 ≡ true
timeout-fails j k task err [] e o = absurd (ground arith)
timeout-fails zero zero task err (r ∷ rs) e o = refl
timeout-fails zero (suc k) task err (r ∷ rs) e o = absurd (ground arith)
timeout-fails (suc j) zero task err (r ∷ rs) e o = absurd (ground arith)
timeout-fails (suc j) (suc k) task err (r ∷ rs) e (o, os) =
    timeout-fails j k task err rs (ground arith) os

finished-fails :
    (p : SpeakPath) (j k : ℕ) (err : Option Text)
    → fails_at k p.requests ≡ true
    → fails_at k (finish_pending_speak_request p j err).0.requests ≡ true
unfolding finish_pending_speak_request
finished-fails p j k err h = finish-fails j k err p.requests h

accepted-fails :
    (p : SpeakPath) (q : Option ℕ) (k now : ℕ)
    → fails_at k p.requests ≡ true
    → fails_at k (accept_answer p q now).0.requests ≡ true
unfolding accept_answer mark_speak_path_warm clear_mqtt_rebootstrap_pending
accepted-fails p none k now h = h
accepted-fails p (some j) k now h =
    finished-fails (clear_mqtt_rebootstrap_pending (mark_speak_path_warm p now)) j k none h

taken-fails :
    (p : SpeakPath) (q : Option ℕ) (k : ℕ) (reason : Text)
    → fails_at k p.requests ≡ true
    → fails_at k (take_pending p q reason).0.requests ≡ true
unfolding take_pending
taken-fails p none k reason h = h
taken-fails p (some j) k reason h =
    finished-fails (record p { pending_speak_request = none }) j k (some reason) h

got-fails :
    (p : SpeakPath) (k : ℕ) (id : Text)
    → fails_at k p.requests ≡ true
    → fails_at k (get_or_create_pending_speak_request p id).0.requests ≡ true
unfolding get_or_create_pending_speak_request
got-fails p k id h = by_pending p.pending_speak_request refl
  where
    by_pending :
        (q : Option ℕ)
        → p.pending_speak_request ≡ q
        → fails_at k (get_or_create_pending_speak_request p id).0.requests ≡ true
    by_pending none e = rw e (append-fails k p.requests _ h)
    by_pending (some j) e = rw e h

step-fails :
    (p : SpeakPath) (k : ℕ) (e : Event)
    → fails_at k p.requests ≡ true
    → fails_at k (step p e).0.requests ≡ true
unfolding step take_answer wait_for timed_out reset_speak_path_after_session_reset
step-fails p k (answers now) h = accepted-fails p p.pending_speak_request k now h
step-fails p k (resets reason) h =
    taken-fails (record p { last_speak_path_warm_at_ms = 0 }) p.pending_speak_request k reason h
step-fails p k (gets id) h = got-fails p k id h
step-fails p k (waits j other) h = wait-fails j k other p.requests h
step-fails p k (times_out j) h = finished-fails p j k _ h

run-fails :
    (p : SpeakPath) (k : ℕ) (es : List Event)
    → fails_at k p.requests ≡ true
    → fails_at k (run p es).0.requests ≡ true
unfolding run
run-fails p k [] h = h
run-fails p k (e ∷ es) h = run-fails (step p e).0 k es (step-fails p k e h)

over-fails :
    (p : SpeakPath) (k task : ℕ) (e : Event)
    → times_out_at k e ≡ true
    → IsLost k task p
    → fails_at k (step p e).0.requests ≡ true
unfolding step timed_out finish_pending_speak_request
over-fails p k task (answers now) h l = absurd (ground arith)
over-fails p k task (resets reason) h l = absurd (ground arith)
over-fails p k task (gets id) h l = absurd (ground arith)
over-fails p k task (waits j other) h l = absurd (ground arith)
over-fails p k task (times_out j) h (n, o) = timeout-fails j k task _ p.requests h o

-- A task that is lost is not woken but by a timeout at its request, and finds an error then.
abbrev FailsIfWoken : ℕ → ℕ → Bool → SpeakPath × List Effect → Type 0
FailsIfWoken k task over (p, woken) =
    ((wakes task woken && not over) ≡ false)
    × ((wakes task woken && not (is_set (notified p k))) ≡ false)

failed :
    (k task : ℕ) (r : SpeakPath × List Effect)
    → fails_at k r.0.requests ≡ true
    → FailsIfWoken k task true r
unfolding notified
failed k task (p, woken) h = ground arith

later :
    (k task : ℕ) (over : Bool) (p : SpeakPath) (now more : List Effect)
    → wakes task now ≡ false
    → FailsIfWoken k task over (p, more)
    → FailsIfWoken k task over (p, now ++ more)
later k task over p now more h r =
    rw (any-append (is_waked task) now more ∙ ap (λ (b : Bool). b || wakes task more) h) r

pub run-FailsIfWoken :
    (p : SpeakPath) (k task : ℕ) (es : List Event)
    → all (is_other task) es ≡ true
    → IsLost k task p
    → FailsIfWoken k task (any (times_out_at k) es) (run p es)
unfolding run
run-FailsIfWoken p k task [] a h = (refl, refl)
run-FailsIfWoken p k task (e ∷ es) a h = elim (Bool-cases (times_out_at k e)) [
  | inl b ↦
      rw b
        (failed k task (run p (e ∷ es)) (run-fails (step p e).0 k es (over-fails p k task e b h)))
  | inr b ↦
      let s = step-IsLost p k task e (ground arith) b h in
      rw b (
        later k task (any (times_out_at k) es) (run (step p e).0 es).0 (step p e).1
          (run (step p e).0 es).1 s.0 (run-FailsIfWoken (step p e).0 k task es (ground arith) s.1))
]
