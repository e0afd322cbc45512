-- ===== src/Chat/TtsManager/Pacing.antt =====
-- The pace of the frames in tts_manager.rs: how far the sender loop runs ahead of the clock.
use mathlib.Core.Path.{subst}
use xiaozhi_esp32_server_rus.Common.{
  ℕ, ◌+◌, ◌≤◌, ◌≡◌, refl, ap, ◌∙◌, Bool, true, false, Option, none, some, List, [], ◌∷◌,
  if◌then◌else◌, arith,
}
use xiaozhi_esp32_server_rus.Chat.TtsManager.{AudioQueueElem, TtsManager}
use xiaozhi_esp32_server_rus.Chat.TtsManager.Sender.{
  Sender, Turn, WaitEnd, requested, slept, wait_until_deadline, reached, interrupted,
  SenderWaitResult, caught_up, send_at, frame_wait, on_frame, after_frame_wait, send_frame,
}

wait-reached :
    (deadline now : ℕ) (came : List (ℕ × AudioQueueElem)) (e : WaitEnd) (t : ℕ)
    → (wait_until_deadline deadline now came e).0 ≡ reached t
    → deadline ≤ t
unfolding wait_until_deadline
wait-reached deadline now [] requested t h = ground arith
wait-reached deadline now [] (slept late) t h = ground arith
wait-reached deadline now ((after, elem) ∷ more) e t h =
    ground (arith, wait-reached deadline after more e t)

abbrev is_reached : SenderWaitResult → Bool
is_reached interrupted = false
is_reached (reached t) = true

abbrev gain : Sender → Turn → ℕ
gain s o = if o.goes_out then s.frame_duration else 0

after-reached :
    (m : TtsManager) (s : Sender) (elem : AudioQueueElem) (tail : ℕ) (o : Turn)
    (r : SenderWaitResult)
    → is_reached r ≡ true
    → (after_frame_wait m s elem tail o.goes_out r).1
      ≡ record s { playback_tail = some (tail + gain s o) }
unfolding after_frame_wait send_frame
after-reached m s elem tail o interrupted h = ground arith
after-reached m s elem tail o (reached t) h = ground arith

frame-step :
    (m : TtsManager) (s : Sender) (elem : AudioQueueElem) (o : Turn)
    → is_reached ((frame_wait s o).0) ≡ true
    → (on_frame m s elem o).1
      ≡ record s { playback_tail = some (caught_up s.playback_tail o.now + gain s o) }
unfolding on_frame
frame-step m s elem o h =
    after-reached m s elem (caught_up s.playback_tail o.now) o ((frame_wait s o).0) h

behind : (tail ahead now t : ℕ) → send_at tail ahead now ≤ t → tail ≤ t + ahead
behind tail ahead now t h = ground arith

-- Frames of the queue one after the other, each with its turn.
unfoldable pub stream : TtsManager → Sender → List (AudioQueueElem × Turn) → Sender
stream m s [] = s
stream m s ((elem, o) ∷ fs) = stream ((on_frame m s elem o).0) ((on_frame m s elem o).1) fs

-- None of their waits is interrupted.
abbrev AllReached : TtsManager → Sender → List (AudioQueueElem × Turn) → Type 0
AllReached m s [] = Unit {0}
AllReached m s ((elem, o) ∷ fs) =
    (is_reached ((frame_wait s o).0) ≡ true)
    × AllReached ((on_frame m s elem o).0) ((on_frame m s elem o).1) fs

-- The length of the audio that they send, for frames of one length.
abbrev pub sent_ms : ℕ → List (AudioQueueElem × Turn) → ℕ
sent_ms d [] = 0
sent_ms d ((elem, o) ∷ fs) = let rest = sent_ms d fs in if o.goes_out then d + rest else rest

abbrev tail_of : Option ℕ → ℕ
tail_of none = 0
tail_of (some t) = t

caught_up-tail : (p : Option ℕ) (now : ℕ) → tail_of p ≤ caught_up p now
caught_up-tail none now = ground arith
caught_up-tail (some t) now = ground arith

caught_up-now : (p : Option ℕ) (now : ℕ) → now ≤ caught_up p now
caught_up-now none now = ground arith
caught_up-now (some t) now = ground arith

-- One step of the sum: `x` is the tail after the first frame, `e` its length, `f` the rest.
longer :
    (c d x e last : ℕ) (goes_out : Bool) (f : ℕ → ℕ)
    → x ≡ c + (if goes_out then d else 0)
    → e ≡ d
    → x + f e ≤ last
    → c + (if goes_out then d + f d else f d) ≤ last
longer c d x e last true f a b i = omega (arith, subst (λ k. x + f k ≤ last) b i)
longer c d x e last false f a b i = omega (arith, subst (λ k. x + f k ≤ last) b i)

-- What follows the first frame moves the tail on by at least its audio and the frame's own.
stream-next :
    (m : TtsManager) (s : Sender) (elem : AudioQueueElem) (o : Turn)
    (fs : List (AudioQueueElem × Turn)) (last : ℕ)
    → (is_reached (frame_wait s o).0 ≡ true)
    → tail_of (on_frame m s elem o).1.playback_tail
        + sent_ms (on_frame m s elem o).1.frame_duration fs
      ≤ last
    → caught_up s.playback_tail o.now + sent_ms s.frame_duration ((elem, o) ∷ fs) ≤ last
stream-next m s elem o fs last h i =
    let e = frame-step m s elem o h in
    longer (caught_up s.playback_tail o.now) s.frame_duration _ _ last o.goes_out
      (λ d. sent_ms d fs) (ap (λ (x : Sender). tail_of x.playback_tail) e)
      (ap (λ (x : Sender). x.frame_duration) e) i

-- The frames move the tail on by at least the audio that they send, and leave the lead allowed.
stream-tail :
    (m : TtsManager) (s : Sender) (fs : List (AudioQueueElem × Turn))
    → AllReached m s fs
    → ((stream m s fs).allowed_ahead ≡ s.allowed_ahead)
      × (tail_of s.playback_tail + sent_ms s.frame_duration fs
          ≤ tail_of (stream m s fs).playback_tail)
unfolding stream
stream-tail m s [] h = (refl, omega arith)
stream-tail m s ((elem, o) ∷ fs) (h, hs) =
    let ih = stream-tail (on_frame m s elem o).0 (on_frame m s elem o).1 fs hs in
    let next = stream-next m s elem o fs _ h ih.1 in
    let l = caught_up-tail s.playback_tail o.now in
    (ih.0 ∙ ap (λ (x : Sender). x.allowed_ahead) (frame-step m s elem o h), omega (arith, next, l))

-- When frames have been sent without an interruption since one came, and another is sent at time `t`,
-- then the audio sent so far is at most the time since the first came and the lead allowed.
pub stream-pace :
    (m : TtsManager) (s : Sender) (elem : AudioQueueElem) (o : Turn)
    (fs : List (AudioQueueElem × Turn)) (last : Turn) (t : ℕ)
    → AllReached m s ((elem, o) ∷ fs)
    → ((frame_wait (stream m s ((elem, o) ∷ fs)) last).0 ≡ reached t)
    → o.now + sent_ms s.frame_duration ((elem, o) ∷ fs) ≤ t + s.allowed_ahead
unfolding stream frame_wait
stream-pace m s elem o fs last t (h, hs) r =
    let s' = stream m s ((elem, o) ∷ fs) in
    let ih = stream-tail (on_frame m s elem o).0 (on_frame m s elem o).1 fs hs in
    let next = stream-next m s elem o fs _ h ih.1 in
    let a = (stream-tail m s ((elem, o) ∷ fs) (h, hs)).0 in
    let w = wait-reached _ last.now last.wait.came last.wait.ending t r in
    let b = behind (caught_up s'.playback_tail last.now) s'.allowed_ahead last.now t w in
    let c = caught_up-tail s'.playback_tail last.now in
    let d = caught_up-now s.playback_tail o.now in omega (arith, next, a, b, c, d)
