-- ===== src/Chat/TtsManager/Stopping.antt =====
-- Stops of the speech in tts_manager.rs: interruptions that come before the sender loop answers, and
-- the signals of the stop.
use xiaozhi_esp32_server_rus.Common.{
  ℕ, ◌+◌, ◌≡◌, refl, ap, ◌∙◌, Bool, true, false, not, ◌&&◌, ◌||◌, none, some, List, [], ◌∷◌,
  if◌then◌else◌, arith,
}
use xiaozhi_esp32_server_rus.Common.Text.{Text}
use xiaozhi_esp32_server_rus.Chat.Detect.{TtsTurnEndPolicy, no_action, goodbye_and_idle}
use xiaozhi_esp32_server_rus.Chat.TtsManager.{
  TtsManager, Effect, send_tts_stop, begin_interrupt, clear_tts_queue,
  record_pending_interrupt_stop, finish_tts_stop, should_dispatch_turn_end_policy, dispatched,
  finish_pending_interrupt_stop, take_turn_end_policy,
}

-- How often a stop is told to the device.
abbrev is_stop : Effect → Bool
is_stop send_tts_stop = true
is_stop e = false

abbrev pub stops : List Effect → ℕ
stops [] = 0
stops (e ∷ es) = let rest = stops es in if is_stop e then rest + 1 else rest

abbrev pub begin_interrupts : TtsManager → List (Bool × Text) → TtsManager
begin_interrupts m [] = m
begin_interrupts m ((send, reason) ∷ rs) = begin_interrupts (begin_interrupt m send reason) rs

abbrev any_send : List (Bool × Text) → Bool
any_send [] = false
any_send ((send, reason) ∷ rs) = send || any_send rs

begin-first :
    (m : TtsManager) (send : Bool) (reason : Text)
    → (m.pending_interrupt ≡ none)
    → ((begin_interrupt m send reason).pending_interrupt
        ≡ some (record { send_tts_stop = send; reason = reason }))
      × ((begin_interrupt m send reason).tts_active ≡ m.tts_active)
unfolding begin_interrupt clear_tts_queue record_pending_interrupt_stop
begin-first m send reason h = rw h (refl, refl)

-- An interruption and its pending stop, when one is pending already.
begin-pending :
    (m : TtsManager) (a : Bool) (r : Text) (send : Bool) (reason : Text)
    → (m.pending_interrupt ≡ some (record { send_tts_stop = a; reason = r }))
    → ((begin_interrupt m send reason).pending_interrupt
        ≡ some (record { send_tts_stop = a || send; reason = r }))
      × ((begin_interrupt m send reason).tts_active ≡ m.tts_active)
unfolding begin_interrupt clear_tts_queue record_pending_interrupt_stop
begin-pending m a r send reason h = rw h (refl, refl)

interrupts-pending :
    (m : TtsManager) (a : Bool) (r : Text) (rs : List (Bool × Text))
    → (m.pending_interrupt ≡ some (record { send_tts_stop = a; reason = r }))
    → ((begin_interrupts m rs).pending_interrupt
        ≡ some (record { send_tts_stop = a || any_send rs; reason = r }))
      × ((begin_interrupts m rs).tts_active ≡ m.tts_active)
interrupts-pending m true r [] h = (h, refl)
interrupts-pending m false r [] h = (h, refl)
interrupts-pending m a r ((send, reason) ∷ rs) h =
    let b = begin-pending m a r send reason h in
    let ih = interrupts-pending (begin_interrupt m send reason) (a || send) r rs b.0 in
    (
      ih.0
          ∙ ap (λ x. some (record { send_tts_stop = x; reason = r }))
              (or-assoc a send (any_send rs)),
      ih.1 ∙ b.1,
    )
  where
    or-assoc : (x y z : Bool) → ((x || y) || z) ≡ (x || (y || z))
    or-assoc true y z = refl
    or-assoc false y z = refl

dispatched-stops : (p : TtsTurnEndPolicy) (natural : Bool) → stops (dispatched p natural) ≡ 0
dispatched-stops no_action natural = refl
dispatched-stops goodbye_and_idle true = refl
dispatched-stops goodbye_and_idle false = refl

stop-branches :
    (active send : Bool) (rest : List Effect)
    → stops rest ≡ 0
    → stops (if not active then rest else if send then send_tts_stop ∷ rest else rest)
      ≡ (if active && send then 1 else 0)
stop-branches false send rest h = h
stop-branches true false rest h = h
stop-branches true true rest h = omega (arith, h)

finish-stops :
    (m : TtsManager) (send : Bool) (reason : Text)
    → (stops (finish_tts_stop m send reason).1 ≡ (if m.tts_active && send then 1 else 0))
      × ((finish_tts_stop m send reason).0.pending_interrupt ≡ m.pending_interrupt)
      × ((finish_tts_stop m send reason).0.tts_active ≡ false)
unfolding finish_tts_stop take_turn_end_policy
finish-stops m send reason = (
  stop-branches m.tts_active send _
      (dispatched-stops m.turn_end_policy (should_dispatch_turn_end_policy send reason)),
  refl,
  refl,
)

finish-pending :
    (m : TtsManager) (a : Bool) (r : Text)
    → (m.pending_interrupt ≡ some (record { send_tts_stop = a; reason = r }))
    → (stops (finish_pending_interrupt_stop m).1 ≡ (if m.tts_active && a then 1 else 0))
      × ((finish_pending_interrupt_stop m).0.pending_interrupt ≡ none)
      × ((finish_pending_interrupt_stop m).0.tts_active ≡ false)
unfolding finish_pending_interrupt_stop
finish-pending m a r h = rw h (finish-stops (record m { pending_interrupt = none }) a r)

finish-none :
    (m : TtsManager) → (m.pending_interrupt ≡ none) → finish_pending_interrupt_stop m ≡ (m, [])
unfolding finish_pending_interrupt_stop
finish-none m h = rw h refl

-- Interruptions that begin before the pending stop is finished share it: the first finish tells the
-- device one stop if the speech is active and any of them asked for it, and none otherwise, and leaves
-- the speech inactive; a second finish, by the sender loop or by the caller, has no effect. Nothing is
-- pending at first.
pub interrupts-one_stop :
    (m : TtsManager) (send : Bool) (reason : Text) (rs : List (Bool × Text))
    → (m.pending_interrupt ≡ none)
    → (stops (finish_pending_interrupt_stop (begin_interrupts m ((send, reason) ∷ rs))).1
        ≡ (if m.tts_active && (send || any_send rs) then 1 else 0))
      × ((finish_pending_interrupt_stop (begin_interrupts m ((send, reason) ∷ rs))).0.tts_active
          ≡ false)
      × (finish_pending_interrupt_stop
            (finish_pending_interrupt_stop (begin_interrupts m ((send, reason) ∷ rs))).0
          ≡ ((finish_pending_interrupt_stop (begin_interrupts m ((send, reason) ∷ rs))).0, []))
interrupts-one_stop m send reason rs h =
    let b = begin-first m send reason h in
    let p = interrupts-pending (begin_interrupt m send reason) send reason rs b.0 in
    let f =
      finish-pending (begin_interrupts m ((send, reason) ∷ rs)) (send || any_send rs) reason p.0 in
    (
      f.0 ∙ ap (λ x. if x && (send || any_send rs) then 1 else 0) (p.1 ∙ b.1),
      f.2,
      finish-none _ f.1,
    )
