-- ===== src/Chat/AudioIdle/Stopwatch.antt =====
-- What the clock of audio_idle.rs promises: it is a stopwatch, which adds up the time that it runs.
use xiaozhi_esp32_server_rus.Common.{
  ℕ, ◌+◌, ◌-◌, ◌≤◌, ◌≡◌, refl, true, false, List, [], ◌∷◌, none, some, arith,
}
use xiaozhi_esp32_server_rus.Chat.AudioIdle.{
  AudioIdleClock, default, start, pause, resume, elapsed, reset, mark_timeout_pending,
  clear_timeout_pending,
}

-- The stopwatch: off, running since a time with what was counted before, or held.
pub data Stopwatch : Type 0 where
  off : Stopwatch
  running : ℕ → ℕ → Stopwatch
  held : ℕ → Stopwatch

pub data Call : Type 0 where
  starts pauses resumes resets marks clears : Call

abbrev pub reading : Stopwatch → ℕ → ℕ
reading off now = 0
reading (running since before) now = before + (now - since)
reading (held before) now = before

unfoldable pub spec_step : Stopwatch → ℕ × Call → Stopwatch
spec_step w (now, starts) = running now 0
spec_step (running since before) (now, pauses) = held (before + (now - since))
spec_step (held before) (now, resumes) = running now before
spec_step w (now, resets) = off
spec_step w _ = w

unfoldable pub step : AudioIdleClock → ℕ × Call → AudioIdleClock
step c (now, starts) = start c now
step c (now, pauses) = pause c now
step c (now, resumes) = resume c now
step c (now, resets) = reset c
step c (now, marks) = (mark_timeout_pending c).0
step c (now, clears) = clear_timeout_pending c

unfoldable pub run : AudioIdleClock → List (ℕ × Call) → AudioIdleClock
run c [] = c
run c (x ∷ xs) = run (step c x) xs

unfoldable pub spec_run : Stopwatch → List (ℕ × Call) → Stopwatch
spec_run w [] = w
spec_run w (x ∷ xs) = spec_run (spec_step w x) xs

-- The times of the calls do not fall, from `last` on.
abbrev InOrder : ℕ → List (ℕ × Call) → Type 0
InOrder last [] = Unit {0}
InOrder last ((now, c) ∷ xs) = (last ≤ now) × InOrder now xs

abbrev pub final : ℕ → List (ℕ × Call) → ℕ
final last [] = last
final last ((now, c) ∷ xs) = final now xs

-- The clock stands for the stopwatch, at a time `last` that no stored instant passes.
abbrev Shows : ℕ → AudioIdleClock → Stopwatch → Type 0
Shows last c off = (c.start_at ≡ none) × (c.paused ≡ false)
Shows last c (running since before) =
    (t : ℕ) × (c.start_at ≡ some t) × (c.paused ≡ false) × (t + before ≡ since) × (since ≤ last)
Shows last c (held before) =
    (t : ℕ) × (p : ℕ) × (c.start_at ≡ some t)
    × (c.pause_at ≡ some p)
    × (c.paused ≡ true)
    × (t + before ≡ p)
    × (p ≤ last)

step-Shows :
    (last : ℕ) (c : AudioIdleClock) (w : Stopwatch) (now : ℕ) (x : Call)
    → Shows last c w
    → last ≤ now
    → Shows now (step c (now, x)) (spec_step w (now, x))
unfolding step spec_step start pause resume reset mark_timeout_pending clear_timeout_pending
step-Shows last c off now starts h l = (now, ground arith, ground arith, ground arith, ground arith)
step-Shows last c off now pauses h l = ground arith
step-Shows last c off now resumes h l = ground arith
step-Shows last c off now resets h l = ground arith
step-Shows last c off now marks h l = ground arith
step-Shows last c off now clears h l = ground arith
step-Shows last c (running since before) now starts h l =
    (now, ground arith, ground arith, ground arith, ground arith)
step-Shows last c (running since before) now pauses (t, s, p, e, b) l =
    (t, now, ground arith, ground arith, ground arith, ground arith, ground arith)
step-Shows last c (running since before) now resumes (t, s, p, e, b) l =
    (t, ground arith, ground arith, ground arith, ground arith)
step-Shows last c (running since before) now resets h l = ground arith
step-Shows last c (running since before) now marks (t, s, p, e, b) l =
    (t, ground arith, ground arith, ground arith, ground arith)
step-Shows last c (running since before) now clears (t, s, p, e, b) l =
    (t, ground arith, ground arith, ground arith, ground arith)
step-Shows last c (held before) now starts h l =
    (now, ground arith, ground arith, ground arith, ground arith)
step-Shows last c (held before) now pauses (t, p, s, q, z, e, b) l =
    (t, p, ground arith, ground arith, ground arith, ground arith, ground arith)
step-Shows last c (held before) now resumes (t, p, s, q, z, e, b) l =
    (t + (now - p), ground arith, ground arith, ground arith, ground arith)
step-Shows last c (held before) now resets h l = ground arith
step-Shows last c (held before) now marks (t, p, s, q, z, e, b) l =
    (t, p, ground arith, ground arith, ground arith, ground arith, ground arith)
step-Shows last c (held before) now clears (t, p, s, q, z, e, b) l =
    (t, p, ground arith, ground arith, ground arith, ground arith, ground arith)

run-Shows :
    (last : ℕ) (c : AudioIdleClock) (w : Stopwatch) (xs : List (ℕ × Call))
    → Shows last c w
    → InOrder last xs
    → Shows (final last xs) (run c xs) (spec_run w xs)
unfolding run spec_run
run-Shows last c w [] h o = h
run-Shows last c w ((now, x) ∷ xs) h (l, o) =
    run-Shows now (step c (now, x)) (spec_step w (now, x)) xs (step-Shows last c w now x h l) o

elapsed-Shows :
    (last now : ℕ) (c : AudioIdleClock) (w : Stopwatch)
    → Shows last c w
    → last ≤ now
    → elapsed c now ≡ reading w now
unfolding elapsed
elapsed-Shows last now c off h l = ground arith
elapsed-Shows last now c (running since before) (t, s, p, e, b) l = ground arith
elapsed-Shows last now c (held before) (t, p, s, q, z, e, b) l = ground arith

-- After any calls in the order of their times, the clock reads what a stopwatch reads: the time
-- since the last start, without the time between each pause and the resume behind it.
pub elapsed-run :
    (xs : List (ℕ × Call)) (now : ℕ)
    → InOrder 0 xs
    → final 0 xs ≤ now
    → elapsed (run default xs) now ≡ reading (spec_run off xs) now
unfolding default
elapsed-run xs now o l =
    elapsed-Shows (final 0 xs) now (run default xs) (spec_run off xs)
      (run-Shows 0 default off xs (refl, refl) o) l
