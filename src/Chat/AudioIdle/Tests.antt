-- ===== src/Chat/AudioIdle/Tests.antt =====
-- A run of the clock of audio_idle.rs.
use xiaozhi_esp32_server_rus.Common.{ℕ, ◌≡◌, refl, List, [], ◌∷◌, arith, true, false}
use xiaozhi_esp32_server_rus.Chat.AudioIdle.{
  default, start, pause, resume, elapsed, started, mark_timeout_pending,
}
use xiaozhi_esp32_server_rus.Chat.AudioIdle.Stopwatch.{
  Call, starts, pauses, resumes, run, step, spec_run, spec_step, off, reading, elapsed-run,
}

abbrev calls : List (ℕ × Call)
calls = (10, starts) ∷ (25, pauses) ∷ (40, resumes) ∷ []

started-run : started (run default calls) ≡ true
unfolding run step start pause resume default started
started-run = refl

elapsed-run_example : elapsed (run default calls) 45 ≡ reading (spec_run off calls) 45
elapsed-run_example = elapsed-run calls 45 (omega arith) (omega arith)

reading_at_45 : reading (spec_run off calls) 45 ≡ 20
unfolding spec_run spec_step
reading_at_45 = refl

marked_once : (mark_timeout_pending (mark_timeout_pending default).0).1 ≡ false
unfolding mark_timeout_pending default
marked_once = refl
