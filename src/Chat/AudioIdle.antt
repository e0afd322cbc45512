-- ===== src/Chat/AudioIdle.antt =====
-- crates/xiaozhi-chat/src/audio_idle.rs: how long a device has been silent. An `Instant` is a number,
-- and `-` of ℕ is the saturating difference of instants.
pub mod Stopwatch
mod Tests
use Prim.Native.Nat.{max}
use xiaozhi_esp32_server_rus.Common.{
  ℕ, ◌+◌, ◌-◌, Bool, true, false, not, ◌||◌, Option, none, some, ltb, if◌then◌else◌,
}

pub record AudioIdleClock : Type 0 where
  pub start_at : Option ℕ
  pub pause_at : Option ℕ
  pub paused : Bool
  pub timeout_pending : Bool

abbrev is_none : Option ℕ → Bool
is_none none = true
is_none (some t) = false

-- `unwrap_or`
abbrev or_time : Option ℕ → ℕ → ℕ
or_time none now = now
or_time (some t) now = t

unfoldable pub default : AudioIdleClock
default = record { start_at = none; pause_at = none; paused = false; timeout_pending = false }

unfoldable pub start : AudioIdleClock → ℕ → AudioIdleClock
start c now = record {
  start_at = some now;
  pause_at = none;
  paused = false;
  timeout_pending = false;
}

unfoldable pub pause : AudioIdleClock → ℕ → AudioIdleClock
pause c now =
    if is_none c.start_at || c.paused then c else record c { pause_at = some now; paused = true }

abbrev shifted : Option ℕ → ℕ → Option ℕ
shifted none by = none
shifted (some t) by = some (t + by)

unfoldable pub resume : AudioIdleClock → ℕ → AudioIdleClock
resume c now =
    if is_none c.start_at || not c.paused
    then c
    else (let pause_at = or_time c.pause_at now in
        let now' = max now pause_at in
        record c {
          start_at = shifted c.start_at (now' - pause_at);
          pause_at = none;
          paused = false;
        })

abbrev span : Option ℕ → ℕ → ℕ
span none end = 0
span (some t) end = if ltb end t then 0 else end - t

unfoldable pub elapsed : AudioIdleClock → ℕ → ℕ
elapsed c now = span c.start_at (if c.paused then or_time c.pause_at now else now)

unfoldable pub reset : AudioIdleClock → AudioIdleClock
reset c = record { start_at = none; pause_at = none; paused = false; timeout_pending = false }

unfoldable pub started : AudioIdleClock → Bool
started c = not (is_none c.start_at)

unfoldable pub mark_timeout_pending : AudioIdleClock → AudioIdleClock × Bool
mark_timeout_pending c =
    if c.timeout_pending then (c, false) else (record c { timeout_pending = true }, true)

unfoldable pub clear_timeout_pending : AudioIdleClock → AudioIdleClock
clear_timeout_pending c = record c { timeout_pending = false }
