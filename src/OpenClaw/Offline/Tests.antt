-- ===== src/OpenClaw/Offline/Tests.antt =====
-- The queue of one device with three calls.
use xiaozhi_esp32_server_rus.Common.{
  ℕ, ◌-◌, ◌≡◌, refl, false, List, [], ◌∷◌, map, none, length, keep, drop,
}
use xiaozhi_esp32_server_rus.Common.Text.{
  Text, codes, text_eq, trim, trim_start_by, trim_end_by, is_whitespace, is_empty,
}
use xiaozhi_esp32_server_rus.Common.Assoc.{lookup, insert}
use xiaozhi_esp32_server_rus.OpenClaw.Offline.{
  opened, is_fresh, queue_offline_message_ex, drain_offline_messages, pop_excess,
}
use xiaozhi_esp32_server_rus.OpenClaw.Offline.Delivery.{
  Call, queue_all, messages_for, drain-queue_all,
}

abbrev call : Text → Text → ℕ → Call
call device text now = record {
  device_id = device;
  text = text;
  correlation_id = [];
  is_end = false;
  now = now;
}

abbrev calls : List Call
calls =
    call (codes "d1") (codes "old") 0
    ∷ call (codes "d2") (codes "x") 1
    ∷ call (codes "d1") (codes "new") 90000000
    ∷ []

only_the_new :
    (drain_offline_messages (queue_all [] calls) (codes "d1") 90000001).1
    ≡ record { text = codes "new"; correlation_id = []; is_end = false } ∷ []
unfolding drain_offline_messages queue_all queue_offline_message_ex pop_excess lookup insert text_eq
    trim_start_by trim_end_by is_whitespace
only_the_new = refl

named : is_empty (trim (codes "d1")) ≡ false
unfolding trim_start_by trim_end_by is_whitespace
named = refl

drain-queue_all_example :
    ((drain_offline_messages (queue_all [] calls) (codes "d1") 90000001).1
      ≡ map opened (
          keep (is_fresh 90000001) (
            drop
              (length (messages_for (trim (codes "d1")) calls) - 20)
              (messages_for (trim (codes "d1")) calls))))
    × (lookup
          (trim (codes "d1"))
          (drain_offline_messages (queue_all [] calls) (codes "d1") 90000001).0
        ≡ none)
unfolding lookup
drain-queue_all_example = drain-queue_all [] (codes "d1") calls 90000001 named refl
