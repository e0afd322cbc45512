-- ===== src/OpenClaw/Offline/Delivery.antt =====
-- What a device is given of the messages that were queued for it.
use xiaozhi_esp32_server_rus.Common.{
  ℕ, suc, ◌-◌, ◌≡◌, refl, sym, ap, ◌∙◌, inl, inr, Bool, true, false, List, [], ◌∷◌, ◌++◌,
  append-nil, append_assoc, map, none, arith, ◌&&◌, not, ltb, if◌then◌else◌, length, length-append,
  keep, drop, Bool-cases, Option-cases,
}
use xiaozhi_esp32_server_rus.Common.Text.{Text, text_eq, text_eq_iff, text_eq_refl, trim, is_empty}
use xiaozhi_esp32_server_rus.Common.Assoc.{lookup, lookup-insert, lookup-remove}
use xiaozhi_esp32_server_rus.OpenClaw.Offline.{
  OfflineMessage, Queues, pop_excess, or_empty, is_fresh, opened, queue_offline_message_ex,
  drain_offline_messages,
}

pub record Call : Type 0 where
  pub device_id : Text
  pub text : Text
  pub correlation_id : Text
  pub is_end : Bool
  pub now : ℕ

abbrev message : Call → OfflineMessage
message c = record {
  text = trim c.text;
  correlation_id = trim c.correlation_id;
  is_end = c.is_end;
  created_at = c.now;
}

unfoldable pub queue_all : Queues → List Call → Queues
queue_all queues [] = queues
queue_all queues (c ∷ cs) =
    queue_all (queue_offline_message_ex queues c.device_id c.text c.correlation_id c.is_end c.now)
      cs

-- A call for the device `id` that is not left out for an empty text.
abbrev is_for : Text → Call → Bool
is_for id c = text_eq (trim c.device_id) id && not (is_empty (trim c.text) && not c.is_end)

pub messages_for : Text → List Call → List OfflineMessage
messages_for id calls = map message (keep (is_for id) calls)

pop_excess-drop : (q : List OfflineMessage) → pop_excess q ≡ drop (length q - 20) q
unfolding pop_excess
pop_excess-drop [] = refl
pop_excess-drop (m ∷ q) = elim (Bool-cases (ltb 20 (length (m ∷ q)))) [
  | inl e ↦ rw e (pop_excess-drop q ∙ ap (λ k. drop k (m ∷ q)) (one_more (length q) e))
  | inr e ↦ rw e (ap (λ k. drop k (m ∷ q)) (none_more (length q) e))
]
  where
    one_more : (n : ℕ) → ltb 20 (suc n) ≡ true → suc (n - 20) ≡ suc n - 20
    one_more n h = ground arith

    none_more : (n : ℕ) → ltb 20 (suc n) ≡ false → 0 ≡ suc n - 20
    none_more n h = ground arith

pop_excess-append :
    (q : List OfflineMessage) (m : OfflineMessage)
    → pop_excess (pop_excess q ++ (m ∷ [])) ≡ pop_excess (q ++ (m ∷ []))
unfolding pop_excess
pop_excess-append [] m = refl
pop_excess-append (n ∷ q) m = elim (Bool-cases (ltb 20 (length (n ∷ q)))) [
  | inl e ↦ rw e (pop_excess-append q m ∙ ground (arith, length-append q (m ∷ [])))
  | inr e ↦ rw e refl
]

queue-lookup :
    (id : Text) (queues : Queues) (c : Call)
    → is_empty id ≡ false
    → or_empty (
        lookup id
          (queue_offline_message_ex queues c.device_id c.text c.correlation_id c.is_end c.now))
      ≡ (if is_for id c
          then pop_excess (or_empty (lookup id queues) ++ (message c ∷ []))
          else or_empty (lookup id queues))
unfolding queue_offline_message_ex
queue-lookup id queues c h = ground (
  arith,
  text_eq_iff (trim c.device_id) id,
  lookup-insert (trim c.device_id) id
      (pop_excess (or_empty (lookup (trim c.device_id) queues) ++ (message c ∷ []))) queues,
)

queue-pop :
    (id : Text) (queues : Queues) (c : Call) (q : List OfflineMessage)
    → is_empty id ≡ false
    → or_empty (lookup id queues) ≡ pop_excess q
    → or_empty (
        lookup id
          (queue_offline_message_ex queues c.device_id c.text c.correlation_id c.is_end c.now))
      ≡ (if is_for id c then pop_excess (q ++ (message c ∷ [])) else pop_excess q)
queue-pop id queues c q h e =
    queue-lookup id queues c h ∙ rw (e, pop_excess-append q (message c)) refl

queue_all-lookup :
    (id : Text) (calls : List Call) (queues : Queues) (q : List OfflineMessage)
    → is_empty id ≡ false
    → or_empty (lookup id queues) ≡ pop_excess q
    → or_empty (lookup id (queue_all queues calls)) ≡ pop_excess (q ++ messages_for id calls)
unfolding queue_all messages_for
queue_all-lookup id [] queues q h e = rw (append-nil q) e
queue_all-lookup id (c ∷ cs) queues q h e = elim (Bool-cases (is_for id c)) [
  | inl mine ↦
      rw (mine, sym (append_assoc q (message c ∷ []) (messages_for id cs)))
        (queue_all-lookup id cs _ (q ++ (message c ∷ [])) h
          (rw mine at (queue-pop id queues c q h e)))
  | inr other ↦ rw other (queue_all-lookup id cs _ q h (rw other at (queue-pop id queues c q h e)))
]

drain-lookup :
    (queues : Queues) (device_id : Text) (now : ℕ)
    → is_empty (trim device_id) ≡ false
    → ((drain_offline_messages queues device_id now).1
        ≡ map opened (keep (is_fresh now) (or_empty (lookup (trim device_id) queues))))
      × (lookup (trim device_id) (drain_offline_messages queues device_id now).0 ≡ none)
unfolding drain_offline_messages
drain-lookup queues device_id now h = elim (Option-cases (lookup (trim device_id) queues)) [
  | inl e ↦ rw (h, e) (refl, e)
  | inr (q, e) ↦
      rw (h, e)
        (
          refl,
          ground (
            arith,
            lookup-remove (trim device_id) (trim device_id) queues,
            text_eq_refl (trim device_id),
          ),
        )
]

-- A device whose id is not blank, and for which nothing was queued before, is given the last twenty
-- of the messages that were queued for it, in their order and without those that are a day old or
-- older; messages with an empty text are left out unless they end an answer, and calls for other
-- devices make no difference. Nothing is left for it behind.
pub drain-queue_all :
    (queues : Queues) (device_id : Text) (calls : List Call) (now : ℕ)
    → is_empty (trim device_id) ≡ false
    → lookup (trim device_id) queues ≡ none
    → ((drain_offline_messages (queue_all queues calls) device_id now).1
        ≡ map opened (
            keep (is_fresh now) (
              drop
                (length (messages_for (trim device_id) calls) - 20)
                (messages_for (trim device_id) calls))))
      × (lookup (trim device_id) (drain_offline_messages (queue_all queues calls) device_id now).0
          ≡ none)
unfolding pop_excess
drain-queue_all queues device_id calls now h e =
    let given = drain-lookup (queue_all queues calls) device_id now h in
    (
      given.0
          ∙ ap (λ q. map opened (keep (is_fresh now) q))
              (queue_all-lookup (trim device_id) calls queues [] h (nothing e)
                ∙ pop_excess-drop (messages_for (trim device_id) calls)),
      given.1,
    )
  where
    nothing :
        lookup (trim device_id) queues ≡ none
        → or_empty (lookup (trim device_id) queues) ≡ pop_excess []
    nothing n = rw n refl
