-- ===== src/Chat/Endpoints/Routing.antt =====
-- Where the audio of endpoint_hub.rs goes.
use xiaozhi_esp32_server_rus.Common.{
  ℕ, ◌≡◌, ◌⊎◌, inl, inr, refl, Bool, true, false, List, [], ◌∷◌, map, arith, if◌then◌else◌, any,
  All, keep, Bool-cases,
}
use xiaozhi_esp32_server_rus.Chat.Endpoints.{
  EndpointKind, hardware, web, tool, TtsAudioRoute, hardware_first, all_endpoints, hardware_only,
  web_only, Endpoint, EndpointHub, is_hardware, is_web, supports_audio_playback, values, kind_of,
  senders, if_none, has_hardware, audio_targets, set_tts_audio_route,
}

any-keep_nil :
    (p : Endpoint → Bool) (es : List Endpoint) → any p es ≡ false → map (λ e. e.1) (keep p es) ≡ []
any-keep_nil p [] h = refl
any-keep_nil p (e ∷ es) h = ground (arith, any-keep_nil p es)

any-keep_cons :
    (p : Endpoint → Bool) (es : List Endpoint) (other : List ℕ)
    → any p es ≡ true
    → if_none (map (λ e. e.1) (keep p es)) other ≡ map (λ e. e.1) (keep p es)
any-keep_cons p [] other h = cc
any-keep_cons p (e ∷ es) other h = ground (arith, any-keep_cons p es other)

-- Under the default route audio goes where the route for hardware alone sends it if a hardware
-- endpoint is registered, and where the route for the web alone sends it if none is.
hardware_first_lem :
    (hub : EndpointHub)
    → audio_targets (set_tts_audio_route hub hardware_first) ≡ (
        if has_hardware hub
        then audio_targets (set_tts_audio_route hub hardware_only)
        else audio_targets (set_tts_audio_route hub web_only))
unfolding audio_targets set_tts_audio_route has_hardware
hardware_first_lem hub =
    elim (Bool-cases (any (λ e. is_hardware (kind_of e)) (values hub.endpoints))) [
      | inl e ↦ rw e (
          any-keep_cons (λ e. is_hardware (kind_of e)) (values hub.endpoints) (senders is_web hub)
            e)
      | inr e ↦ rw (e, any-keep_nil (λ e. is_hardware (kind_of e)) (values hub.endpoints) e) refl
    ]

-- The channel of an endpoint that may play audio.
abbrev PlaysOn : List Endpoint → ℕ → Type 0
PlaysOn [] tx = ⊥
PlaysOn (e ∷ es) tx = ((supports_audio_playback (kind_of e) ≡ true) × (e.1 ≡ tx)) ⊎ PlaysOn es tx

PlaysOn-keep :
    (p : EndpointKind → Bool) (es : List Endpoint)
    → ((k : EndpointKind) → p k ≡ true → supports_audio_playback k ≡ true)
    → All (PlaysOn es) (map (λ e. e.1) (keep (λ e. p (kind_of e)) es))
PlaysOn-keep p [] sub = tt
PlaysOn-keep p (e ∷ es) sub = elim (Bool-cases (p (kind_of e))) [
  | inl yes_ ↦ rw yes_ (inl (sub (kind_of e) yes_, refl), All-weaken e es _ (PlaysOn-keep p es sub))
  | inr no_ ↦ rw no_ (All-weaken e es _ (PlaysOn-keep p es sub))
]
  where
    All-weaken :
        (e : Endpoint) (es : List Endpoint) (txs : List ℕ)
        → All (PlaysOn es) txs
        → All (PlaysOn (e ∷ es)) txs
    All-weaken e es [] h = tt
    All-weaken e es (tx ∷ txs) h = (inr h.0, All-weaken e es txs h.1)

hardware_plays : (k : EndpointKind) → is_hardware k ≡ true → supports_audio_playback k ≡ true
hardware_plays hardware h = refl
hardware_plays web h = refl
hardware_plays tool h = cc

web_plays : (k : EndpointKind) → is_web k ≡ true → supports_audio_playback k ≡ true
web_plays hardware h = refl
web_plays web h = refl
web_plays tool h = cc

if_none-All : (P : ℕ → Type 0) (xs ys : List ℕ) → All P xs → All P ys → All P (if_none xs ys)
if_none-All P [] ys h k = k
if_none-All P (x ∷ xs) ys h k = h

-- On every route audio is sent only to channels of registered hardware and web endpoints, and never
-- to those of tools.
audio_targets-PlaysOn :
    (hub : EndpointHub) → All (PlaysOn (values hub.endpoints)) (audio_targets hub)
unfolding audio_targets
audio_targets-PlaysOn hub = by_route hub.tts_audio_route hub
  where
    by_route :
        (r : TtsAudioRoute) (h : EndpointHub)
        → All (PlaysOn (values h.endpoints)) (audio_targets (record h { tts_audio_route = r }))
    by_route hardware_first h =
        if_none-All _ (senders is_hardware h) (senders is_web h)
          (PlaysOn-keep is_hardware (values h.endpoints) hardware_plays)
          (PlaysOn-keep is_web (values h.endpoints) web_plays)
    by_route all_endpoints h = PlaysOn-keep supports_audio_playback (values h.endpoints) (λ k p. p)
    by_route hardware_only h = PlaysOn-keep is_hardware (values h.endpoints) hardware_plays
    by_route web_only h = PlaysOn-keep is_web (values h.endpoints) web_plays
