-- ===== src/Transport/Udp/Crypto.antt =====
-- The packets of udp.rs through both ends, and the headers that key the stream cipher.
use xiaozhi_esp32_server_rus.Common.{
  ℕ, ◌%◌, ◌<◌, ◌≤◌, ◌≡◌, ◌≢◌, refl, sym, ap, ◌∙◌, ◌↔◌, List, [], ◌∷◌, ◌++◌, arith, length,
  length-append, take, drop, get_or, take-length-append, drop-length-append,
}
use xiaozhi_esp32_server_rus.Common.Words.{u32_round_trip}
use xiaozhi_esp32_server_rus.Transport.Udp.{
  StreamCipher, UdpCrypto, ok, generate_session_keys, conn_id_from_nonce, word_at,
  build_downlink_header, encrypt, decrypt, packet_type_audio,
}

-- An array of sixteen bytes that begins with the packet type.
pub record IsTemplate (c : UdpCrypto) : Type 0 where
  pub sized : length c.nonce_template ≡ 16
  pub typed : get_or c.nonce_template 0 0 ≡ 1

-- Three facts about a header: its first byte, its words and its length.
header_facts :
    (t : List ℕ) (k : List ℕ) (n sequence : ℕ)
    → length t ≡ 16
    → sequence < 4294967296
    → let h = build_downlink_header (record { key = k; nonce_template = t }) n sequence in
      (length h ≡ 16)
      × (get_or h 0 0 ≡ get_or t 0 0)
      × ((rest : List ℕ) → word_at 8 (h ++ rest) ≡ word_at 8 t)
      × ((rest : List ℕ) → word_at 12 (h ++ rest) ≡ sequence)
unfolding build_downlink_header
header_facts (a ∷ b ∷ c ∷ d ∷ e ∷ f ∷ g ∷ h ∷ i ∷ j ∷ l ∷ m ∷ o ∷ p ∷ q ∷ r ∷ []) k n sequence s
      lt =
    (refl, refl, λ rest. refl, λ rest. u32_round_trip sequence lt)
header_facts _ k n sequence s lt = absurd (omega arith)

take_header : (h s : List ℕ) → length h ≡ 16 → take 16 (h ++ s) ≡ h
take_header h s e = rw e at (take-length-append h s)

drop_header : (h s : List ℕ) → length h ≡ 16 → drop 16 (h ++ s) ≡ s
drop_header h s e = rw e at (drop-length-append h s)

first_of_header : (h s : List ℕ) → length h ≡ 16 → get_or (h ++ s) 0 0 ≡ get_or h 0 0
first_of_header [] s e = absurd (omega arith)
first_of_header (x ∷ h) s e = refl

module _ (cipher : StreamCipher) where
  -- What `encrypt` sends, `decrypt` gives back under the same key: the timestamp of the session's
  -- template, the sequence number and the payload, when the template is sixteen bytes that begin
  -- with the packet type and the sequence number fits in 32 bits.
  pub decrypt-encrypt :
      (c : UdpCrypto) (sequence : ℕ) (payload : List ℕ)
      → IsTemplate c
      → sequence < 4294967296
      → decrypt cipher c (encrypt cipher c sequence payload)
        ≡ ok (word_at 8 c.nonce_template, sequence, payload)
  unfolding decrypt encrypt
  decrypt-encrypt c sequence payload v lt =
      let header = build_downlink_header c (length payload) sequence in
      let sealed = cipher.apply_keystream c.key header payload in
      let (sized, first, stamp, number) =
        header_facts c.nonce_template c.key (length payload) sequence v.sized lt in
      opened header sealed payload sized (first ∙ v.typed) (stamp sealed) (number sealed)
        (cipher.undoes_itself c.key header payload)
    where
      opened :
          (header sealed payload : List ℕ)
          → length header ≡ 16
          → get_or header 0 0 ≡ 1
          → word_at 8 (header ++ sealed) ≡ word_at 8 c.nonce_template
          → word_at 12 (header ++ sealed) ≡ sequence
          → cipher.apply_keystream c.key header sealed ≡ payload
          → decrypt cipher c (header ++ sealed) ≡ ok (word_at 8 c.nonce_template, sequence, payload)
      opened header sealed payload sized first stamp number plain =
          rw (take_header header sealed sized, drop_header header sealed sized)
            (ground (
              arith,
              first_of_header header sealed sized,
              length-append header sealed,
              first,
              stamp,
              number,
              plain,
            ))

  -- `decrypt` refuses exactly the packets that are shorter than a header or of another type.
  decrypt_accepts_iff :
      (c : UdpCrypto) (packet : List ℕ)
      → ((r : ℕ × ℕ × List ℕ) × (decrypt cipher c packet ≡ ok r))
        ↔ ((16 ≤ length packet) × (get_or packet 0 0 ≡ packet_type_audio))
  unfolding decrypt
  decrypt_accepts_iff c packet = (
    λ (r, e). ground arith,
    λ (l, t). (
      (
        word_at 8 packet,
        word_at 12 packet,
        cipher.apply_keystream c.key (take 16 packet) (drop 16 packet),
      ),
      ground arith,
    ),
  )

-- Two packets of one session under different sequence numbers have different headers, so the
-- cipher is never started twice from one counter block.
header_fresh :
    (c : UdpCrypto) (n n' s s' : ℕ)
    → IsTemplate c
    → s < 4294967296
    → s' < 4294967296
    → s ≢ s'
    → build_downlink_header c n s ≢ build_downlink_header c n' s'
header_fresh c n n' s s' v lt lt' ne e =
    ne (sym (number s n lt) ∙ (ap (λ h. word_at 12 (h ++ [])) e ∙ number s' n' lt'))
  where
    number : (k : ℕ) (m : ℕ) → k < 4294967296 → word_at 12 (build_downlink_header c m k ++ []) ≡ k
    number k m lk = (header_facts c.nonce_template c.key m k v.sized lk).3 []

-- The session nonce carries the connection id that is returned beside it, which fits in 31 bits, and
-- it is a template as `encrypt` needs it.
session_keys_lem :
    (key : List ℕ) (random created : ℕ)
    → let s = generate_session_keys key random created in
      (conn_id_from_nonce s.1 ≡ s.2)
      × (s.2 < 2147483648)
      × IsTemplate (record { key = s.0; nonce_template = s.1 })
unfolding generate_session_keys conn_id_from_nonce
session_keys_lem key random created = (
  u32_round_trip (random % 2147483648) (omega arith),
  omega arith,
  record { sized = refl; typed = refl },
)
