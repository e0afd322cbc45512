-- ===== src/Protocol/Mqtt/Topics.antt =====
-- A device's id through the topics of mqtt.rs.
use xiaozhi_esp32_server_rus.Common.{
  ℕ, ◌≡◌, ◌≢◌, refl, Bool, true, false, ◌&&◌, ◌||◌, [], ◌∷◌, some, arith, leb, ◌==◌, all,
}
use xiaozhi_esp32_server_rus.Common.Text.{
  Text, is_empty, starts_with, contains, replace_char, strip_prefix-append,
}
use xiaozhi_esp32_server_rus.Protocol.Mqtt.{
  mac_underscore_from_device_id, device_id_from_mac_underscore, device_id_from_public_topic,
  device_public_topic, device_public_topic_mac, device_id_of_segment, separator, server_prefix,
  device_pub_topic_prefix,
}

-- A character of a MAC address, before or after `:` is replaced.
abbrev is_mac_char : ℕ → Bool
is_mac_char c = (leb b'0' c && leb c b'9') || (leb b'a' c && leb c b'f') || c == b':'

abbrev pub IsMac : Text → Type 0
IsMac s = all is_mac_char s ≡ true

pub device_id-mac_underscore :
    (device_id : Text)
    → IsMac device_id
    → device_id_from_mac_underscore (mac_underscore_from_device_id device_id) ≡ device_id
unfolding device_id_from_mac_underscore mac_underscore_from_device_id replace_char
device_id-mac_underscore [] h = refl
device_id-mac_underscore (c ∷ s) h = ground (arith, device_id-mac_underscore s)

no_separator : (s : Text) → IsMac s → contains separator (replace_char b':' b'_' s) ≡ false
unfolding contains replace_char
no_separator [] h = refl
no_separator (c ∷ s) h = ground (arith, no_separator s)

no_server_prefix :
    (s : Text) → IsMac s → starts_with server_prefix (replace_char b':' b'_' s) ≡ false
unfolding starts_with replace_char
no_server_prefix [] h = refl
no_server_prefix (c ∷ []) h = ground arith
no_server_prefix (c ∷ d ∷ s) h = ground arith

not_empty : (c : ℕ) (s : Text) → is_empty (replace_char b':' b'_' (c ∷ s)) ≡ false
unfolding replace_char
not_empty c s = refl

mac_segment :
    (c : ℕ) (s : Text)
    → IsMac (c ∷ s)
    → device_id_of_segment (replace_char b':' b'_' (c ∷ s)) ≡ some (c ∷ s)
unfolding device_id_of_segment mac_underscore_from_device_id
mac_segment c s h =
    rw (no_separator (c ∷ s) h, no_server_prefix (c ∷ s) h)
      (ground (arith, device_id-mac_underscore (c ∷ s) h, not_empty c s))

-- The id of a device is read back from the topic that the server makes of it, when the id is not
-- empty and has only the digits, the small letters a to f and the colons of a MAC address.
pub public_topic_round_trip :
    (device_id : Text)
    → IsMac device_id
    → device_id ≢ []
    → device_id_from_public_topic (device_public_topic device_id) ≡ some device_id
unfolding device_id_from_public_topic device_public_topic device_public_topic_mac
    mac_underscore_from_device_id
public_topic_round_trip [] h n = absurd (n refl)
public_topic_round_trip (c ∷ s) h n =
    rw (strip_prefix-append device_pub_topic_prefix (replace_char b':' b'_' (c ∷ s)))
      (mac_segment c s h)
