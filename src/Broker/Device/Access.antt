-- ===== src/Broker/Device/Access.antt =====
-- What the access rules of device.rs let a client do.
use xiaozhi_esp32_server_rus.Common.{
  ◌≡◌, ◌≢◌, ◌↔◌, inl, inr, refl, ap, Bool, true, false, some, arith, [], Option-cases,
}
use xiaozhi_esp32_server_rus.Common.Text.{Text, text_eq, text_eq_iff, text_eq_refl}
use xiaozhi_esp32_server_rus.Protocol.Mqtt.{
  device_mock_pub_topic, mac_from_client_id, device_public_topic_mac, device_sub_topic_mac,
  device_public_topic, device_id_from_public_topic, device_id_from_client_id,
  mac_underscore_from_device_id,
}
use xiaozhi_esp32_server_rus.Protocol.Mqtt.Topics.{
  IsMac, public_topic_round_trip, device_id-mac_underscore,
}
use xiaozhi_esp32_server_rus.Broker.Device.{
  acl_allow_subscribe, acl_allow_publish, rewrite_device_publish_topic, auto_subscribe_topic,
}

mock_ne_public : (mac : Text) → text_eq (device_public_topic_mac mac) device_mock_pub_topic ≡ false
unfolding device_public_topic_mac text_eq
mock_ne_public mac = refl

public_topic_injective :
    (m n : Text) → text_eq (device_public_topic_mac m) (device_public_topic_mac n) ≡ text_eq m n
unfolding device_public_topic_mac text_eq
public_topic_injective m n = refl

-- A client that is no administrator may subscribe to exactly the topic that the broker subscribes
-- it to by itself.
subscribe_iff :
    (client_id topic : Text)
    → (acl_allow_subscribe client_id topic false ≡ true)
      ↔ (auto_subscribe_topic client_id ≡ some topic)
unfolding acl_allow_subscribe auto_subscribe_topic
subscribe_iff client_id topic = elim (Option-cases (mac_from_client_id client_id)) [
  | inl e ↦ rw e (ground arith)
  | inr (mac, e) ↦ rw e (ground (arith, text_eq_iff topic (device_sub_topic_mac mac)))
]

-- A client that is no administrator may publish to the public topic of a MAC exactly when its
-- client id carries that MAC.
publish_public_iff :
    (client_id mac : Text)
    → (acl_allow_publish client_id (device_public_topic_mac mac) false ≡ true)
      ↔ (mac_from_client_id client_id ≡ some mac)
unfolding acl_allow_publish
publish_public_iff client_id mac = elim (Option-cases (mac_from_client_id client_id)) [
  | inl e ↦ rw (e, mock_ne_public mac) (ground arith)
  | inr (own, e) ↦
      rw (e, mock_ne_public mac, public_topic_injective mac own)
        (ground (arith, text_eq_iff mac own))
]

-- Whether a publication is allowed does not depend on whether the rule is applied before or after
-- the topic is rewritten.
publish-rewrite :
    (client_id topic : Text) (is_admin : Bool)
    → acl_allow_publish client_id (rewrite_device_publish_topic client_id topic is_admin) is_admin
      ≡ acl_allow_publish client_id topic is_admin
unfolding acl_allow_publish rewrite_device_publish_topic
publish-rewrite client_id topic true = refl
publish-rewrite client_id topic false = elim (Option-cases (mac_from_client_id client_id)) [
  | inl e ↦ rw e (ground arith)
  | inr (mac, e) ↦ rw e (
      ground (
        arith,
        mock_ne_public mac,
        text_eq_iff (device_public_topic_mac mac) (device_public_topic_mac mac),
      ))
]

-- What a device publishes to the mock topic reaches the server under the device's own id, when the
-- client id carries the MAC of that device.
published_device_id :
    (client_id device_id : Text)
    → mac_from_client_id client_id ≡ some (mac_underscore_from_device_id device_id)
    → IsMac device_id
    → device_id ≢ []
    → (device_id_from_public_topic
          (rewrite_device_publish_topic client_id device_mock_pub_topic false)
        ≡ some device_id)
      × (device_id_from_client_id client_id ≡ some device_id)
unfolding rewrite_device_publish_topic device_public_topic device_id_from_client_id
published_device_id client_id device_id e m n =
    rw (text_eq_refl device_mock_pub_topic, e)
      (public_topic_round_trip device_id m n, ap some (device_id-mac_underscore device_id m))
