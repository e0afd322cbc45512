-- ===== src/Broker/Device/Tests.antt =====
-- The access rules of device.rs for the clients of its own tests.
use xiaozhi_esp32_server_rus.Common.{◌≡◌, refl, false, some}
use xiaozhi_esp32_server_rus.Common.Text.{
  Text, codes, split_from, starts_with, text_eq, replace_char,
}
use xiaozhi_esp32_server_rus.Protocol.Mqtt.{
  device_mock_pub_topic, mac_from_client_id, device_public_topic_mac, mac_underscore_from_device_id,
}
use xiaozhi_esp32_server_rus.Broker.Device.{rewrite_device_publish_topic}

abbrev client : Text
client = codes "GID_test@@@e8_f6_0a_89_b4_0c@@@uuid"

rewrite_device_server_topic :
    rewrite_device_publish_topic client device_mock_pub_topic false
    ≡ codes "/p2p/device_public/e8_f6_0a_89_b4_0c"
unfolding rewrite_device_publish_topic mac_from_client_id device_public_topic_mac split_from
    starts_with text_eq
rewrite_device_server_topic = refl

client_mac :
    mac_from_client_id client ≡ some (mac_underscore_from_device_id (codes "e8:f6:0a:89:b4:0c"))
unfolding mac_from_client_id mac_underscore_from_device_id split_from starts_with replace_char
client_mac = refl
