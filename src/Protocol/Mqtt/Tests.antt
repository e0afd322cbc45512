-- ===== src/Protocol/Mqtt/Tests.antt =====
-- The topics of mqtt.rs for the device of its own tests.
use xiaozhi_esp32_server_rus.Common.{◌≡◌, refl, some, none, []}
use xiaozhi_esp32_server_rus.Common.Text.{
  Text, codes, replace_char, split_from, contains, starts_with, strip_prefix,
}
use xiaozhi_esp32_server_rus.Protocol.Mqtt.{
  device_sub_topic, device_sub_topic_mac, device_id_from_public_topic,
  mac_underscore_from_device_id, device_id_from_mac_underscore, new,
}

abbrev device : Text
device = codes "e8:f6:0a:89:b4:0c"

topic_mac_uses_underscores : device_sub_topic device ≡ codes "/p2p/device_sub/e8_f6_0a_89_b4_0c"
unfolding device_sub_topic device_sub_topic_mac mac_underscore_from_device_id replace_char
topic_mac_uses_underscores = refl

parse_public_topic_with_gid :
    device_id_from_public_topic (codes "/p2p/device_public/GID_test@@@e8_f6_0a_89_b4_0c@@@uuid")
    ≡ some device
unfolding device_id_from_public_topic device_id_from_mac_underscore replace_char split_from contains
    starts_with strip_prefix
parse_public_topic_with_gid = refl

server_topic_has_no_device :
    device_id_from_public_topic (codes "/p2p/device_public/_server/lifecycle") ≡ none
unfolding device_id_from_public_topic contains starts_with strip_prefix
server_topic_has_no_device = refl

no_client_id : (new (codes "online") device [] 7).client_id ≡ none
unfolding new
no_client_id = refl
