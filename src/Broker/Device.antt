-- ===== src/Broker/Device.antt =====
-- crates/xiaozhi-mqtt-server/src/device.rs: which topics a client may use, and the rewriting of the
-- topic that a device publishes to.
pub mod Access
mod Tests
use xiaozhi_esp32_server_rus.Common.{Bool, true, false, not, Option, none, some, if◌then◌else◌}
use xiaozhi_esp32_server_rus.Common.Text.{Text, text_eq}
use xiaozhi_esp32_server_rus.Protocol.Mqtt.{
  device_mock_pub_topic, mac_from_client_id, device_public_topic_mac, device_sub_topic_mac,
}

is_admin_user : Text → Text → Bool
is_admin_user username admin_username = text_eq username admin_username

abbrev equals_topic : (Text → Text) → Text → Option Text → Bool
equals_topic make topic none = false
equals_topic make topic (some mac) = text_eq topic (make mac)

pub acl_allow_subscribe : Text → Text → Bool → Bool
acl_allow_subscribe client_id topic is_admin =
    if is_admin
    then true
    else equals_topic device_sub_topic_mac topic (mac_from_client_id client_id)

pub acl_allow_publish : Text → Text → Bool → Bool
acl_allow_publish client_id topic is_admin =
    if is_admin
    then true
    else if text_eq topic device_mock_pub_topic
    then true
    else equals_topic device_public_topic_mac topic (mac_from_client_id client_id)

abbrev topic_or : Text → Option Text → Text
topic_or topic none = topic
topic_or topic (some mac) = device_public_topic_mac mac

pub rewrite_device_publish_topic : Text → Text → Bool → Text
rewrite_device_publish_topic client_id topic is_admin =
    if is_admin
    then topic
    else if not (text_eq topic device_mock_pub_topic)
    then topic
    else topic_or topic (mac_from_client_id client_id)

abbrev sub_topic_of : Option Text → Option Text
sub_topic_of none = none
sub_topic_of (some mac) = some (device_sub_topic_mac mac)

pub auto_subscribe_topic : Text → Option Text
auto_subscribe_topic client_id = sub_topic_of (mac_from_client_id client_id)
