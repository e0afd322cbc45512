-- ===== src/Protocol/Mqtt.antt =====
-- crates/xiaozhi-protocol/src/mqtt.rs: the MQTT topics, and the device's id in them.
pub mod Topics
pub mod ClientId
mod Tests
use xiaozhi_esp32_server_rus.Common.{
  ℕ, ◌-◌, Bool, ◌||◌, List, [], ◌∷◌, ◌++◌, Option, none, some, if◌then◌else◌, get_elem?,
}
use xiaozhi_esp32_server_rus.Common.Text.{
  Text, codes, is_empty, strip_prefix, starts_with, contains, replace_char, split,
}

abbrev pub device_mock_pub_topic : Text
device_mock_pub_topic = codes "device-server"

abbrev device_sub_topic_prefix : Text
device_sub_topic_prefix = codes "/p2p/device_sub/"

abbrev pub device_pub_topic_prefix : Text
device_pub_topic_prefix = codes "/p2p/device_public/"

abbrev separator : Text
separator = codes "@@@"

abbrev server_prefix : Text
server_prefix = codes "_server/"

pub record MqttLifecycleEvent : Type 0 where
  pub event_type : Text
  pub device_id : Text
  pub state : Text
  pub client_id : Option Text
  pub ts : ℕ

-- `chrono::Utc::now()` is the last argument.
pub new : Text → Text → Text → ℕ → MqttLifecycleEvent
new state device_id client_id now = record {
  event_type = codes "mqtt_lifecycle";
  device_id = device_id;
  state = state;
  client_id = if is_empty client_id then none else some client_id;
  ts = now;
}

unfoldable pub mac_underscore_from_device_id : Text → Text
mac_underscore_from_device_id device_id = replace_char b':' b'_' device_id

unfoldable pub device_id_from_mac_underscore : Text → Text
device_id_from_mac_underscore mac = replace_char b'_' b':' mac

-- `parts[1]`, where it is not empty and there are three parts at least.
mac_of_parts : List Text → Option Text
mac_of_parts (_ ∷ mac ∷ _ ∷ _) = if is_empty mac then none else some mac
mac_of_parts _ = none

unfoldable pub mac_from_client_id : Text → Option Text
unfolding mac_of_parts
mac_from_client_id client_id = mac_of_parts (split separator client_id)

abbrev option_map : (Text → Text) → Option Text → Option Text
option_map f none = none
option_map f (some a) = some (f a)

unfoldable pub device_id_from_client_id : Text → Option Text
device_id_from_client_id client_id =
    option_map device_id_from_mac_underscore (mac_from_client_id client_id)

unfoldable pub device_public_topic_mac : Text → Text
device_public_topic_mac mac = device_pub_topic_prefix ++ mac

unfoldable pub device_sub_topic_mac : Text → Text
device_sub_topic_mac mac = device_sub_topic_prefix ++ mac

unfoldable pub device_public_topic : Text → Text
device_public_topic device_id = device_public_topic_mac (mac_underscore_from_device_id device_id)

pub device_sub_topic : Text → Text
device_sub_topic device_id = device_sub_topic_mac (mac_underscore_from_device_id device_id)

-- The part of `device_id_from_public_topic` behind the prefix.
device_id_of_segment : Text → Option Text
device_id_of_segment segment =
    if is_empty segment || starts_with server_prefix segment
    then none
    else if contains separator segment
    then option_map device_id_from_mac_underscore (get_elem? (split separator segment) 1)
    else some (device_id_from_mac_underscore segment)

abbrev segment_or_none : Option Text → Option Text
segment_or_none none = none
segment_or_none (some segment) = device_id_of_segment segment

pub device_id_from_public_topic : Text → Option Text
unfolding device_id_of_segment
device_id_from_public_topic topic = segment_or_none (strip_prefix device_pub_topic_prefix topic)
