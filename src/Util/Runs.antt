-- ===== src/Util/Runs.antt =====
-- The theorems on names and topics at concrete texts.
use mrs_uav_bluetooth.Prelude.{codes, refl}
use mrs_uav_bluetooth.Util.Topics.{sanitize_topic_suffix, normalize_ros_topic}
use mrs_uav_bluetooth.Util.Topics.Canonical.{normalize_ros_topic-IsCanonical, IsCanonical}
use mrs_uav_bluetooth.Util.Topics.Component.{sanitize_topic_suffix-IsComponent, IsComponent}

sanitize_topic_suffix-IsComponent_example :
    IsComponent (sanitize_topic_suffix (codes " _My robot-7_ "))
sanitize_topic_suffix-IsComponent_example =
    sanitize_topic_suffix-IsComponent (codes " _My robot-7_ ")

normalize_ros_topic-IsCanonical_example : IsCanonical (normalize_ros_topic (codes " uav7//odom/ "))
normalize_ros_topic-IsCanonical_example = normalize_ros_topic-IsCanonical (codes " uav7//odom/ ")

odom-IsCanonical : IsCanonical (codes "/uav7/odom")
odom-IsCanonical = record {
  absolute = refl;
  single = (refl, (refl, (refl, (refl, (refl, (refl, (refl, (refl, (refl, (refl, tt))))))))));
  tail_ends = refl;
}
