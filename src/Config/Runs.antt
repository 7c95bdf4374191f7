-- ===== src/Config/Runs.antt =====
-- The overlay's theorems at a concrete manager: an overlay under lease on uav7.
use mrs_uav_bluetooth.Config.SharedTopics.Validation.{
  IsAccepted, IsFirstUnsupported, validate_shared_topics-cases,
}
use mrs_uav_bluetooth.Config.Overlay.{
  apply_config, activate_overlay, installed, not_removed, load_initial, check_lease, NodeConfig,
  OverlayEnv, OverlayManager,
}
use mrs_uav_bluetooth.Config.Overlay.Restart.{CannotInspect, load_initial-IsSettled}
use mrs_uav_bluetooth.Util.Topics.{sanitize_topic_suffix, node_prefix}
use mrs_uav_bluetooth.Prelude.{
  All, none, ok, Text, codes, ◌≤◌, ◌≡◌, refl, ◌⊎◌, true, false, some, List, [], ◌∷◌, arith,
}
use mrs_uav_bluetooth.Config.SharedTopics.{
  normalize_value_type, check_members, validate_shared_topics, TopicMember, UnsupportedType,
}
use mrs_uav_bluetooth.Config.Overlay.Settled.{
  IsSettled, take_steps, take_steps-IsSettled, OverlayStep, activate_step, check_step, reload_step,
}
use mrs_uav_bluetooth.Config.Overlay.Lease.{check_lease_lem, check_lease-expires}

abbrev plain_config : NodeConfig
plain_config = record { overlay_keepalive_topic_suffix = codes "keepalive"; remainder = [] }

abbrev calm_env : OverlayEnv
calm_env = record {
  load_effective_config = λ overlay. some plain_config;
  callbacks_return = λ cfg. true;
  is_regular_file = λ path. some true;
  writes_state = installed;
  removes_state = true;
}

abbrev overlaid : OverlayManager
overlaid = record {
  default_config_path = codes "/etc/default.yaml";
  hostname = codes "uav7";
  has_state_path = true;
  saved = some (codes "/tmp/o.yaml");
  config = plain_config;
  overlay_path = codes "/tmp/o.yaml";
  active_source = codes "/tmp/o.yaml";
  keepalive_topic = codes "/uav7/bluetooth/config/keepalive";
  keepalive_miss_count = 0;
  lease_hold_until = 100;
  overlay_connected_baseline = [];
}

abbrev failing_env : OverlayEnv
failing_env = record calm_env { callbacks_return = λ cfg. false }

abbrev some_steps : List OverlayStep
some_steps =
    activate_step failing_env (codes "/tmp/p.yaml") (some 10) 50
    ∷ check_step calm_env false 200 201
    ∷ check_step calm_env true 300 301
    ∷ reload_step failing_env
    ∷ []

take_steps-IsSettled_example : IsSettled (take_steps overlaid some_steps)
take_steps-IsSettled_example =
    take_steps-IsSettled overlaid some_steps (refl, (tt, (tt, (tt, tt)))) refl

-- Where the temporary state file can be neither installed nor removed, an activation leaves the old
-- overlay under lease and the new one active.
abbrev stuck_env : OverlayEnv
stuck_env = record calm_env { writes_state = not_removed }

stuck_activation :
    (activate_overlay stuck_env (codes "/tmp/p.yaml") (some 10) 50 overlaid).1.overlay_path
    ≡ codes "/tmp/o.yaml"
unfolding activate_overlay apply_config node_prefix sanitize_topic_suffix
stuck_activation = refl

stuck_activation-source :
    (activate_overlay stuck_env (codes "/tmp/p.yaml") (some 10) 50 overlaid).1.active_source
    ≡ codes "/tmp/p.yaml"
unfolding activate_overlay apply_config node_prefix sanitize_topic_suffix
stuck_activation-source = refl

check_lease_lem_example :
    ((check_lease calm_env false 200 201 overlaid).overlay_path ≡ codes "/tmp/o.yaml")
    ⊎ ((overlaid.lease_hold_until ≤ 200) × (false ≡ false) × (2 ≤ overlaid.keepalive_miss_count))
check_lease_lem_example = check_lease_lem calm_env false 200 201 overlaid

abbrev uav7_prefix : Text
uav7_prefix = codes "/uav7/bluetooth"

uav7_named : node_prefix overlaid.hostname ≡ ok uav7_prefix
unfolding node_prefix
uav7_named = refl

check_lease-expires_example :
    ((check_lease calm_env false 300 301 (check_lease calm_env false 200 201 overlaid)).overlay_path
      ≡ overlaid.overlay_path)
    × ((check_lease calm_env false 400 401 (
          check_lease calm_env false 300 301
            (check_lease calm_env false 200 201 overlaid))).overlay_path
        ≡ [])
check_lease-expires_example =
    check_lease-expires calm_env overlaid plain_config uav7_prefix refl refl uav7_named 200 300 400
      201 301 401 refl (omega arith) (omega arith) refl

abbrev fresh_manager : OverlayManager
fresh_manager = record overlaid { overlay_path = []; active_source = [] }

load_initial-IsSettled_example :
    ((load_initial calm_env 5 fresh_manager ≡ (false, fresh_manager))
      × CannotInspect calm_env fresh_manager)
    ⊎ (((load_initial calm_env 5 fresh_manager).0 ≡ true)
        × IsSettled (load_initial calm_env 5 fresh_manager).1)
load_initial-IsSettled_example =
    load_initial-IsSettled calm_env plain_config uav7_prefix refl refl 5 fresh_manager uav7_named
      refl

-- A sound topic, and one with a member of a type that there is not.
abbrev two_topics : List (List TopicMember)
two_topics =
    (record { value_type = codes "octet"; target = codes "data" } ∷ [])
    ∷ (record { value_type = codes "float"; target = codes "x" }
        ∷ record { value_type = codes "string"; target = codes "name" }
        ∷ [])
    ∷ []

validate_shared_topics-cases_example :
    ((validate_shared_topics 0 two_topics ≡ none) × All IsAccepted two_topics)
    ⊎ ((e : UnsupportedType) × (validate_shared_topics 0 two_topics ≡ some e)
        × IsFirstUnsupported 0 two_topics e)
validate_shared_topics-cases_example = validate_shared_topics-cases 0 two_topics

two_topics-error :
    validate_shared_topics 0 two_topics
    ≡ some (record {
      topic = 1;
      member = record { value_type = codes "string"; target = codes "name" };
    })
unfolding validate_shared_topics check_members normalize_value_type
two_topics-error = refl
