-- ===== src/Config/Overlay.antt =====
-- src/config/overlay_config_manager.cpp (`OverlayConfigManager`): the overlay that replaces the
-- default configuration while its lease is kept alive. Reading the YAML files, the callbacks that
-- apply a configuration, the file system and the ROS graph are inputs.
pub mod Settled
pub mod Lease
pub mod Restart
use mrs_uav_bluetooth.Prelude.{
  ltb, if◌then◌else◌, Result, ok, err, any, select, is_empty, Text, codes, text_eq, ℕ, ◌+◌, Bool,
  true, false, not, ◌&&◌, ◌||◌, Option, none, some, List, [], ◌++◌,
}
use mrs_uav_bluetooth.Util.Topics.{sanitize_topic_suffix, node_prefix, TopicError}

-- The part of `NodeConfig` that the manager reads; the callbacks see the rest.
pub record NodeConfig : Type 0 where
  pub overlay_keepalive_topic_suffix : Text
  pub remainder : Text

-- How writing the state file ends: the new file is in place, whole or cut when it was closed, which is
-- not looked at; the temporary file could not be written; it could not be renamed and was removed; or it
-- could not be removed either, which throws.
pub data StateWrite : Type 0 where
  installed : StateWrite
  installed_cut : Option Text → StateWrite
  not_written : StateWrite
  not_installed : StateWrite
  not_removed : StateWrite

-- What the environment answers during one operation: the effective configuration of an overlay
-- (`[]` for the default), whether all callbacks return for a configuration, whether a path is a regular
-- file (`none` where the inspection throws), how writing the state file ends, and whether it can be
-- removed.
pub record OverlayEnv : Type 0 where
  pub load_effective_config : Text → Option NodeConfig
  pub callbacks_return : NodeConfig → Bool
  pub is_regular_file : Text → Option Bool
  pub writes_state : StateWrite
  pub removes_state : Bool

-- `saved` is the first line of the state file, where there is one.
pub record OverlayManager : Type 0 where
  pub default_config_path : Text
  pub hostname : Text
  pub has_state_path : Bool
  pub saved : Option Text
  pub config : NodeConfig
  pub overlay_path : Text
  pub active_source : Text
  pub keepalive_topic : Text
  pub keepalive_miss_count : ℕ
  pub lease_hold_until : ℕ
  pub overlay_connected_baseline : List Text

abbrev pub k_required_misses : ℕ
k_required_misses = 3

abbrev pub k_revert_retry_delay : ℕ
k_revert_retry_delay = 30_000_000_000

abbrev pub k_restart_lease_grace : ℕ
k_restart_lease_grace = 5_000_000_000

abbrev pub source_for : Text → Text → Text
source_for default_path overlay = if is_empty overlay then default_path else overlay

abbrev apply_loaded :
    OverlayEnv
    → Text
    → Option NodeConfig
    → Result TopicError Text
    → OverlayManager
    → Bool × OverlayManager
apply_loaded env overlay none prefix m = (false, m)
apply_loaded env overlay (some cfg) (err e) m = (false, m)
apply_loaded env overlay (some cfg) (ok prefix) m =
    if env.callbacks_return cfg
    then (
      true,
      record m {
        config = cfg;
        active_source = source_for m.default_config_path overlay;
        keepalive_topic =
            prefix ++ codes "/config/" ++ sanitize_topic_suffix cfg.overlay_keepalive_topic_suffix;
      },
    )
    else (false, m)

-- `false` is an exception. A failed callback puts the previous configuration back.
unfoldable pub apply_config : OverlayEnv → Text → OverlayManager → Bool × OverlayManager
unfolding node_prefix sanitize_topic_suffix
apply_config env overlay m =
    apply_loaded env overlay (env.load_effective_config overlay) (node_prefix m.hostname) m

abbrev pub written_state : StateWrite → Text → OverlayManager → Bool × OverlayManager
written_state installed overlay m = (true, record m { saved = some overlay })
written_state (installed_cut left) overlay m = (true, record m { saved = left })
written_state not_written overlay m = (true, m)
written_state not_installed overlay m = (true, m)
written_state not_removed overlay m = (false, m)

abbrev pub persist_overlay_path : OverlayEnv → Text → OverlayManager → Bool × OverlayManager
persist_overlay_path env overlay m =
    if m.has_state_path then written_state env.writes_state overlay m else (true, m)

abbrev pub clear_persisted_overlay : OverlayEnv → OverlayManager → OverlayManager
clear_persisted_overlay env m =
    if m.has_state_path && env.removes_state then record m { saved = none } else m

abbrev pub reverted : OverlayManager → OverlayManager
reverted m = record m {
  overlay_path = [];
  keepalive_miss_count = 0;
  overlay_connected_baseline = [];
}

abbrev pub finish_revert : OverlayEnv → Bool × OverlayManager → Bool × OverlayManager
finish_revert env (true, m) = (true, reverted (clear_persisted_overlay env m))
finish_revert env (false, m) = (false, m)

unfoldable pub revert_to_default : OverlayEnv → OverlayManager → Bool × OverlayManager
unfolding apply_config
revert_to_default env m = finish_revert env (apply_config env [] m)

abbrev pub with_lease : Text → ℕ → OverlayManager → OverlayManager
with_lease overlay hold_until m = record m {
  overlay_path = overlay;
  keepalive_miss_count = 0;
  lease_hold_until = hold_until;
}

-- An exception of `apply_config` or `persist_overlay_path` is caught, and restores the overlay's path.
abbrev pub or_previous : Text → Bool × OverlayManager → Bool × OverlayManager
or_previous previous (true, m) = (true, m)
or_previous previous (false, m) = (false, record m { overlay_path = previous })

abbrev pub finish_activation :
    OverlayEnv → Text → Text → Bool × OverlayManager → Bool × OverlayManager
finish_activation env overlay previous (true, m) =
    or_previous previous (persist_overlay_path env overlay m)
finish_activation env overlay previous (false, m) = or_previous previous (false, m)

-- The overlay is a regular file, or is none, or its inspection throws.
abbrev pub activate_inspected :
    OverlayEnv → Option Bool → Text → ℕ → OverlayManager → Bool × OverlayManager
activate_inspected env none overlay hold_until m = (false, m)
activate_inspected env (some false) overlay hold_until m = (false, m)
activate_inspected env (some true) overlay hold_until m =
    if text_eq overlay m.overlay_path
    then persist_overlay_path env overlay (with_lease m.overlay_path hold_until m)
    else finish_activation env overlay m.overlay_path
        (apply_config env overlay (with_lease overlay hold_until m))

-- The hold is a number of ticks, and `none` where `hold_seconds` is negative or not finite. The result
-- is `false` for a failure that is returned and for an exception.
unfoldable pub activate_overlay :
    OverlayEnv → Text → Option ℕ → ℕ → OverlayManager → Bool × OverlayManager
unfolding apply_config revert_to_default
activate_overlay env overlay none now m = (false, m)
activate_overlay env overlay (some hold) now m =
    if is_empty overlay
    then revert_to_default env m
    else activate_inspected env (env.is_regular_file overlay) overlay (now + hold) m

unfoldable pub reload : OverlayEnv → OverlayManager → Bool × OverlayManager
unfolding apply_config
reload env m = apply_config env m.overlay_path m

abbrev pub retry_later : ℕ → Bool × OverlayManager → OverlayManager
retry_later now (true, m) = m
retry_later now (false, m) = record m { lease_hold_until = now + k_revert_retry_delay }

abbrev pub is_held : ℕ → OverlayManager → Bool
is_held now m = is_empty m.overlay_path || ltb now m.lease_hold_until || is_empty m.keepalive_topic

-- `published` is whether the ROS graph shows a publisher of the keepalive topic; a failed revert
-- ends at `finished`.
unfoldable pub check_lease : OverlayEnv → Bool → ℕ → ℕ → OverlayManager → OverlayManager
unfolding revert_to_default
check_lease env published now finished m =
    let misses = m.keepalive_miss_count + 1 in
    if is_held now m
    then m
    else if published
    then record m { keepalive_miss_count = 0 }
    else if ltb misses k_required_misses
    then record m { keepalive_miss_count = misses }
    else retry_later finished (revert_to_default env (record m { keepalive_miss_count = 0 }))

-- The saved overlay, if its file is still there; a stale one is removed. `none` is an exception.
abbrev pub inspected_path :
    OverlayEnv → Option Bool → Text → OverlayManager → Option (Text × OverlayManager)
inspected_path env none overlay m = none
inspected_path env (some true) overlay m = some (overlay, m)
inspected_path env (some false) overlay m = some ([], clear_persisted_overlay env m)

abbrev pub restored_overlay_path :
    OverlayEnv → Option Text → OverlayManager → Option (Text × OverlayManager)
restored_overlay_path env none m = some ([], m)
restored_overlay_path env (some overlay) m =
    if not m.has_state_path || is_empty overlay
    then some ([], m)
    else inspected_path env (env.is_regular_file overlay) overlay m

abbrev pub fall_back : OverlayEnv → Bool × OverlayManager → Bool × OverlayManager
fall_back env (true, m) = (true, m)
fall_back env (false, m) =
    apply_config env []
      (clear_persisted_overlay env (record m { overlay_path = []; keepalive_miss_count = 0 }))

abbrev pub load_restored : OverlayEnv → ℕ → Text × OverlayManager → Bool × OverlayManager
load_restored env now (overlay, m) =
    if is_empty overlay
    then apply_config env [] m
    else fall_back env
        (apply_config env overlay (with_lease overlay (now + k_restart_lease_grace) m))

abbrev pub load_found :
    OverlayEnv → ℕ → OverlayManager → Option (Text × OverlayManager) → Bool × OverlayManager
load_found env now m none = (false, m)
load_found env now m (some found) = load_restored env now found

unfoldable pub load_initial : OverlayEnv → ℕ → OverlayManager → Bool × OverlayManager
unfolding apply_config
load_initial env now m = load_found env now m (restored_overlay_path env m.saved m)

unfoldable pub capture_connection_baseline : List Text → OverlayManager → OverlayManager
capture_connection_baseline connected m =
    if is_empty m.overlay_connected_baseline
    then record m { overlay_connected_baseline = connected }
    else m

unfoldable pub lease_expired_macs : List Text → OverlayManager → List Text
lease_expired_macs connected m =
    select (λ mac. not (any (text_eq mac) m.overlay_connected_baseline)) connected

unfoldable pub clear_connection_baseline : OverlayManager → OverlayManager
clear_connection_baseline m = record m { overlay_connected_baseline = [] }
