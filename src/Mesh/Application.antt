-- ===== src/Mesh/Application.antt =====
-- The interface of `MeshApplication` (src/mesh/mesh_application.cpp) that the coordinator uses: its
-- calls as data, and the answers of one pass. Whether a call throws is the environment's choice.
use mrs_uav_bluetooth.Prelude.{Text, ℕ, Bool, Option, List}

pub data Call : Type 0 where
  attach : ℕ → Call
  cancel_join : Call
  import_auto_identity : ℕ → Call
  join : Call
  send : ℕ → ℕ → List ℕ → Call
  prepare_auto_keys : Call
  add_app_key : ℕ → ℕ → ℕ → Call
  configure_vendor_model : ℕ → Call
  set_auto_provisioning_unicast : ℕ → Call
  add_node : List ℕ → Call

-- `none` is an exception.
pub record Answers : Type 0 where
  pub accepts : Call → Bool
  pub keys_prepared : Option Bool
  pub vendor_model_ready : Option Bool
  pub device_keys : Option (List ℕ)

-- The part of `Status` that the coordinator reads.
pub record Status : Type 0 where
  pub daemon_available : Bool
  pub attached : Bool
  pub state : Text
  pub token : ℕ
  pub addresses : List ℕ
