-- ===== src/Mesh/Runs.antt =====
-- The theorems on Mesh device UUIDs at concrete names.
use mrs_uav_bluetooth.Prelude.{codes, ℕ, ◌≡◌, refl, some, List}
use mrs_uav_bluetooth.Mesh.Uuid.{
  mesh_uuid_from_string, mesh_auto_uuid_from_name, mesh_auto_uuid_number,
}
use mrs_uav_bluetooth.Mesh.Uuid.Identity.{
  mesh_uuid_from_string-uuid_from_name, mesh_auto_uuid_from_name-number, IsValidUuid,
}
use mrs_uav_bluetooth.Util.Md5.{md5}
use mrs_uav_bluetooth.Util.Uuid.{uuid_from_name}

mesh_auto_uuid_from_name-number_example :
    (uuid : List ℕ) × (mesh_auto_uuid_from_name (codes "uav7") ≡ some uuid)
    × IsValidUuid uuid
    × (mesh_auto_uuid_number uuid ≡ 7)
mesh_auto_uuid_from_name-number_example = mesh_auto_uuid_from_name-number (codes "uav7") 7 refl

mesh_uuid_from_string-uuid_from_name_example :
    mesh_uuid_from_string (uuid_from_name (codes "uav7")) ≡ some (md5 (codes "uav7"))
mesh_uuid_from_string-uuid_from_name_example = mesh_uuid_from_string-uuid_from_name (codes "uav7")
