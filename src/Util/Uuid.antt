-- ===== src/Util/Uuid.antt =====
-- The names of src/util/uuid_utils.cpp that stand for UUIDs (`uuid_from_name`, `named_*_uuid`).
use mrs_uav_bluetooth.Prelude.{take, drop, Text, ◌∷◌, ◌++◌}
use mrs_uav_bluetooth.Util.Strings.{is_space, strip}
use mrs_uav_bluetooth.Util.Md5.{md5_hex}

unfoldable pub uuid_from_name : Text → Text
unfolding md5_hex
uuid_from_name name =
    let hex = md5_hex name in
    take 8 hex
    ++ b'-'
      ∷ (take 4 (drop 8 hex)
          ++ b'-'
            ∷ (take 4 (drop 12 hex)
                ++ b'-' ∷ (take 4 (drop 16 hex) ++ b'-' ∷ take 12 (drop 20 hex))))

unfoldable pub named_service_uuid : Text → Text
unfolding uuid_from_name
named_service_uuid name = uuid_from_name (strip is_space name)

unfoldable pub named_characteristic_uuid : Text → Text
unfolding uuid_from_name
named_characteristic_uuid name = uuid_from_name (strip is_space name)

unfoldable pub named_descriptor_uuid : Text → Text
unfolding uuid_from_name
named_descriptor_uuid name = uuid_from_name (strip is_space name)
