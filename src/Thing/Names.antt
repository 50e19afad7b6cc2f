-- ===== src/Thing/Names.antt =====
-- tuya_daemon/include/tuyalink_core.h: the printed names of the message types tell them apart.
use tuya_daemon.Base.{
  Bool, true, false, Option, none, some, List, [], ◌∷◌, String, strcmp_eq, if◌then◌else◌,
}
use tuya_daemon.Thing.{
  ThingType, model_get, model_rsp, property_report, property_report_rsp, property_set,
  property_set_rsp, property_desired_get, property_desired_get_rsp, property_desired_del,
  property_desired_del_rsp, event_trigger, event_trigger_rsp, action_execute, action_execute_rsp,
  batch_report, batch_report_rsp, device_sub_bind, device_sub_bind_rsp, device_sub_login,
  device_sub_logout, device_topo_add, device_topo_add_rsp, device_topo_del, device_topo_del_rsp,
  device_topo_get, device_topo_get_rsp, ota_firmware_report, ota_issue, ota_get, ota_get_rsp,
  ota_progress_report, ext_time_request, ext_time_response, ext_config_get, ext_config_get_rsp,
  ext_file_upload_request, ext_file_upload_response, ext_file_download_request,
  ext_file_download_response, channel_raw_up, channel_raw_down, channel_rpc_request,
  channel_rpc_response, max, unknown, id_to_str,
}

-- The types that `THING_TYPE_ID2STR` has a name for.
abbrev pub named_types : List ThingType
named_types =
    model_get ∷ model_rsp ∷ property_report ∷ property_report_rsp ∷ property_set ∷ property_set_rsp
    ∷ property_desired_get ∷ property_desired_get_rsp ∷ property_desired_del
    ∷ property_desired_del_rsp ∷ event_trigger ∷ event_trigger_rsp ∷ action_execute
    ∷ action_execute_rsp ∷ batch_report ∷ batch_report_rsp ∷ device_sub_bind ∷ device_sub_bind_rsp
    ∷ device_sub_login ∷ device_sub_logout ∷ device_topo_add ∷ device_topo_add_rsp ∷ device_topo_del
    ∷ device_topo_del_rsp ∷ device_topo_get ∷ device_topo_get_rsp ∷ ota_firmware_report ∷ ota_issue
    ∷ ota_get ∷ ota_get_rsp ∷ ota_progress_report ∷ ext_time_request ∷ ext_time_response
    ∷ ext_config_get ∷ ext_config_get_rsp ∷ ext_file_upload_request ∷ ext_file_upload_response
    ∷ ext_file_download_request ∷ ext_file_download_response ∷ channel_raw_up ∷ channel_raw_down
    ∷ channel_rpc_request ∷ channel_rpc_response ∷ []

abbrev pub has_name : ThingType → Bool
has_name max = false
has_name unknown = false
has_name _ = true

-- The first type of a list with a printed name.
abbrev pub find_name : String → List ThingType → Option ThingType
find_name name [] = none
find_name name (t ∷ ts) = if strcmp_eq (id_to_str t) name then some t else find_name name ts
