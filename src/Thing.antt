-- ===== src/Thing.antt =====
-- tuya_daemon/include/tuyalink_core.h: the message types of TuyaLink and their printed names.
pub mod Names
use tuya_daemon.Base.{String}

-- `tuyalink_thing_type_t`, in the header's order.
pub data ThingType : Type 0 where
  model_get model_rsp property_report property_report_rsp property_set property_set_rsp : ThingType
  property_desired_get property_desired_get_rsp property_desired_del : ThingType
  property_desired_del_rsp event_trigger event_trigger_rsp action_execute : ThingType
  action_execute_rsp batch_report batch_report_rsp device_sub_bind device_sub_bind_rsp : ThingType
  device_sub_login device_sub_logout device_topo_add device_topo_add_rsp device_topo_del : ThingType
  device_topo_del_rsp device_topo_get device_topo_get_rsp ota_firmware_report ota_issue : ThingType
  ota_get ota_get_rsp ota_progress_report ext_time_request ext_time_response : ThingType
  ext_config_get ext_config_get_rsp ext_file_upload_request ext_file_upload_response : ThingType
  ext_file_download_request ext_file_download_response channel_raw_up channel_raw_down : ThingType
  channel_rpc_request channel_rpc_response max unknown : ThingType

-- `THING_TYPE_ID2STR`.
unfoldable pub id_to_str : ThingType → String
id_to_str model_get = "THING_TYPE_MODEL_GET"
id_to_str model_rsp = "THING_TYPE_MODEL_RSP"
id_to_str property_report = "THING_TYPE_PROPERTY_REPORT"
id_to_str property_report_rsp = "THING_TYPE_PROPERTY_REPORT_RSP"
id_to_str property_set = "THING_TYPE_PROPERTY_SET"
id_to_str property_set_rsp = "THING_TYPE_PROPERTY_SET_RSP"
id_to_str property_desired_get = "THING_TYPE_PROPERTY_DESIRED_GET"
id_to_str property_desired_get_rsp = "THING_TYPE_PROPERTY_DESIRED_GET_RSP"
id_to_str property_desired_del = "THING_TYPE_PROPERTY_DESIRED_DEL"
id_to_str property_desired_del_rsp = "THING_TYPE_PROPERTY_DESIRED_DEL_RSP"
id_to_str event_trigger = "THING_TYPE_EVENT_TRIGGER"
id_to_str event_trigger_rsp = "THING_TYPE_EVENT_TRIGGER_RSP"
id_to_str action_execute = "THING_TYPE_ACTION_EXECUTE"
id_to_str action_execute_rsp = "THING_TYPE_ACTION_EXECUTE_RSP"
id_to_str batch_report = "THING_TYPE_BATCH_REPORT"
id_to_str batch_report_rsp = "THING_TYPE_BATCH_REPORT_RSP"
id_to_str device_sub_bind = "THING_TYPE_DEVICE_SUB_BIND"
id_to_str device_sub_bind_rsp = "THING_TYPE_DEVICE_SUB_BIND_RSP"
id_to_str device_sub_login = "THING_TYPE_DEVICE_SUB_LOGIN"
id_to_str device_sub_logout = "THING_TYPE_DEVICE_SUB_LOGOUT"
id_to_str device_topo_add = "THING_TYPE_DEVICE_TOPO_ADD"
id_to_str device_topo_add_rsp = "THING_TYPE_DEVICE_TOPO_ADD_RSP"
id_to_str device_topo_del = "THING_TYPE_DEVICE_TOPO_DEL"
id_to_str device_topo_del_rsp = "THING_TYPE_DEVICE_TOPO_DEL_RSP"
id_to_str device_topo_get = "THING_TYPE_DEVICE_TOPO_GET"
id_to_str device_topo_get_rsp = "THING_TYPE_DEVICE_TOPO_GET_RSP"
id_to_str ota_firmware_report = "THING_TYPE_OTA_FIRMWARE_REPORT"
id_to_str ota_issue = "THING_TYPE_OTA_ISSUE"
id_to_str ota_get = "THING_TYPE_OTA_GET"
id_to_str ota_get_rsp = "THING_TYPE_OTA_GET_RSP"
id_to_str ota_progress_report = "THING_TYPE_OTA_PROGRESS_REPORT"
id_to_str ext_time_request = "THING_TYPE_EXT_TIME_REQUEST"
id_to_str ext_time_response = "THING_TYPE_EXT_TIME_RESPONSE"
id_to_str ext_config_get = "THING_TYPE_EXT_CONFIG_GET"
id_to_str ext_config_get_rsp = "THING_TYPE_EXT_CONFIG_GET_RSP"
id_to_str ext_file_upload_request = "THING_TYPE_EXT_FILE_UPLOAD_REQUEST"
id_to_str ext_file_upload_response = "THING_TYPE_EXT_FILE_UPLOAD_RESPONSE"
id_to_str ext_file_download_request = "THING_TYPE_EXT_FILE_DOWNLOAD_REQUEST"
id_to_str ext_file_download_response = "THING_TYPE_EXT_FILE_DOWNLOAD_RESPONSE"
id_to_str channel_raw_up = "THING_TYPE_CHANNEL_RAW_UP"
id_to_str channel_raw_down = "THING_TYPW_CHANNEL_RAW_DOWN"
id_to_str channel_rpc_request = "THING_TYPE_CHANNEL_RPC_REQUEST"
id_to_str channel_rpc_response = "THING_TYPE_CHANNEL_RPC_RESPONSE"
id_to_str max = "Unknown"
id_to_str unknown = "Unknown"
