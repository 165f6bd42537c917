-- ===== src/Codes.antt =====
-- The return codes of uiot/sdk-impl/uiot_defs.h that the modelled functions use.
use ucloud_iot_rtthread_pack.Prelude.{ℤ, pos, negsuc}

abbrev pub mqtt_already_connected : ℤ
mqtt_already_connected = pos 4

abbrev pub mqtt_connection_accepted : ℤ
mqtt_connection_accepted = pos 3

abbrev pub mqtt_manually_disconnected : ℤ
mqtt_manually_disconnected = pos 2

abbrev pub mqtt_reconnected : ℤ
mqtt_reconnected = pos 1

abbrev pub success_ret : ℤ
success_ret = pos 0

abbrev pub failure_ret : ℤ
failure_ret = negsuc 0

abbrev pub err_param_invalid : ℤ
err_param_invalid = negsuc 1

abbrev pub err_mqtt_no_conn : ℤ
err_mqtt_no_conn = negsuc 102

abbrev pub err_mqtt_unknown_error : ℤ
err_mqtt_unknown_error = negsuc 103

abbrev pub err_mqtt_attempting_reconnect : ℤ
err_mqtt_attempting_reconnect = negsuc 104

abbrev pub err_mqtt_reconnect_timeout : ℤ
err_mqtt_reconnect_timeout = negsuc 105

abbrev pub err_mqtt_max_subscriptions_reached : ℤ
err_mqtt_max_subscriptions_reached = negsuc 106

abbrev pub err_mqtt_sub_failed : ℤ
err_mqtt_sub_failed = negsuc 107

abbrev pub err_mqtt_nothing_to_read : ℤ
err_mqtt_nothing_to_read = negsuc 108

abbrev pub err_mqtt_packet_read_error : ℤ
err_mqtt_packet_read_error = negsuc 109

abbrev pub err_mqtt_request_timeout : ℤ
err_mqtt_request_timeout = negsuc 110

abbrev pub err_mqtt_connack_unknown : ℤ
err_mqtt_connack_unknown = negsuc 111

abbrev pub err_mqtt_connack_unacceptable_protocol_version : ℤ
err_mqtt_connack_unacceptable_protocol_version = negsuc 112

abbrev pub err_mqtt_connack_identifier_rejected : ℤ
err_mqtt_connack_identifier_rejected = negsuc 113

abbrev pub err_mqtt_connack_server_unavailable : ℤ
err_mqtt_connack_server_unavailable = negsuc 114

abbrev pub err_mqtt_connack_bad_userdata : ℤ
err_mqtt_connack_bad_userdata = negsuc 115

abbrev pub err_mqtt_connack_not_authorized : ℤ
err_mqtt_connack_not_authorized = negsuc 116

abbrev pub err_mqtt_rx_message_packet_type_invalid : ℤ
err_mqtt_rx_message_packet_type_invalid = negsuc 117

abbrev pub err_mqtt_buffer_too_short : ℤ
err_mqtt_buffer_too_short = negsuc 118

abbrev pub err_mqtt_qos_not_support : ℤ
err_mqtt_qos_not_support = negsuc 119

abbrev pub err_mqtt_unsub_failed : ℤ
err_mqtt_unsub_failed = negsuc 120

abbrev pub err_max_topic_length : ℤ
err_max_topic_length = negsuc 137

abbrev pub err_tcp_read_failed : ℤ
err_tcp_read_failed = negsuc 605

abbrev pub err_tcp_peer_shutdown : ℤ
err_tcp_peer_shutdown = negsuc 607

abbrev pub err_ssl_read_timeout : ℤ
err_ssl_read_timeout = negsuc 706

abbrev pub err_ssl_read_failed : ℤ
err_ssl_read_failed = negsuc 707

abbrev pub err_http_conn_error : ℤ
err_http_conn_error = negsuc 7

abbrev pub err_http_auth_error : ℤ
err_http_auth_error = negsuc 8

abbrev pub err_http_not_found : ℤ
err_http_not_found = negsuc 9

abbrev pub err_http_timeout : ℤ
err_http_timeout = negsuc 10

abbrev pub err_ota_general_failure : ℤ
err_ota_general_failure = negsuc 300

abbrev pub err_ota_invalid_param : ℤ
err_ota_invalid_param = negsuc 301

abbrev pub err_ota_invalid_state : ℤ
err_ota_invalid_state = negsuc 302

abbrev pub err_ota_str_too_long : ℤ
err_ota_str_too_long = negsuc 303

abbrev pub err_ota_fetch_failed : ℤ
err_ota_fetch_failed = negsuc 304

abbrev pub err_ota_file_not_exist : ℤ
err_ota_file_not_exist = negsuc 305

abbrev pub err_ota_fetch_auth_fail : ℤ
err_ota_fetch_auth_fail = negsuc 306

abbrev pub err_ota_fetch_timeout : ℤ
err_ota_fetch_timeout = negsuc 307

abbrev pub err_ota_no_memory : ℤ
err_ota_no_memory = negsuc 308

abbrev pub err_ota_osc_failed : ℤ
err_ota_osc_failed = negsuc 309

abbrev pub err_ota_md5_mismatch : ℤ
err_ota_md5_mismatch = negsuc 310

abbrev pub err_json_buffer_truncated : ℤ
err_json_buffer_truncated = negsuc 132

abbrev pub err_json_buffer_too_small : ℤ
err_json_buffer_too_small = negsuc 133

abbrev pub err_json : ℤ
err_json = negsuc 134

abbrev pub err_max_appending_request : ℤ
err_max_appending_request = negsuc 136

abbrev pub err_shadow_property_exist : ℤ
err_shadow_property_exist = negsuc 200

abbrev pub err_shadow_not_property_exist : ℤ
err_shadow_not_property_exist = negsuc 201
