-- ===== src/Lib.antt =====
-- The UCloud IoT package for RT-Thread as a model of its C code with theorems about it: the MQTT
-- client (uiot/mqtt), the update over the air (uiot/ota), the device shadow (uiot/shadow), and of
-- uiot/utils the linked list and the JSON lookups.
--
-- The program. An application publishes, subscribes and unsubscribes through the requests of
-- uiot/mqtt/src; each writes a packet into write_buf, records it in a list of requests that wait for
-- an acknowledgement, and sends it. uiot_mqtt_yield reads packets into read_buf, hands each to the
-- handler of its type, and in between removes the requests that were answered or have timed out,
-- sends pings, and reconnects after a loss. The clients of uiot/ota and uiot/shadow subscribe to their
-- topics and get the messages there; the shadow publishes documents with properties of the device
-- and keeps a list of the requests that wait for a reply.
--
-- The files, and the code that each is about (file and function names as in the repository):
--   Prelude      lists, integers and machine words over native numbers; results with a fault
--   Codes        the return codes of uiot/sdk-impl/uiot_defs.h
--   Mqtt/Bytes   the byte readers and writers of uiot/mqtt/src/mqtt_client_common.c
--   Mqtt/RemLen  mqtt_write_packet_rem_len, get_mqtt_packet_len, mqtt_read_packet_rem_len_form_buf
--   Mqtt/Header  mqtt_init_packet_header, and the masks that take the header byte apart
--   Mqtt/Serialize, Mqtt/Connect   the packets that the client sends
--   Mqtt/Deserialize   the packets that it receives
--   Mqtt/Topic   _is_topic_equals and _is_topic_matched; Topic/Matching has the rules of MQTT 3.1.1
--                as a relation
--   Mqtt/State   UIoT_Client and what it holds (uiot/mqtt/include/mqtt_client.h)
--   Mqtt/Act     functions on the client and its surroundings, and the timers of
--                ports/rtthread/HAL_Timer_rtthread.c
--   Mqtt/Pending packet identifiers, the waiting lists, the table of subscriptions
--   Mqtt/Net     send_mqtt_packet and _read_mqtt_packet
--   Mqtt/Handlers   the handlers, _deliver_message, cycle_for_read, wait_for_read
--   Mqtt/Requests   uiot_mqtt_publish, _subscribe, _resubscribe, _unsubscribe
--   Mqtt/Session mqtt_client_connect.c, _handle_disconnect and _handle_reconnect
--   Mqtt/Session/Yield   the rest of mqtt_client_yield.c: pings, sweeps, the main loop
--   Utils/LinkedList   uiot/utils/utils_list.c on a heap of nodes; its children say what a list of
--                nodes stands for (Chain, Contents) and show each operation against it
--   Utils/Json   uiot/utils/json_parser.c and the lookup of json_token.c: Scan is one step of the
--                scanner, Lookup the search; Printed has an abstract syntax with its print
--   Ota/State    OTA_Struct_t (uiot/sdk-impl/uiot_export_ota.h), the platform below it, and actions
--   Ota/Message  ota_lib_gen_upstream_msg of uiot/ota/src/ota_lib.c, the topics of ota_mqtt.c
--   Ota/Report   the reports of uiot/ota/src/ota_client.c
--   Ota/Fetch    uiot/ota/src/ota_fetch.c and IOT_OTA_FetchYield
--   Ota/Download IOT_OTA_Ioctl, IOT_OTA_Clear, IOT_OTA_fw_download
--   Ota/Callback _ota_callback, with the queue of update messages
--   Ota/Init     IOT_OTA_Init and osc_init
--   Ota/Destroy  IOT_OTA_Destroy and osc_deinit
--   Shadow/Document   the JSON document of a request: shadow_json_init, shadow_json_set_content and
--                shadow_json_finalize of uiot/shadow/src/shadow_client_manager.c, put_json_node of
--                shadow_client_json.c; Printed compares it with the syntax of Utils/Json
--   Shadow/State UIoT_Shadow (uiot/shadow/include/shadow_client.h), the platform below it, and actions
--   Shadow/Client   uiot_shadow_make_request, uiot_shadow_update_property, and how pending requests
--                are answered and expire
--   Shadow/Receive  topic_request_result_handler, topic_sync_handler, _handle_delta
--   Shadow/Api   IOT_Shadow_* of uiot/shadow/src/shadow_client.c, the registration of properties
--   Tests        runs and instances
--
-- How code becomes definitions. A function that returns a code and stores its result through
-- pointers returns an Outcome: ok with the result, err with the code, or fault for an access
-- outside a buffer, the use of an uninitialised variable, or a loop that runs out of fuel. A
-- function on the client is an action: it takes the client and the state of the platform, and
-- returns its Outcome with the new ones, also where it fails. Sockets, the tick counter and the
-- allocator are fields of the record Hal, a parameter; the construction of a client takes mutexes
-- as a parameter of its own. size_t, uint32_t and uint16_t wrap around. A C string is the list of
-- its bytes before the NUL. A callback is a number; its call is an entry in the client's trace.
--
-- The list on the heap has its own actions: a store of nodes by address, 0 for NULL, and `none` for
-- an access through NULL or to a node that is not there. The OTA functions are actions on
-- OTA_Struct_t: their answer is a result with the new state, fault for undefined behaviour, or spent
-- where a loop runs out of fuel. MQTT, HTTP, MD5, the lookup in JSON texts, the flash port, the
-- allocator and the clock are fields of the record Platform there; Ota/Callback/Params puts the
-- lookup of Utils/Json in its place. The MQTT client keeps its lists in utils_list; its model has
-- plain lists instead, as have the queue of update messages and the device shadow.
--
-- The functions of the device shadow are actions on UIoT_Shadow and the record Host, a parameter: the
-- allocator, the clock, the MQTT client, sscanf for numbers, and the callbacks of properties. A
-- DeviceProperty is shared by the caller and the list of handlers, so it stands at an address. A
-- document is the text in a buffer of at least a byte; a write behind the buffer is a fault. Of the
-- request that a message answers, the call of its callback is an event of the shadow.
--
-- A pointer into a JSON document is the rest of the document behind it, so that lengths and the NUL
-- are those of the rest; a pointer behind the NUL is a case of its own, and reading there a fault.
--
-- Fuel. The loop over the fields of a JSON object has a round for each byte of it; list_find has a
-- round for each node and one more; the download a round for each byte of the file and one more, and
-- the OTA callback one for each level of its own calls. The encoder
-- of the remaining length has five rounds, enough for any 32-bit number, and the decoder four,
-- its own limit. The loop that drops a packet too long for read_buf has one round per byte and
-- one more. The loops of send_mqtt_packet, wait_for_read and uiot_mqtt_yield end when the
-- network or the clock says so; they run on the fuel that is their parameter, and a run that
-- exhausts it is a fault.
--
-- Not modelled: locks and threads (one thread runs at a time), null handles and their checks, log
-- messages, HAL_SleepMs, callbacks that call back into the client or the list, the duplicate check
-- under MQTT_CHECK_REPEAT_MSG (no build file sets it), what a failed construction does not free or
-- leaves as NULL (a list that uiot_mqtt_init did not make is an empty list here), the
-- progress bar that the OTA client logs, of JSON the list of all keys (nothing calls it) and sscanf,
-- and the other parts of the package: the device model, which builds topics over the MQTT client,
-- HTTP and the ports, which are parameters here, and the hashes, copies of public code.
--
-- Memory. The allocations of the requests, of the construction, of the OTA client, of the iterators
-- over the waiting lists of the MQTT client, and of those over the pending requests, the handlers and
-- the properties of the shadow may fail. Taken to succeed are the copies of keys and values in the
-- JSON lookup, and in the shadow the iterator of list_find.
pub mod Prelude
pub mod Codes
pub mod Mqtt
pub mod Utils
pub mod Ota
pub mod Shadow
pub mod Tests
