-- ===== src/Lib.antt =====
-- A verification library for the local bridge of battery cameras: ziot_rtp_bridge.py, which receives the
-- cameras' RTP and serves MJPEG and audio; ziot_fake_cloud.py, the local broker that speaks the cameras'
-- signalling protocol; ziot_relay.py, the RTSP relay between a camera and the bridge; and ziot_watchdog.py,
-- which looks after the bridge and the recorder.
--
-- How the parts interact. The broker cuts the stream of a camera into signalling frames and answers each.
-- The bridge asks the broker (or the vendor's cloud) for its device list and for each camera's address,
-- punches a path to it, and falls back to a relay. Packets that arrive go through RTP, the JPEG reassembler
-- or the u-law decoder, and a fanout to the subscribers. A recovery loop per camera keeps the transport up.
--
-- Which file models what:
--   Base: lists and byte strings over native numbers, dicts with number keys, and what Python's operators do.
--   Signalling/Frame, Decode: signalling_frame, _xor and decode_signalling of ziot_fake_cloud.py.
--   Signalling/Split: split_signalling; Split/Request and Split/Reads: _looks_http and StreamHandler.handle on
--     a signalling port.
--   Rtp, Audio: rtp_payload, is_rtp_media, the u-law table and ulaw_to_pcm16 of ziot_rtp_bridge.py.
--   Jpeg/Tables, Header, Scan, Reassembler: the Huffman tables, build_jpeg_header, _scan_data and
--     RtpJpegReassembler; the callbacks are the events that a call returns.
--   Fanout: class Fanout; a queue is the list of its items.
--   Cloud/Version, Row: version_lt, the flags of a device-list row, and relay_urls.
--   Cloud/Client, Number: GPS555, cloud_error_code and jwt_user_id, with int() of Python; the poller's answers are
--     those of list_cameras. Cloud/Static: parse_static_endpoints.
--   Camera/State: the fields of ZiotCamera that its transport depends on; World is what one call meets
--     outside: clock, inet_aton, sockets, the answers of the cloud and the relay, and other threads.
--   Camera/Stun, Attempt, Recovery: the endpoint, one attempt at a transport, and _recovery_tick.
--   Camera/Direct: _handle_direct_packet, ingest_rtp_media and uid_ssrc.
--   Camera/Punch: __init__, _punch, stop and the rounds of _receive.
--   Poller: is_auth_failure, BootState and CloudState, with its thread as a list of polls.
--   Boot/Roster, Retry: bring_up, retry_boot and the first device list of main.
--   Http: _authorized, do_GET, _pump and _write_jpeg_part of make_handler.
--   Signalling/Report: parse_status_report and parse_local_addr_report.
--   Ble: wifi_connect_frame, chunk20 and parse_provision_response of ziot_fake_cloud.py; Ble/Att: _att_request,
--     _att_attempt and ble_provision, with what the socket reads as a list of events.
--   Broker/Answers: arm_target and the vendor_* functions of ziot_fake_cloud.py; a message is what a frame says.
--   Broker/State, Chain, Beat, Api: HttpApi, as the items that its dictionaries hold under one uid, with what has
--     passed on the camera's sockets; the keepalive worker's round is Beat, the HTTP requests are Api.
--   Broker/Handler: _vendor_answer, _answer_camera and finish of StreamHandler.
--   Broker/Stun, Dns: stun_binding_success, _dns_name, _dns_answer and the choice of DnsHandler.
--   Broker/Token: mint_local_token and local_token_valid; base64, JSON and HMAC are arguments.
--   Broker/Registry: the cameras of HttpApi as a whole: save_cameras, load_cameras, _camera_row, and the address that
--     StunHandler notes.
--   Broker/Routes: respond, as the route that a request takes and what that does to the state under each uid.
--   Broker/Sweep: _ack_candidates, and which of them is sent when.
--   Broker/Play: the order of what is sent, as steps of these calls.
--   RelayClient/Sdp, Auth, Open: RelayStream's _parse_sdp, _choose_pt, _track_url, _auth_header, _request and open;
--     what the relay does with each request is a list of acts. open ends as the Camera's World says a relay
--     URL does.
--   RelayClient/Media: _read_response, _consume_interleaved and pump on the bytes that have arrived.
--   Watchdog: main of ziot_watchdog.py, with the streaks of dead streams.
--   Relay: interleaved, Session and _pump_interleaved of ziot_relay.py; Relay/Server: parse_head, _uid_from_uri, the
--     table of sessions, and the conversations with readers and publishers, each request with what is published then;
--     Relay/Sdp: sdp_for and parse_sdp.
-- Modules below these hold the proofs; the modules named Tests hold concrete runs.
--
-- Conventions. Bytes are numbers below 256 and numbers are native; times are milliseconds; an exception is
-- none or a constructor of its own; a call runs without a switch to another thread between its steps, except
-- where a list of events says what other threads do while it blocks.
--
-- Fuel. split_signalling, pump_interleaved, chunk20 and RelayClient/Media's rounds recurse on the length of
-- their input; every round takes a byte at least, so it is enough, and Split/Rounds, Relay/Pump and Ble/Chunks
-- show it. read_labels and name_size of Dns are given the length of the query, of
-- which every round takes a byte at least. Walk, a decoder's walk over markers, is given nine rounds for the at
-- most nine segments of the header.
--
-- Not modelled: sockets, threads and the text of HTTP; the bridge's options and the rest of its
-- configuration file; the encoding of URLs; the time limits and keepalives of RelayStream; the file of the
-- broker's viewers, its forwarding of DNS queries; what the relay's readers send while they are served;
-- the Bluetooth scripts other than the provisioning; the capture scripts. MD5 and base64 are arguments.
-- Log lines and counters that are only displayed leave no trace.
pub mod Base
pub mod Signalling
pub mod Rtp
pub mod Audio
pub mod Http
pub mod Jpeg
pub mod Fanout
pub mod Cloud
pub mod Camera
pub mod Poller
pub mod Relay
pub mod Ble
pub mod Boot
pub mod Broker
pub mod Watchdog
pub mod RelayClient
