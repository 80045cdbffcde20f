-- ===== src/Broker/Routes/Tests.antt =====
-- Requests of the app and of a camera.
use ziot_rtp_bridge.Base.{◌≡◌, refl, true, false, none, some, [], Bytes, ascii}
use ziot_rtp_bridge.Base.Int.{pos}
use ziot_rtp_bridge.Broker.Routes.{Request, route, redirect, device_list, viewer_of, Table}
use ziot_rtp_bridge.Broker.State.{Host, new_entry}

abbrev request : Bytes → Bytes → Request
request method path = record {
  method = method;
  path = path;
  query = ascii "a=1";
  uid = ascii "CAM1";
  event = ascii "0";
  viewer = record { public_ip = []; public_port = none; private_ip = []; private_port = none };
  body = record { uid = ascii "CAM1"; ip = ascii "10.0.0.5"; port = some 5000 };
}

slash_redirected :
    route (request (ascii "GET") (ascii "/api/v1/ipc/")) ≡ redirect (ascii "/api/v1/ipc?a=1")
unfolding route
slash_redirected = refl

list_answered : route (request (ascii "GET") (ascii "/api/v1/ipc")) ≡ device_list
unfolding route
list_answered = refl

viewer_answered :
    route (request (ascii "GET") (ascii "/api/v1/ipc/viewer/CAM1")) ≡ viewer_of (ascii "CAM1")
unfolding route
viewer_answered = refl

abbrev host : Host
host = record {
  now = 1000;
  later = 1000;
  wall = 1700000000;
  takes = λ conn m. true;
  datagrams = 100;
  relay_start = false;
  api_relay_host = [];
  api_relay_port = 0;
  relay_ip = [];
  relay_port = pos 0;
  own_ip = ascii "10.0.0.2";
}

abbrev table : Table
table = λ uid. new_entry uid none none
