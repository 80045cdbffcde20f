-- ===== src/Boot/Tests.antt =====
-- A cloud that is out twice, and a device list of two cameras.
use mathlib.Core.List.Permᴰ
use ziot_rtp_bridge.Base.{◌≡◌, refl, true, false, none, some, List, [], ◌∷◌, Bytes, ascii}
use ziot_rtp_bridge.Boot.Retry.{
  first_list, reach, mark, refused_boot, retrying_after, parked, stopped,
}
use ziot_rtp_bridge.Boot.Retry.Account.{first_list_account}
use ziot_rtp_bridge.Boot.Roster.{Config, Host, Bridge, choose, bring_up}
use ziot_rtp_bridge.Boot.Roster.Registers.{IsBrought, bound, bring_up-IsBrought}
use ziot_rtp_bridge.Camera.Punch.{new_camera}
use ziot_rtp_bridge.Camera.State.{World, plays}
use ziot_rtp_bridge.Cloud.Row.{Row}
use ziot_rtp_bridge.Poller.{starting, other_error, http_error, raises, rows_of, is_auth_failure}

abbrev row : Bytes → Row
row uid = record {
  uid = uid;
  online_state = some (ascii "1");
  media_state = none;
  relay_ip = none;
  device_type = none;
  version = none;
}

abbrev config : Config
config = record {
  allowed = ascii "CAM1" ∷ [];
  only_online = false;
  offline = false;
  static = [];
  bind_arg = [];
}

abbrev world : World
world = record {
  now = 1000;
  later = 2000;
  inet_aton = λ ip. none;
  new_sock = some 3;
  sock_open = true;
  stun = [];
  opens = λ url. plays;
  meanwhile = [];
}

abbrev host : Host
host = record {
  ask_private_ip = λ uid. none;
  local_ip_for = λ ip. some (ascii "10.0.0.2");
  inet_aton = λ ip. none;
  has_local_address = λ ip. false;
  build = λ ip r a. some (new_camera true ip false r a);
  world = λ uid. world;
  ended = λ rows. rows;
}

abbrev bridge : Bridge
bridge = record {
  live = [];
  cold = [];
  has_cloud = true;
  polled = [];
  cloud_runs = false;
  boot = record { phase = starting; has_detail = false; attempts = 0 };
}

abbrev cams : List Row
cams = row (ascii "CAM1") ∷ row (ascii "CAM2") ∷ []

first_list_account_example :
    (first_list config host
        (raises other_error ∷ raises (http_error 500) ∷ rows_of cams ∷ [])
        bridge
      ≡ reach (5000 ∷ 10000 ∷ []) (bring_up config host cams (mark (retrying_after 2) bridge)))
    × (first_list config host
          (raises other_error ∷ raises (http_error 500) ∷ raises (http_error 401) ∷ [])
          bridge
        ≡ record { bridge = mark refused_boot bridge; waits = 5000 ∷ 10000 ∷ []; ended = parked })
    × (first_list config host (raises other_error ∷ raises (http_error 500) ∷ []) bridge
        ≡ record { bridge = mark (retrying_after 2) bridge; waits = 5000 ∷ []; ended = stopped })
unfolding is_auth_failure
first_list_account_example =
    first_list_account config host other_error (http_error 500 ∷ []) bridge cams (http_error 401) []
      (refl, (refl, tt)) refl

bring_up-IsBrought_example :
    IsBrought config host
      (choose config cams)
      (bound config host (choose config cams))
      bridge
      (bring_up config host cams bridge)
bring_up-IsBrought_example =
    bring_up-IsBrought config host cams bridge (Permᴰ.refl (choose config cams))
