-- ===== src/Cloud/Tests.antt =====
-- Concrete versions and a concrete row.
use ziot_rtp_bridge.Base.{◌≡◌, refl, true, false, none, some, List, [], ◌∷◌, Bytes, ascii, arith}
use ziot_rtp_bridge.Cloud.Row.{Row}
use ziot_rtp_bridge.Cloud.Static.{endpoints, refused, parse_static_endpoints}
use ziot_rtp_bridge.Cloud.Static.Accepted.{IsParsed, parse_static_endpoints-IsParsed}
use ziot_rtp_bridge.Cloud.Static.Printed.{
  Entry, config_of, endpoints_of, parse_static_endpoints-config_of,
}
use ziot_rtp_bridge.Cloud.Version.{parts, is_empty, version_lt}

abbrev old_version : Bytes
old_version = ascii "TXW817_A_V1.0.9"

abbrev pivot_version : Bytes
pivot_version = ascii "TXW817_A_V1.0.11.52"

abbrev new_version : Bytes
new_version = ascii "V1.1"

old_lt_pivot : version_lt old_version pivot_version ≡ true
unfolding version_lt
old_lt_pivot = refl

pivot_lt_new : version_lt pivot_version new_version ≡ true
unfolding version_lt
pivot_lt_new = refl

old_lt_new : version_lt old_version new_version ≡ true
unfolding version_lt
old_lt_new = refl

-- 1.1 and 1.1.0
readable : is_empty (parts new_version) ≡ false
unfolding parts
readable = refl

readable_zero : is_empty (parts (ascii "V1.1.0")) ≡ false
unfolding parts
readable_zero = refl

not_lt_zero : version_lt new_version (ascii "V1.1.0") ≡ false
unfolding version_lt
not_lt_zero = refl

zero_not_lt : version_lt (ascii "V1.1.0") new_version ≡ false
unfolding version_lt
zero_not_lt = refl

abbrev x5_row : Row
x5_row = record {
  uid = ascii "141030191094";
  online_state = some (ascii "1");
  media_state = none;
  relay_ip = some (ascii "10.0.0.1");
  device_type = some (ascii "X5");
  version = some old_version;
}

abbrev configured : List Entry
configured =
    (ascii "141030191094", (record { a = 192; b = 168; c = 68; d = 107 }, some 35218))
    ∷ (ascii "141030191095", (record { a = 10; b = 0; c = 0; d = 255 }, none))
    ∷ []

parse_static_endpoints-config_of_example :
    parse_static_endpoints (config_of configured) ≡ endpoints (endpoints_of configured)
parse_static_endpoints-config_of_example = parse_static_endpoints-config_of configured (
    (
      ((omega arith, omega arith, omega arith, omega arith), omega arith),
      (((omega arith, omega arith, omega arith, omega arith), tt), tt),
    ))

abbrev raw_config : List (Bytes × Bytes)
raw_config = (ascii "1", ascii " 10.0.0.7 ") ∷ (ascii "2", ascii "10.0.0.07:80") ∷ []

-- A zero in front is refused.
raw_config_refused : parse_static_endpoints raw_config ≡ refused (ascii "2")
unfolding parse_static_endpoints
raw_config_refused = refl

parse_static_endpoints-IsParsed_example : IsParsed raw_config (parse_static_endpoints raw_config)
parse_static_endpoints-IsParsed_example = parse_static_endpoints-IsParsed raw_config
