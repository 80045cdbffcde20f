-- ===== src/Cloud/Row.antt =====
-- A device-list row, its flags, and `relay_urls` of ziot_rtp_bridge.py. A value of the row is its `str()`,
-- and `none` where it is null or missing.
pub mod Update
use ziot_rtp_bridge.Base.{
  ℕ, ◌+◌, ◌-◌, Bool, true, false, not, ◌&&◌, ◌||◌, Option, none, some, List, [], ◌∷◌, ◌++◌,
  if◌then◌else◌, ◌==◌, ltb, leb, Bytes, bytes_eq, length, drop, ascii, is_space,
}
use ziot_rtp_bridge.Cloud.Version.{version_lt}

pub record Row : Type 0 where
  pub uid : Bytes
  pub online_state : Option Bytes
  pub media_state : Option Bytes
  pub relay_ip : Option Bytes
  pub device_type : Option Bytes
  pub version : Option Bytes

-- `_flag`: empty is "0", null is "".
unfoldable pub flag : Option Bytes → Bytes
flag none = []
flag (some []) = ascii "0"
flag (some (c ∷ cs)) = c ∷ cs

unfoldable pub cloud_is_on : Row → Bool
unfolding flag
cloud_is_on row = bytes_eq (flag row.online_state) (ascii "1")

unfoldable pub cloud_is_free : Row → Bool
unfolding flag
cloud_is_free row = bytes_eq (flag row.media_state) (ascii "0")

-- `str(v or "")`
abbrev pub text_of : Option Bytes → Bytes
text_of none = []
text_of (some v) = v

unfoldable pub lstrip : Bytes → Bytes
lstrip [] = []
lstrip (c ∷ cs) = if is_space c then lstrip cs else c ∷ cs

unfoldable pub rstrip : Bytes → Bytes
rstrip [] = []
rstrip (c ∷ cs) = elim (rstrip cs) [ [] ↦ if is_space c then [] else c ∷ [] | d ∷ ds ↦ c ∷ d ∷ ds ]

-- `":" in host`
abbrev pub has_colon : Bytes → Bool
has_colon [] = false
has_colon (c ∷ cs) = c == b':' || has_colon cs

abbrev pub pivot : Bytes
pivot = ascii "TXW817_A_V1.0.11.52"

-- `host`, with the default port 554.
abbrev pub host_port : Bytes → Bytes
host_port host = if has_colon host then host else host ++ ascii ":554"

abbrev pub rtp_url : Bytes → Bytes → Bytes
rtp_url host uid = ascii "rtsp://" ++ (host ++ (ascii "/rtp/" ++ drop (length uid - 8) uid))

abbrev pub live_url : Bytes → Bytes → Bytes
live_url host uid = ascii "rtsp://" ++ (host ++ (ascii "/live/" ++ uid))

-- The camera takes the older of the two forms of path.
unfoldable pub takes_rtp : Row → Bool
takes_rtp row =
    if bytes_eq (text_of row.device_type) (ascii "X5")
    then version_lt (text_of row.version) pivot
    else true

unfoldable pub relay_urls : Row → List Bytes
unfolding lstrip rstrip
relay_urls row =
    let host = rstrip (lstrip (text_of row.relay_ip)) in
    let uid = row.uid in
    if bytes_eq host [] || bytes_eq uid []
    then []
    else if takes_rtp row
    then rtp_url (host_port host) uid ∷ live_url (host_port host) uid ∷ []
    else live_url (host_port host) uid ∷ rtp_url (host_port host) uid ∷ []
