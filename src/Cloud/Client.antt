-- ===== src/Cloud/Client.antt =====
-- The cloud client of ziot_rtp_bridge.py: `cloud_error_code`, `jwt_user_id` and `GPS555`. What the cloud does
-- with a request is an argument; a body is JSON, read as far as the client reads it.
pub mod Refusal
mod Tests
use ziot_rtp_bridge.Base.{
  ℕ, zero, suc, ◌+◌, Bool, true, false, not, ◌||◌, Option, none, some, List, [], ◌∷◌, ◌++◌,
  if◌then◌else◌, ◌&&◌, ◌==◌, ltb, Bytes, ascii, bytes_eq, ◌>>=◌,
}
use ziot_rtp_bridge.Base.Int.{ℤ, pos}
use ziot_rtp_bridge.Broker.Api.{str}
use ziot_rtp_bridge.Broker.Token.{pad, split_dots}
use ziot_rtp_bridge.Cloud.Number.{Json, int_of, int_text}
use ziot_rtp_bridge.Cloud.Row.{Row}
use ziot_rtp_bridge.Http.{rstrip_slash}
use ziot_rtp_bridge.Poller.{Failure, cloud_error, other_error, Answer, rows_of, raises}

-- A request: its URL, its parameters or its body, and the time it may take in seconds.
pub data Verb : Type 0 where
  get post : Verb

pub record Request : Type 0 where
  pub verb : Verb
  pub url : Bytes
  pub params : List (Bytes × Bytes)
  pub timeout : ℕ

-- A body that is no dict, or a dict by its "data" and its "code".
pub data Body {ℓ} (D : Type ℓ) : Type ℓ where
  no_dict : Body D
  dict : Option D → Option Json → Body D

-- What a call gives, or the exception it raises.
pub data Result {ℓ} (A : Type ℓ) : Type ℓ where
  gives : A → Result A
  fails : Failure → Result A

module _ {ℓ} {D : Type ℓ} where
  -- `none` is `None`, also for a code that is no number.
  abbrev pub cloud_error_code : Body D → Option ℤ
  cloud_error_code no_dict = none
  cloud_error_code (dict (some _) code) = none
  cloud_error_code (dict none none) = none
  cloud_error_code (dict none (some code)) = int_of code

  -- `body["data"]`, which raises a `KeyError` or a `TypeError` where there is none.
  abbrev pub data_in : Body D → Result D
  data_in (dict (some d) code) = gives d
  data_in _ = fails other_error

  -- `_data`
  unfoldable pub data_of : Body D → Result D
  unfolding int_text
  data_of body = elim (cloud_error_code body) [
    | some code ↦ fails (cloud_error code)
    | none ↦ data_in body
  ]

  -- `_data(…)` of what `_get` returns, or the exception of `_get`.
  abbrev pub data_from : Result (Body D) → Result D
  data_from (fails e) = fails e
  data_from (gives body) = data_of body

-- `GPS555.__init__`: the base URL.
abbrev pub base_of : Bytes → Bytes
base_of url = rstrip_slash url

abbrev pub base_url : Bytes
base_url = ascii "https://ipc.gps555.net/api"

-- `_make_api`: the base of the client.
unfoldable pub make_api : Bytes → Bytes
make_api url = if bytes_eq url base_url then base_of base_url else base_of url

-- `_get`: the request of a call.
abbrev pub get_request : Bytes → Bytes → ℕ → List (Bytes × Bytes) → Request
get_request base path timeout params = record {
  verb = get;
  url = base ++ path;
  params = params;
  timeout = timeout;
}

abbrev pub app_id : Bytes
app_id = ascii "b1ee47e92dfa22635907aa6bb882b1dc0ebc0285"

unfoldable pub list_request : Bytes → ℤ → Request
unfolding str
list_request base user_id =
    get_request base (ascii "/v1/ipc") 10 ((ascii "terminalFamilyId", str user_id) ∷ [])

unfoldable pub send_stun_addr_request : Bytes → Bytes → Bytes → ℤ → Request
unfolding str
send_stun_addr_request base uid ip port = get_request base (ascii "/v1/ipc/send-stun-addr") 5 (
    (ascii "appId", app_id)
    ∷ (ascii "uid", uid)
    ∷ (ascii "publicIp", ip)
    ∷ (ascii "publicPort", str port)
    ∷ (ascii "privateIp", ip)
    ∷ (ascii "privatePort", str port)
    ∷ [])

abbrev pub get_stun_addr_request : Bytes → Bytes → Request
get_stun_addr_request base uid = get_request base (ascii "/v1/ipc/stun-addr/" ++ uid) 10 []

unfoldable pub notify_request : Bytes → Bytes → ℤ → Request
unfolding str
notify_request base uid event_type =
    get_request base (ascii "/v1/ipc/notify-live-event") 3
      ((ascii "appId", app_id) ∷ (ascii "eventType", str event_type) ∷ (ascii "uid", uid) ∷ [])

-- The list in the data; `none` is an exception of `["list"]`.
abbrev pub rows_in : Result (Option (List Row)) → Answer
rows_in (fails e) = raises e
rows_in (gives (some rows)) = rows_of rows
rows_in (gives none) = raises other_error

-- `list_cameras`, with what the cloud says.
unfoldable pub list_cameras : Result (Body (Option (List Row))) → Answer
unfolding data_of
list_cameras reply = rows_in (data_from reply)

-- The values of `CAMERA_CMD`.
abbrev pub camera_cmd : ℕ → Bool
camera_cmd n = not (n == 0 || (n == 24 || ltb 25 n))

abbrev pub is_command : ℕ → Bytes → Bool
is_command zero cmd = false
is_command (suc n) cmd =
    (camera_cmd (suc n) && bytes_eq cmd (str (pos (suc n)))) || is_command n cmd

abbrev pub cmd_request : Bytes → Bytes → Bytes → Request
cmd_request base uid cmd_type = record {
  verb = post;
  url = base ++ ascii "/v1/cmd/send-cmd";
  params = (ascii "cmdType", cmd_type) ∷ (ascii "uid", uid) ∷ [];
  timeout = 10;
}

-- `send_cmd`: the request, or its `ValueError`. What the cloud says is returned as it is.
unfoldable pub send_cmd : Bytes → Bytes → Bytes → Option Request
unfolding str
send_cmd base uid cmd_type =
    if is_command 25 cmd_type then some (cmd_request base uid cmd_type) else none

-- `jwt_user_id`, with the decoding of base64 and the "user_id" of a JSON text; `none` is an exception.
abbrev pub second : List Bytes → Option Bytes
second (header ∷ payload ∷ parts) = some payload
second _ = none

unfoldable pub jwt_user_id : (Bytes → Option Bytes) → (Bytes → Option Json) → Bytes → Option ℤ
unfolding split_dots int_text
jwt_user_id decode user_id_in token = second (split_dots [] token) >>= λ (payload : Bytes).
    decode (pad payload) >>= λ (claims : Bytes).
    user_id_in claims >>= λ (value : Json). int_of value
