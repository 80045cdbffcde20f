-- ===== src/Http.antt =====
-- The HTTP server of ziot_rtp_bridge.py: `_authorized`, `do_GET`, `_health`, `_pump` and `_write_jpeg_part` of `make_handler`.
-- Texts are bytes. The path and the parameter `token` are what `urlsplit` and `parse_qs` make of the request.
pub mod Guard
pub mod Stream
mod Tests
use ziot_rtp_bridge.Base.{
  ℕ, ◌+◌, Bool, true, false, not, ◌&&◌, ◌||◌, Option, none, some, List, [], ◌∷◌, ◌++◌,
  if◌then◌else◌, ◌==◌, leb, Bytes, bytes_eq, length, drop, ascii, starts_with,
}
use ziot_rtp_bridge.Broker.Api.{digits_from}
use ziot_rtp_bridge.Camera.State.{Camera, is_streaming}

-- `path.strip("/")`
abbrev pub lstrip_slash : Bytes → Bytes
lstrip_slash [] = []
lstrip_slash (c ∷ cs) = if c == b'/' then lstrip_slash cs else c ∷ cs

abbrev pub rstrip_slash : Bytes → Bytes
rstrip_slash [] = []
rstrip_slash (c ∷ cs) = elim (rstrip_slash cs) [
  | [] ↦ if c == b'/' then [] else c ∷ []
  | d ∷ ds ↦ c ∷ d ∷ ds
]

abbrev pub is_param : Option Bytes → Bytes → Bool
is_param none token = false
is_param (some got) token = bytes_eq got token

-- `_authorized`, with the configured token, the header `Authorization`, and the parameter `token`.
unfoldable pub authorized : Option Bytes → Bytes → Option Bytes → Bool
authorized none header param = true
authorized (some token) header param =
    bytes_eq header (ascii "Bearer " ++ token) || is_param param token

-- What a request is answered with.
pub data Route : Type 0 where
  health unauthorized index not_found : Route
  view video audio : Bytes → Route

abbrev pub to_camera : (Bytes → Bool) → (Bytes → Route) → Bytes → Route
to_camera known fn uid = if known uid then fn uid else not_found

-- The route table.
abbrev pub dispatch : (Bytes → Bool) → Bytes → Route
dispatch known path =
    if starts_with (ascii "view/") path
    then to_camera known view (drop 5 path)
    else if starts_with (ascii "cam/") path
    then to_camera known video (drop 4 path)
    else if starts_with (ascii "audio/") path
    then to_camera known audio (drop 6 path)
    else not_found

-- `do_GET`, with the cameras that are served.
unfoldable pub do_get : Option Bytes → Bytes → Option Bytes → (Bytes → Bool) → Bytes → Route
unfolding authorized
do_get http_token header param known raw =
    let path = rstrip_slash (lstrip_slash raw) in
    if bytes_eq path (ascii "health")
    then health
    else if not (authorized http_token header param)
    then unauthorized
    else if bytes_eq path [] || bytes_eq path (ascii "cameras")
    then index
    else dispatch known path

-- `status` of `_health`: some camera streams.
unfoldable pub health_is_ok : ℕ → List Camera → Bool
health_is_ok now [] = false
health_is_ok now (c ∷ cs) = is_streaming now c || health_is_ok now cs

-- What the queue gives: nothing for ten seconds, or an item, and whether it could be written.
pub data Got : Type 0 where
  empty : Got
  item : Bytes → Bool → Got

-- The client was idle for too long, it is gone, or the stream goes on.
pub data Ending : Type 0 where
  idle_timeout gone goes_on : Ending

-- `_pump`, with the idle gaps so far: the bytes of the writes that succeeded, and the end.
unfoldable pub pump : (Bytes → Bytes) → ℕ → List Got → Bytes × Ending
pump write idle [] = ([], goes_on)
pump write idle (empty ∷ gots) =
    let later = pump write (idle + 1) gots in if leb 3 (idle + 1) then ([], idle_timeout) else later
pump write idle (item x false ∷ gots) = ([], gone)
pump write idle (item x true ∷ gots) =
    let (out, ending) = pump write 0 gots in (write x ++ out, ending)

-- `_write_jpeg_part`
unfoldable pub jpeg_part : Bytes → Bytes
jpeg_part frame =
    ascii "--frame\r\nContent-Type: image/jpeg\r\nContent-Length: "
    ++ (digits_from (length frame + 1) (length frame) []
        ++ (ascii "\r\n\r\n" ++ (frame ++ ascii "\r\n")))
