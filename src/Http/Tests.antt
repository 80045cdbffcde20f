-- ===== src/Http/Tests.antt =====
-- Requests with and without the token, and a viewer that goes idle.
use ziot_rtp_bridge.Base.{◌≡◌, refl, true, none, some, List, [], ◌∷◌, ascii}
use ziot_rtp_bridge.Http.{do_get, unauthorized, video, health, Got, item, empty, pump, jpeg_part}
use ziot_rtp_bridge.Http.Stream.{read_stream, delivered, read_stream-pump}

without_token : do_get (some (ascii "t")) [] none (λ uid. true) (ascii "/cam/CAM1") ≡ unauthorized
unfolding do_get
without_token = refl

with_param :
    do_get (some (ascii "t")) [] (some (ascii "t")) (λ uid. true) (ascii "/cam/CAM1")
    ≡ video (ascii "CAM1")
unfolding do_get
with_param = refl

health_is_open : do_get (some (ascii "t")) [] none (λ uid. true) (ascii "/health/") ≡ health
unfolding do_get
health_is_open = refl

-- Two gaps are passed over, three end the stream.
abbrev gots : List Got
gots =
    item (1 ∷ 2 ∷ []) true
    ∷ empty
    ∷ empty
    ∷ item (3 ∷ []) true
    ∷ empty
    ∷ empty
    ∷ empty
    ∷ item [] true
    ∷ []

idle_cut : delivered gots ≡ (1 ∷ 2 ∷ []) ∷ (3 ∷ []) ∷ []
idle_cut = refl

read_stream-pump_example : read_stream (pump jpeg_part 0 gots).0 ≡ some (delivered gots)
read_stream-pump_example = read_stream-pump gots
