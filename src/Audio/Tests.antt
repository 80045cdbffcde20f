-- ===== src/Audio/Tests.antt =====
-- Concrete samples for the theorems on audio.
use ziot_rtp_bridge.Audio.{ulaw_sample, ulaw_to_pcm16}
use ziot_rtp_bridge.Base.{◌≡◌, refl, [], ◌∷◌}

-- 0xff is silence, 0x80 the largest sample.
silence : ulaw_to_pcm16 (0xff ∷ 0x80 ∷ []) ≡ 0 ∷ 0 ∷ 0x7c ∷ 0x7d ∷ []
unfolding ulaw_to_pcm16 ulaw_sample
silence = refl
