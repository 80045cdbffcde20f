-- ===== src/Fanout/Tests.antt =====
-- A concrete fanout.
use ziot_rtp_bridge.Base.{ℕ, [], ◌∷◌}
use ziot_rtp_bridge.Fanout.{Fanout}

abbrev two_deep : Fanout ℕ
two_deep = record { subs = (4, 1 ∷ []) ∷ []; maxsize = 2 }
