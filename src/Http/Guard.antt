-- ===== src/Http/Guard.antt =====
-- Who sees what.
use ziot_rtp_bridge.Base.{◌≡◌, ◌⊎◌, Bool, true, Option, none, some, ◌++◌, Bytes, ascii}
use ziot_rtp_bridge.Http.{
  Route, health, unauthorized, index, not_found, view, video, audio, lstrip_slash, rstrip_slash,
}

-- The request carries the token, if one is configured.
abbrev pub Carries : Option Bytes → Bytes → Option Bytes → Type 0
Carries none header param = Unit
Carries (some token) header param = (header ≡ ascii "Bearer " ++ token) ⊎ (param ≡ some token)

-- The request is for /health.
abbrev pub AsksHealth : Bytes → Type 0
AsksHealth raw = rstrip_slash (lstrip_slash raw) ≡ ascii "health"

-- What an answer may be, for a request that asks for /health or not and carries the token or not.
abbrev pub IsAllowed : (Bytes → Bool) → Type 0 → Type 0 → Route → Type 0
IsAllowed known asks carries health = asks
IsAllowed known asks carries unauthorized = Unit
IsAllowed known asks carries index = carries
IsAllowed known asks carries not_found = carries
IsAllowed known asks carries (view uid) = carries × (known uid ≡ true)
IsAllowed known asks carries (video uid) = carries × (known uid ≡ true)
IsAllowed known asks carries (audio uid) = carries × (known uid ≡ true)
