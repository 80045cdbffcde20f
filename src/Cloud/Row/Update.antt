-- ===== src/Cloud/Row/Update.antt =====
-- The relay's URLs of a camera whose firmware is updated.
use ziot_rtp_bridge.Base.{
  ◌≡◌, ◌⊎◌, inl, inr, true, false, Option, Bytes, bytes_eq, ascii, arith, Bool-cases,
}
use ziot_rtp_bridge.Cloud.Row.{Row, text_of, pivot, takes_rtp, relay_urls}
use ziot_rtp_bridge.Cloud.Version.{version_lt}
use ziot_rtp_bridge.Cloud.Version.Order.{version_lt_trans}

takes_rtp_update :
    (row : Row) (version : Option Bytes)
    → version_lt (text_of row.version) (text_of version) ≡ true
    → takes_rtp (record row { version = version }) ≡ true
    → takes_rtp row ≡ true
unfolding takes_rtp
takes_rtp_update row version newer old_form =
    let before = version_lt_trans (text_of row.version) (text_of version) pivot newer in
    elim (Bool-cases (bytes_eq (text_of row.device_type) (ascii "X5"))) [
      | inl e ↦ ground arith
      | inr e ↦ ground arith
    ]

-- A firmware update to a newer version never takes a camera from the /live/ form of its first relay URL
-- back to the /rtp/ form: the two rows have the same URLs, or the update moves /live/ to the front.
pub relay_urls_update :
    (row : Row) (version : Option Bytes)
    → version_lt (text_of row.version) (text_of version) ≡ true
    → (relay_urls (record row { version = version }) ≡ relay_urls row)
      ⊎ ((takes_rtp row ≡ true) × (takes_rtp (record row { version = version }) ≡ false))
unfolding relay_urls
relay_urls_update row version newer = let back = takes_rtp_update row version newer in ground arith
