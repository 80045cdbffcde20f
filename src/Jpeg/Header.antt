-- ===== src/Jpeg/Header.antt =====
-- `_dht` and `build_jpeg_header` of ziot_rtp_bridge.py. The lengths and the four u16 arguments, which
-- come from packet bytes, fit two bytes, so `struct.pack` does not raise.
pub mod Walk
use ziot_rtp_bridge.Base.{
  ℕ, ◌+◌, ◌%◌, Bytes, [], ◌∷◌, ◌++◌, ◌==◌, if◌then◌else◌, be16, length, take, drop,
}
use ziot_rtp_bridge.Jpeg.Tables.{
  dc_sy, lum_dc_cl, chm_dc_cl, lum_ac_cl, lum_ac_sy, chm_ac_cl, chm_ac_sy,
}

-- A Huffman table segment.
unfoldable pub dht : ℕ → Bytes → Bytes → Bytes
dht class_id codelens symbols =
    0xff ∷ 0xc4 ∷ (be16 (3 + 16 + length symbols) ++ class_id ∷ (codelens ++ symbols))

-- The two quantisation tables, `qtables[:64]` and `qtables[64:128]`.
unfoldable pub dqt : ℕ → Bytes → Bytes
dqt id table = 0xff ∷ 0xdb ∷ 0x00 ∷ 0x43 ∷ id ∷ table

-- The restart interval, if there is one.
unfoldable pub dri_segment : ℕ → Bytes
dri_segment dri = if dri == 0 then [] else 0xff ∷ 0xdd ∷ 0x00 ∷ 0x04 ∷ be16 dri

-- The frame header; `jtype & 0x3f` is the remainder by 64.
abbrev pub sof_body : ℕ → ℕ → ℕ → Bytes
sof_body width height jtype =
    let sampling = if jtype % 64 == 1 then 0x22 else 0x21 in
    0x08
    ∷ (be16 height
        ++ (be16 width
            ++ 0x03 ∷ 0x01 ∷ sampling ∷ 0x00 ∷ 0x02 ∷ 0x11 ∷ 0x01 ∷ 0x03 ∷ 0x11 ∷ 0x01 ∷ []))

unfoldable pub sof : ℕ → ℕ → ℕ → Bytes
sof width height jtype = 0xff ∷ 0xc0 ∷ 0x00 ∷ 0x11 ∷ sof_body width height jtype

abbrev pub sos : Bytes
sos =
    0xff ∷ 0xda ∷ 0x00 ∷ 0x0c ∷ 0x03 ∷ 0x01 ∷ 0x00 ∷ 0x02 ∷ 0x11 ∷ 0x03 ∷ 0x11 ∷ 0x00 ∷ 0x3f ∷ 0x00
    ∷ []

abbrev pub soi : Bytes
soi = 0xff ∷ 0xd8 ∷ []

unfoldable pub build_jpeg_header : ℕ → ℕ → Bytes → ℕ → ℕ → Bytes
build_jpeg_header width height qtables jtype dri =
    soi
    ++ (dqt 0 (take 64 qtables)
        ++ (dqt 1 (take 64 (drop 64 qtables))
            ++ (dri_segment dri
                ++ (sof width height jtype
                    ++ (dht 0x00 lum_dc_cl dc_sy
                        ++ (dht 0x10 lum_ac_cl lum_ac_sy
                            ++ (dht 0x01 chm_dc_cl dc_sy
                                ++ (dht 0x11 chm_ac_cl chm_ac_sy ++ sos))))))))
