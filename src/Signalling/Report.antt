-- ===== src/Signalling/Report.antt =====
-- `parse_status_report` and `parse_local_addr_report` of ziot_fake_cloud.py. Texts are their bytes.
pub mod Entries
use ziot_rtp_bridge.Base.{
  ℕ, zero, suc, ◌+◌, Option, none, some, List, [], ◌∷◌, if◌then◌else◌, ltb, leb, Bytes, byte_at,
  be16_at, length, take, drop,
}
use ziot_rtp_bridge.Base.Dict.{Dict, insert}
use ziot_rtp_bridge.Signalling.Decode.{rstrip_nul}

-- The loop over the entries, of which `count` are left, with the ones that are read.
unfoldable pub read_entries : ℕ → Bytes → Dict ℕ → Dict ℕ
read_entries zero rest out = out
read_entries (suc count) rest out =
    let later = read_entries count (drop 4 rest) (insert (byte_at rest 1) (byte_at rest 3) out) in
    if ltb (length rest) 4 then out else later

unfoldable pub parse_status_report : Bytes → Dict ℕ
unfolding read_entries
parse_status_report [] = []
parse_status_report (count ∷ rest) = read_entries count rest []

pub record LocalAddr : Type 0 where
  pub public_ip : Bytes
  pub local_ip : Bytes
  pub public_port : ℕ
  pub local_port : ℕ
  pub seq_no : Option ℕ

-- `none` is the empty dictionary.
unfoldable pub parse_local_addr_report : Bytes → Option LocalAddr
parse_local_addr_report body =
    if ltb (length body) 44
    then none
    else some (record {
      public_ip = rstrip_nul (take 20 body);
      local_ip = rstrip_nul (take 20 (drop 22 body));
      public_port = be16_at body 20;
      local_port = be16_at body 42;
      seq_no = if leb 46 (length body) then some (be16_at body 44) else none;
    })
