-- ===== src/RelayClient/Auth.antt =====
-- `RelayStream._auth_header` of ziot_rtp_bridge.py. The hexadecimal MD5 digest and the base64 encoding of a text are
-- arguments.
use ziot_rtp_bridge.Base.{
  ℕ, zero, suc, Bool, false, ◌&&◌, ◌||◌, Option, none, some, [], ◌∷◌, ◌++◌, if◌then◌else◌, ◌==◌,
  leb, Bytes, bytes_eq, length, drop, ascii, starts_with, before,
}
use ziot_rtp_bridge.RelayClient.Sdp.{word, lower}
use ziot_rtp_bridge.Cloud.Row.{lstrip}

-- `\w`
abbrev pub is_word : ℕ → Bool
is_word c =
    (leb b'0' c && leb c b'9')
    || ((leb b'a' c && leb c b'z') || ((leb b'A' c && leb c b'Z') || c == b'_'))

abbrev pub word_chars : Bytes → Bytes
word_chars [] = []
word_chars (c ∷ cs) = if is_word c then c ∷ word_chars cs else []

abbrev pub has_quote : Bytes → Bool
has_quote [] = false
has_quote (c ∷ cs) = c == b'"' || has_quote cs

-- `dict(re.findall(r'(\w+)="([^"]*)"', s)).get(name)`, with what the matches so far give; each round takes a
-- byte at least, so the length is fuel enough.
unfoldable pub find_field : ℕ → Bytes → Bytes → Option Bytes → Option Bytes
find_field zero name s found = found
find_field (suc fuel) name [] found = found
find_field (suc fuel) name (c ∷ cs) found =
    let s = c ∷ cs in
    let w = word_chars s in
    let rest = drop (length w) s in
    let value = before (b'"' ∷ []) (drop 2 rest) in
    let behind = drop (length value) (drop 3 rest) in
    let matched = find_field fuel name behind (if bytes_eq w name then some value else found) in
    let past_word = find_field fuel name rest found in
    let past_char = find_field fuel name cs found in
    if bytes_eq w []
    then past_char
    else if starts_with (ascii "=\"") rest && has_quote (drop 2 rest)
    then matched
    else past_word

abbrev pub text_of : Option Bytes → Bytes
text_of none = []
text_of (some s) = s

-- `fields.get(name, "")`
unfoldable pub field : Bytes → Bytes → Bytes
unfolding find_field
field name s = text_of (find_field (length s) name s none)

module _ (md5 base64 : Bytes → Bytes) where
  abbrev pub colon : Bytes → Bytes → Bytes
  colon a b = a ++ (b':' ∷ b)

  -- `none` is the exception for a scheme that is not supported, or for an empty challenge.
  unfoldable pub auth_header : Bytes → Bytes → Bytes → Bytes → Bytes → Option Bytes
  unfolding field
  auth_header user pw method uri challenge =
      let scheme = lower (word (lstrip challenge)) in
      let realm = field (ascii "realm") challenge in
      let nonce = field (ascii "nonce") challenge in
      let ha1 = md5 (colon user (colon realm pw)) in
      let ha2 = md5 (colon method uri) in
      let response = md5 (colon ha1 (colon nonce ha2)) in
      if bytes_eq scheme (ascii "basic")
      then some (ascii "Basic " ++ base64 (colon user pw))
      else if bytes_eq scheme (ascii "digest")
      then some (
          ascii "Digest username=\""
          ++ (user
              ++ (ascii "\", realm=\""
                  ++ (realm
                      ++ (ascii "\", nonce=\""
                          ++ (nonce
                              ++ (ascii "\", uri=\""
                                  ++ (uri
                                      ++ (ascii "\", response=\""
                                          ++ (response ++ ascii "\""))))))))))
      else none
