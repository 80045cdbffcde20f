-- ===== src/Signalling/Split/Reads.antt =====
-- The signalling branch of `StreamHandler.handle` of ziot_fake_cloud.py: the tail of one read stands in
-- front of the next.
use ziot_rtp_bridge.Base.{
  ◌<◌, ◌≡◌, ◌⊎◌, inl, inr, refl, sym, ap, ◌∙◌, Bool, false, List, [], ◌∷◌, ◌++◌, arith,
  if◌then◌else◌, Bytes, length, length-append, none, append_assoc, append-nil, bytes_eq, ascii,
  starts_with, words_from, before, ◌&&◌, ◌||◌,
}
use ziot_rtp_bridge.Signalling.Frame.{IsFrame}
use ziot_rtp_bridge.Signalling.Split.{split_signalling}
use ziot_rtp_bridge.Signalling.Split.Complete.{split_signalling-frame}
use ziot_rtp_bridge.Signalling.Split.Request.{
  blank_line, closes, blank_line-append, closes-blank_line,
}
use ziot_rtp_bridge.Signalling.Split.Rounds.{split_signalling_nil}
use ziot_rtp_bridge.Signalling.Split.Straddle.{IsMagicFree, tail, split_signalling-part}

-- What `_looks_http` asks of the words of the first line.
abbrev is_request_line : List Bytes → Bool
is_request_line (method ∷ target ∷ version ∷ more) =
    (bytes_eq method (ascii "GET")
      || bytes_eq method (ascii "POST")
      || bytes_eq method (ascii "HEAD")
      || bytes_eq method (ascii "OPTIONS")
      || bytes_eq method (ascii "PUT")
      || bytes_eq method (ascii "DELETE"))
    && starts_with (ascii "/") target
    && starts_with (ascii "HTTP/") version
is_request_line _ = false

unfoldable pub looks_http : Bytes → Bool
unfolding words_from before
looks_http head = is_request_line (words_from [] (before (ascii "\r\n") head))

-- What one read makes of `sig_buf`: the frames that are answered, in order, and the tail.
abbrev pub handle_read : Bytes → Bytes → List Bytes × Bytes
handle_read sig_buf chunk =
    let frames = split_signalling (sig_buf ++ chunk) in
    if looks_http chunk then ([], sig_buf) else frames

-- The loop over the reads, with `buf` and `sig_buf`: the frames that are answered, and the last tail.
unfoldable pub handle_reads : Bytes → Bytes → List Bytes → List Bytes × Bytes
handle_reads buf sig_buf [] = ([], sig_buf)
handle_reads buf sig_buf (chunk ∷ reads) =
    let (frames, sig_buf') = handle_read sig_buf chunk in
    let (later, end) = handle_reads (buf ++ chunk) sig_buf' reads in
    if closes (buf ++ chunk) then (frames, sig_buf') else (frames ++ later, end)

-- No read looks like an HTTP request.
abbrev pub AreBinary : List Bytes → Type 0
AreBinary [] = Unit
AreBinary (c ∷ cs) = (looks_http c ≡ false) × AreBinary cs

abbrev pub joined : List Bytes → Bytes
joined [] = []
joined (f ∷ fs) = f ++ joined fs

-- Valid frames, none of which has 86 86 behind its own.
abbrev pub AreFrames : List Bytes → Type 0
AreFrames [] = Unit
AreFrames (f ∷ fs) = IsFrame f × IsMagicFree (tail f) × AreFrames fs

-- A prefix of joined frames is some whole frames and the first part of the next.
record Prefix (x y : Bytes) (fs : List Bytes) : Type 0 where
  whole : List Bytes
  ahead : List Bytes
  part : Bytes
  left : Bytes
  frames_split : fs ≡ whole ++ ahead
  read_split : x ≡ joined whole ++ part
  rest_split : part ++ y ≡ joined ahead
  starts :
      (part ≡ [])
      ⊎ ((f : Bytes) × (later : List Bytes) × (ahead ≡ f ∷ later)
          × (part ++ left ≡ f)
          × (0 < length left))

Prefix-cons : (f x y : Bytes) (fs : List Bytes) → Prefix x y fs → Prefix (f ++ x) y (f ∷ fs)
Prefix-cons f x y fs p = record {
  whole = f ∷ p.whole;
  ahead = p.ahead;
  part = p.part;
  left = p.left;
  frames_split = ap (◌∷◌ f) p.frames_split;
  read_split = ap (◌++◌ f) p.read_split ∙ sym (append_assoc f (joined p.whole) p.part);
  rest_split = p.rest_split;
  starts = p.starts;
}

-- Two ways to cut one list: one first part is a prefix of the other.
append_cases :
    (a b c d : Bytes)
    → a ++ b ≡ c ++ d
    → ((m : Bytes) × (a ≡ c ++ m) × (d ≡ m ++ b))
      ⊎ ((m : Bytes) × (c ≡ a ++ m) × (b ≡ m ++ d) × (0 < length m))
append_cases a b [] d e = inl (a, refl, sym e)
append_cases [] b (y ∷ c) d e = inr (y ∷ c, refl, e, omega arith)
append_cases (x ∷ a) b (y ∷ c) d e = elim (append_cases a b c d cc) [
  | inl (m, p, q) ↦ inl (m, cc, q)
  | inr (m, p, q, l) ↦ inr (m, cc, q, l)
]

Prefix-joined : (fs : List Bytes) (x y : Bytes) → x ++ y ≡ joined fs → Prefix x y fs
Prefix-joined [] [] y e = record {
  whole = [];
  ahead = [];
  part = [];
  left = [];
  frames_split = refl;
  read_split = refl;
  rest_split = e;
  starts = inl refl;
}
Prefix-joined [] (b ∷ x) y e = cc
Prefix-joined (f ∷ fs) x y e = elim (append_cases x y f (joined fs) e) [
  | inl (m, p, q) ↦ rw p (Prefix-cons f m y fs (Prefix-joined fs m y (sym q)))
  | inr (m, p, q, l) ↦ record {
    whole = [];
    ahead = f ∷ fs;
    part = x;
    left = m;
    frames_split = refl;
    read_split = refl;
    rest_split = e;
    starts = inr (f, fs, refl, sym p, l);
  }
]

AreFrames-append : (fs gs : List Bytes) → AreFrames (fs ++ gs) → AreFrames fs × AreFrames gs
AreFrames-append [] gs h = (tt, h)
AreFrames-append (f ∷ fs) gs h = let (a, b) = AreFrames-append fs gs h.2 in ((h.0, h.1, a), b)

IsMagicFree-append : (p q : Bytes) → IsMagicFree (p ++ q) → IsMagicFree p
IsMagicFree-append [] q h = tt
IsMagicFree-append (a ∷ []) q h = (refl, tt)
IsMagicFree-append (a ∷ b ∷ p) q h = (h.0, IsMagicFree-append (b ∷ p) q h.1)

IsMagicFree-tail : (p q : Bytes) → IsMagicFree (tail (p ++ q)) → IsMagicFree (tail p)
IsMagicFree-tail [] q h = tt
IsMagicFree-tail (a ∷ p) q h = IsMagicFree-append p q h

-- What waits in `sig_buf`: nothing, or the first part of the next frame.
abbrev Waits : Bytes → List Bytes → Bytes → Type 0
Waits part ahead left =
    (part ≡ [])
    ⊎ ((f : Bytes) × (later : List Bytes) × (ahead ≡ f ∷ later)
        × (part ++ left ≡ f)
        × (0 < length left))

split_signalling-Waits :
    (part left : Bytes) (ahead : List Bytes)
    → AreFrames ahead
    → Waits part ahead left
    → split_signalling part ≡ ([], part)
split_signalling-Waits part left ahead v (inl e) = rw e split_signalling_nil
split_signalling-Waits part left ahead v (inr (f, later, ea, ef, pos)) =
    let u : AreFrames (f ∷ later) = rw ea at v in
    split_signalling-part part left (rw ef u.0) pos (IsMagicFree-tail part left (rw ef u.1))

split_signalling-joined :
    (fs : List Bytes) (part : Bytes)
    → AreFrames fs
    → split_signalling part ≡ ([], part)
    → split_signalling (joined fs ++ part) ≡ (fs, part)
split_signalling-joined [] part v h = h
split_signalling-joined (f ∷ fs) part v h =
    rw append_assoc (
      split_signalling-frame f (joined fs ++ part) v.0 ∙ rw (split_signalling-joined fs part v.2 h))

-- A stream that ends leaves nothing of the frames waiting.
joined_end :
    (part left : Bytes) (fs : List Bytes)
    → AreFrames fs
    → Waits part fs left
    → part ≡ joined fs
    → (fs ≡ []) × (part ≡ [])
joined_end part left [] v w e = (refl, e)
joined_end part left (f ∷ fs) v (inl p) e =
    absurd (omega (arith, ap length p, ap length e, v.0.size, length-append f (joined fs)))
joined_end part left (f ∷ fs) v (inr (g, later, ea, ef, pos)) e =
    let same : f ≡ g = cc in
    absurd (
      omega (
        arith,
        ap length e,
        ap length same,
        ap length ef,
        length-append part left,
        length-append f (joined fs),
      ))

handle_reads-Waits :
    (reads : List Bytes) (buf part left : Bytes) (fs : List Bytes)
    → AreFrames fs
    → AreBinary reads
    → blank_line (buf ++ joined reads) ≡ none
    → Waits part fs left
    → part ++ joined reads ≡ joined fs
    → handle_reads buf part reads ≡ (fs, [])
unfolding handle_reads
handle_reads-Waits [] buf part left fs v bin one_line w e =
    let (p, q) = joined_end part left fs v w (rw append-nil at e) in cc
handle_reads-Waits (c ∷ reads) buf part left fs v bin one_line w e =
    let p = Prefix-joined fs (part ++ c) (joined reads) (append_assoc part c (joined reads) ∙ e) in
    let (vw, va) = AreFrames-append p.whole p.ahead (rw p.frames_split at v) in
    let cut : split_signalling (part ++ c) ≡ (p.whole, p.part) = rw p.read_split (
      split_signalling-joined p.whole p.part vw
        (split_signalling-Waits p.part p.left p.ahead va p.starts)) in
    let still : blank_line ((buf ++ c) ++ joined reads) ≡ none =
      ap blank_line (append_assoc buf c (joined reads)) ∙ one_line in
    let on : closes (buf ++ c) ≡ false =
      closes-blank_line (buf ++ c) (blank_line-append (buf ++ c) (joined reads) still) in
    let rest : handle_reads (buf ++ c) p.part reads ≡ (p.ahead, []) =
      handle_reads-Waits reads (buf ++ c) p.part p.left p.ahead va bin.1 still p.starts
        p.rest_split in
    rw (bin.0, cut, on, rest) (cc p.frames_split)

-- However the stream is cut into reads, exactly its frames are answered, in order, and nothing is
-- left over. The frames are valid and hold no second 86 86, no read looks like an HTTP request, and
-- 0D 0A 0D 0A stands nowhere in the stream.
pub handle_reads-joined :
    (reads fs : List Bytes)
    → AreFrames fs
    → AreBinary reads
    → blank_line (joined fs) ≡ none
    → joined reads ≡ joined fs
    → handle_reads [] [] reads ≡ (fs, [])
handle_reads-joined reads fs v bin one_line e =
    handle_reads-Waits reads [] [] [] fs v bin (ap blank_line e ∙ one_line) (inl refl) e
