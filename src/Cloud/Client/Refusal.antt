-- ===== src/Cloud/Client/Refusal.antt =====
-- Which answers of the cloud's server the poller takes for a list, and which for a refused token.
use ziot_rtp_bridge.Base.{
  ℕ, ◌+◌, ◌≡◌, refl, ap, ap₂, ◌∙◌, Bool, true, false, not, ◌&&◌, ◌||◌, Option, none, some, List, [],
  ◌∷◌, if◌then◌else◌, ◌==◌, Bytes,
}
use ziot_rtp_bridge.Base.Int.{ℤ, pos, negsuc}
use ziot_rtp_bridge.Broker.Token.{Crypto, pad, b64, split_dots, joined, mint_local_token}
use ziot_rtp_bridge.Broker.Token.Signed.{IsLawful, b64-IsDotless, decode-b64, split_dots-three}
use ziot_rtp_bridge.Camera.State.{Camera}
use ziot_rtp_bridge.Cloud.Client.{
  Body, no_dict, dict, Result, gives, fails, list_cameras, rows_in, jwt_user_id,
}
use ziot_rtp_bridge.Cloud.Number.{Json, int_of}
use ziot_rtp_bridge.Cloud.Row.{Row}
use ziot_rtp_bridge.Poller.{
  cloud_error, other_error, is_auth_failure, failed_phase, ready, BootState, set_boot, CloudState,
  poll, Answer, rows_of, raises, Tick, run,
}
use ziot_rtp_bridge.Poller.Account.{
  failures_since, refused_since, refused_by, boot_by, poll_boot, poll_refused, IsShown, polls,
  run_account,
}

-- What `_get` gives for the device list: the body, or the exception.
abbrev pub Listing : Type 0
Listing = Result (Body (Option (List Row)))

-- The body carries data with a list, whatever its code.
abbrev pub is_list : Listing → Bool
is_list (gives (dict (some (some rows)) code)) = true
is_list _ = false

abbrev pub is_refusal_code : Option ℤ → Bool
is_refusal_code (some (pos n)) = n == 401 || n == 403
is_refusal_code _ = false

-- The token is refused: in a body without data, by its code, or by an exception that says so.
abbrev pub is_refusal : Listing → Bool
is_refusal (gives (dict none (some code))) = is_refusal_code (int_of code)
is_refusal (fails e) = is_auth_failure e
is_refusal _ = false

-- What the polls since the last list say of the token, and how many there are, as the server's answers tell.
abbrev pub refused_on_wire : Bool → List (ℕ × Listing) → Bool
refused_on_wire b [] = b
refused_on_wire b ((now, reply) ∷ replies) =
    refused_on_wire (if is_list reply then false else (b || is_refusal reply)) replies

abbrev pub failures_on_wire : ℕ → List (ℕ × Listing) → ℕ
failures_on_wire n [] = n
failures_on_wire n ((now, reply) ∷ replies) =
    failures_on_wire (if is_list reply then 0 else n + 1) replies

-- `poll` calls `list_cameras` and takes its answer.
abbrev pub answers_of : List (ℕ × Listing) → List (ℕ × Answer)
answers_of [] = []
answers_of ((now, reply) ∷ replies) = (now, list_cameras reply) ∷ answers_of replies

failed_by : ℕ → Answer → ℕ
failed_by n (raises e) = n + 1
failed_by n (rows_of rows) = 0

refused_by_reply :
    (b : Bool) (reply : Listing)
    → refused_by b (list_cameras reply) ≡ (if is_list reply then false else (b || is_refusal reply))
unfolding list_cameras is_auth_failure
refused_by_reply b (fails e) = refl
refused_by_reply b (gives no_dict) = refl
refused_by_reply b (gives (dict (some (some rows)) code)) = refl
refused_by_reply b (gives (dict (some none) code)) = refl
refused_by_reply b (gives (dict none none)) = refl
refused_by_reply b (gives (dict none (some code))) = of_code (int_of code)
  where
    of_code :
        (o : Option ℤ)
        → refused_by b
            (rows_in (elim o [ some code ↦ fails (cloud_error code) | none ↦ fails other_error ]))
          ≡ (b || is_refusal_code o)
    of_code none = refl
    of_code (some (pos n)) = refl
    of_code (some (negsuc n)) = refl

failed_by_reply :
    (n : ℕ) (reply : Listing)
    → failed_by n (list_cameras reply) ≡ (if is_list reply then 0 else n + 1)
unfolding failed_by list_cameras
failed_by_reply n (fails e) = refl
failed_by_reply n (gives no_dict) = refl
failed_by_reply n (gives (dict (some (some rows)) code)) = refl
failed_by_reply n (gives (dict (some none) code)) = refl
failed_by_reply n (gives (dict none none)) = refl
failed_by_reply n (gives (dict none (some code))) = of_code (int_of code)
  where
    of_code :
        (o : Option ℤ)
        → failed_by n
            (rows_in (elim o [ some code ↦ fails (cloud_error code) | none ↦ fails other_error ]))
          ≡ n + 1
    of_code none = refl
    of_code (some z) = refl

refused_step :
    (b : Bool) (now : ℕ) (a : Answer) (answers : List (ℕ × Answer))
    → refused_since b ((now, a) ∷ answers) ≡ refused_since (refused_by b a) answers
refused_step b now (raises e) answers = refl
refused_step b now (rows_of rows) answers = refl

failed_step :
    (n now : ℕ) (a : Answer) (answers : List (ℕ × Answer))
    → failures_since n ((now, a) ∷ answers) ≡ failures_since (failed_by n a) answers
unfolding failed_by
failed_step n now (raises e) answers = refl
failed_step n now (rows_of rows) answers = refl

refused_since-wire :
    (b : Bool) (replies : List (ℕ × Listing))
    → refused_since b (answers_of replies) ≡ refused_on_wire b replies
refused_since-wire b [] = refl
refused_since-wire b ((now, reply) ∷ replies) =
    refused_step b now (list_cameras reply) (answers_of replies)
    ∙ ap (λ c. refused_since c (answers_of replies)) (refused_by_reply b reply)
    ∙ refused_since-wire (if is_list reply then false else (b || is_refusal reply)) replies

failures_since-wire :
    (n : ℕ) (replies : List (ℕ × Listing))
    → failures_since n (answers_of replies) ≡ failures_on_wire n replies
failures_since-wire n [] = refl
failures_since-wire n ((now, reply) ∷ replies) =
    failed_step n now (list_cameras reply) (answers_of replies)
    ∙ ap (λ m. failures_since m (answers_of replies)) (failed_by_reply n reply)
    ∙ failures_since-wire (if is_list reply then 0 else n + 1) replies

-- A poll of a run, by what the server answers.
pub record Poll : Type 0 where
  pub now : ℕ
  pub reply : Listing
  pub others : List (Bytes × Camera) → List (Bytes × Camera)
  pub after : ℕ

abbrev pub ticks_of : List Poll → List Tick
ticks_of [] = []
ticks_of (p ∷ ps) =
    record { now = p.now; answer = list_cameras p.reply; others = p.others; after = p.after }
    ∷ ticks_of ps

abbrev pub wires_of : List Poll → List (ℕ × Listing)
wires_of [] = []
wires_of (p ∷ ps) = (p.now, p.reply) ∷ wires_of ps

polls-ticks_of : (ps : List Poll) → polls (ticks_of ps) ≡ answers_of (wires_of ps)
polls-ticks_of [] = refl
polls-ticks_of (p ∷ ps) = ap ((p.now, list_cameras p.reply) ∷◌) (polls-ticks_of ps)

-- The boot state that the answers leave: the first refusal since the last list shows as a failure with a
-- detail, the first list behind a refusal as ready, and no other answer changes it.
abbrev pub boot_on_reply : Bool → Listing → Option BootState → Option BootState
boot_on_reply b reply o =
    if is_list reply
    then if b then set_boot ready false o else o
    else if is_refusal reply && not b
    then set_boot failed_phase true o
    else o

abbrev pub boot_on_wire : Bool → Option BootState → List (ℕ × Listing) → Option BootState
boot_on_wire b o [] = o
boot_on_wire b o ((now, reply) ∷ replies) =
    boot_on_wire (if is_list reply then false else (b || is_refusal reply))
      (boot_on_reply b reply o) replies

boot_by_reply :
    (b : Bool) (reply : Listing) (o : Option BootState)
    → boot_by b (list_cameras reply) o ≡ boot_on_reply b reply o
unfolding list_cameras is_auth_failure
boot_by_reply b (fails e) o = refl
boot_by_reply b (gives no_dict) o = refl
boot_by_reply b (gives (dict (some (some rows)) code)) o = refl
boot_by_reply b (gives (dict (some none) code)) o = refl
boot_by_reply b (gives (dict none none)) o = refl
boot_by_reply b (gives (dict none (some code))) o = of_code (int_of code)
  where
    of_code :
        (c : Option ℤ)
        → boot_by b
            (rows_in (elim c [ some code ↦ fails (cloud_error code) | none ↦ fails other_error ]))
            o
          ≡ (if is_refusal_code c && not b then set_boot failed_phase true o else o)
    of_code none = refl
    of_code (some (pos n)) = refl
    of_code (some (negsuc n)) = refl

run_boot :
    (ps : List Poll) (s : CloudState)
    → (run (ticks_of ps) s).0.boot ≡ boot_on_wire s.auth_failed s.boot (wires_of ps)
unfolding run
run_boot [] s = refl
run_boot (p ∷ ps) s =
    let a = list_cameras p.reply in
    let s' = record (poll p.now a s) { cams = p.others (poll p.now a s).cams } in
    run_boot ps s'
    ∙ ap₂ (λ b o. boot_on_wire b o (wires_of ps))
        (poll_refused p.now a s ∙ refused_by_reply s.auth_failed p.reply)
        (poll_boot p.now a s ∙ boot_by_reply s.auth_failed p.reply s.boot)

-- What /health says after a run of the poller is what the server's answers say, whatever other threads do to
-- the cameras: an answer with data and a list in it is a success, whatever its code. Since the last one of
-- these, the failures are counted, and the token is refused if one of them was an HTTP status 401 or 403 or a
-- body without data whose code, a number or a text, is 401 or 403. The boot state is set to failed, with a
-- detail, by the first refusal since the last success, set to ready by the first success behind a refusal,
-- and else as it was; where a refused token was shown as failed before, it is shown so afterwards.
pub run_on_wire :
    (ps : List Poll) (s : CloudState)
    → IsShown s
    → ((run (ticks_of ps) s).0.fails ≡ failures_on_wire s.fails (wires_of ps))
      × ((run (ticks_of ps) s).0.auth_failed ≡ refused_on_wire s.auth_failed (wires_of ps))
      × ((run (ticks_of ps) s).0.boot ≡ boot_on_wire s.auth_failed s.boot (wires_of ps))
      × IsShown (run (ticks_of ps) s).0
run_on_wire ps s shown =
    let (fails', refused', shown') = run_account (ticks_of ps) s shown in
    (
      fails'
          ∙ ap (failures_since s.fails) (polls-ticks_of ps)
          ∙ failures_since-wire s.fails (wires_of ps),
      refused'
          ∙ ap (refused_since s.auth_failed) (polls-ticks_of ps)
          ∙ refused_since-wire s.auth_failed (wires_of ps),
      run_boot ps s,
      shown',
    )

user_id_of_parts :
    (decode : Bytes → Option Bytes) (user_id_in : Bytes → Option Json)
    (header payload claims : Bytes) (parts : List Bytes) (value : Json) (token : Bytes)
    → split_dots [] token ≡ header ∷ payload ∷ parts
    → decode (pad payload) ≡ some claims
    → user_id_in claims ≡ some value
    → jwt_user_id decode user_id_in token ≡ int_of value
unfolding jwt_user_id
user_id_of_parts decode user_id_in header payload claims parts value token s d u = rw (s, d, u) refl

-- From a token that the broker has minted the bridge reads the user id of its claims, with a base64 and JSON
-- that read back what they have written.
pub jwt_user_id-mint_local_token :
    (k : Crypto) (user_id_in : Bytes → Option Json) (now ttl : ℕ) (value : Json)
    → IsLawful k
    → user_id_in (k.claims now (now + ttl)) ≡ some value
    → jwt_user_id k.decode user_id_in (mint_local_token k now ttl) ≡ int_of value
unfolding mint_local_token
jwt_user_id-mint_local_token k user_id_in now ttl value l named =
    let header = b64 k k.header in
    let claims = k.claims now (now + ttl) in
    let payload = b64 k claims in
    let signature = k.sign (joined header payload) in
    user_id_of_parts k.decode user_id_in header payload claims (b64 k signature ∷ []) value
      (mint_local_token k now ttl)
      (split_dots-three header payload (b64 k signature) (b64-IsDotless k l k.header)
        (b64-IsDotless k l claims) (b64-IsDotless k l signature))
      (decode-b64 k l claims) named
