-- ===== src/Ble/Att/Provision.antt =====
-- What `ble_provision` has done when it exits with 0.
use ziot_rtp_bridge.Base.{
  ℕ, zero, suc, ◌≡◌, refl, sym, ap, ◌∙◌, Bool, true, false, Option, some, List, [], ◌∷◌, ◌++◌,
  if◌then◌else◌, map, append_assoc, arith, Bytes, length, take_all, ◌>>=◌,
}
use ziot_rtp_bridge.Base.Int.{ℤ}
use ziot_rtp_bridge.Ble.{wifi_connect_frame, chunk20}
use ziot_rtp_bridge.Ble.Chunks.{written, chunk20_lem}
use ziot_rtp_bridge.Ble.Att.{
  Event, Outcome, connect_failed, link_failed, subscription_rejected, write_rejected, all_sent,
  att_attempt, tries, ble_provision,
}
use ziot_rtp_bridge.Ble.Att.Exchange.{write_pdu, plan, IsExchange, att_attempt-IsExchange}

-- The last PDUs that were sent are all those of the plan.
abbrev pub EndsWith : List Bytes → List Bytes → Type 0
EndsWith last sent = (earlier : List Bytes) × (sent ≡ earlier ++ last)

abbrev IfDone : List Bytes → List Bytes × Bool → Type 0
IfDone chunks (sent, false) = Unit
IfDone chunks (sent, true) = EndsWith (plan chunks) sent

length-map : (f : Bytes → Bytes) (xs : List Bytes) → length (map f xs) ≡ length xs
length-map f [] = refl
length-map f (x ∷ xs) = ap suc (length-map f xs)

abbrev next_try : List Bytes × Outcome → List Bytes × Bool → List Bytes × Bool
next_try r rest = elim r.1 [ all_sent _ ↦ (r.0, true) | _ ↦ (r.0 ++ rest.0, rest.1) ]

later-IfDone :
    (chunks sent : List Bytes) (rest : List Bytes × Bool)
    → IfDone chunks rest
    → IfDone chunks (sent ++ rest.0, rest.1)
later-IfDone chunks sent (more, false) h = tt
later-IfDone chunks sent (more, true) (earlier, h) =
    (sent ++ earlier, ap (sent ++◌) h ∙ sym (append_assoc sent earlier (plan chunks)))

next_try-IfDone :
    (chunks : List Bytes) (r : List Bytes × Outcome) (rest : List Bytes × Bool)
    → IsExchange chunks r
    → IfDone chunks rest
    → IfDone chunks (next_try r rest)
next_try-IfDone chunks (sent, connect_failed) rest e h = later-IfDone chunks sent rest h
next_try-IfDone chunks (sent, link_failed) rest e h = later-IfDone chunks sent rest h
next_try-IfDone chunks (sent, subscription_rejected) rest e h = later-IfDone chunks sent rest h
next_try-IfDone chunks (sent, write_rejected i) rest e h = later-IfDone chunks sent rest h
next_try-IfDone chunks (sent, all_sent reply) rest (k, e, n) h =
    let size = length-map write_pdu chunks in ([], e ∙ take_all k (plan chunks) (omega arith))

tries-IfDone :
    (n attempt : ℕ) (sockets : ℕ → Option (List Event)) (frame : Bytes)
    → IfDone (chunk20 frame) (tries n attempt sockets (chunk20 frame))
unfolding tries
tries-IfDone zero attempt sockets frame = tt
tries-IfDone (suc n) attempt sockets frame =
    next_try-IfDone (chunk20 frame) (att_attempt (sockets attempt) (chunk20 frame))
      (tries n (suc attempt) sockets (chunk20 frame))
      (att_attempt-IsExchange (sockets attempt) frame).0
      (tries-IfDone n (suc attempt) sockets frame)

exit_of : List Bytes × Bool → List Bytes × ℕ
exit_of (sent, ok) = (sent, (if ok then 0 else 1))

done_at_zero :
    (chunks sent : List Bytes) (r : List Bytes × Bool)
    → IfDone chunks r
    → some (exit_of r) ≡ some (sent, 0)
    → EndsWith (plan chunks) sent
unfolding exit_of
done_at_zero chunks sent (all, false) h e = absurd (ground arith)
done_at_zero chunks sent (all, true) (earlier, h) e =
    let same : all ≡ sent = ground arith in (earlier, sym same ∙ h)

-- Whatever the three sockets do: where `ble_provision` exits with 0, the last PDUs that were sent are the
-- whole plan for its frame, of which the bodies of the writes are together the frame.
pub ble_provision_delivers :
    (sockets : ℕ → Option (List Event)) (ssid pwd sig_addr : Bytes) (tz : ℤ) (seq reg_code : ℕ)
    (frame : Bytes) (sent : List Bytes)
    → wifi_connect_frame ssid pwd sig_addr tz seq reg_code ≡ some frame
    → ble_provision sockets ssid pwd sig_addr tz seq reg_code ≡ some (sent, 0)
    → EndsWith (plan (chunk20 frame)) sent × (written (chunk20 frame) ≡ frame)
unfolding ble_provision exit_of
ble_provision_delivers sockets ssid pwd sig_addr tz seq reg_code frame sent built ends =
    let r = tries 3 1 sockets (chunk20 frame) in
    let ran : some (exit_of r) ≡ some (sent, 0) =
      sym (
        ap
          (λ (o : Option Bytes).
            o >>= λ (f : Bytes). some (exit_of (tries 3 1 sockets (chunk20 f))))
          built)
      ∙ ends in
    (
      done_at_zero (chunk20 frame) sent r (tries-IfDone 3 1 sockets frame) ran,
      (chunk20_lem frame).0,
    )
