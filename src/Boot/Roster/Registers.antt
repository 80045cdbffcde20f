-- ===== src/Boot/Roster/Registers.antt =====
-- Which cameras a bridge serves.
use mathlib.Core.List.{Permᴰ}
use ziot_rtp_bridge.Base.{
  ◌≡◌, ◌∙◌, refl, ap, ap₂, inl, inr, Bool, true, false, ◌&&◌, ◌||◌, Option, none, some, List, [],
  ◌∷◌, Bytes, bytes_eq, bytes_eq_sound, arith, Bool-cases, Option-cases,
}
use ziot_rtp_bridge.Boot.Roster.{
  Config, Host, Bridge, static_of, choose, choose_bind, probe, boot_one, boot_all, Brought, up,
  nothing_for_us, escaped, bring_chosen, bring_up,
}
use ziot_rtp_bridge.Camera.State.{Camera, is_some}
use ziot_rtp_bridge.Camera.Attempt.{open_transport}
use ziot_rtp_bridge.Cloud.Row.{Row}
use ziot_rtp_bridge.Poller.{register, ready, no_cameras}

-- `uid in live`
abbrev pub has_key : Bytes → List (Bytes × Camera) → Bool
has_key uid [] = false
has_key uid ((u, c) ∷ es) = bytes_eq u uid || has_key uid es

or_again : (a b : Bool) → (a || b) ≡ (a || (a || b))
or_again true b = refl
or_again false b = refl

or_swap : (a b c d r : Bool) → a ≡ d → b ≡ c → (a || (b || r)) ≡ (c || (d || r))
or_swap a b c d r e f = ground arith

has_key-register :
    (uid u : Bytes) (c : Camera) (es : List (Bytes × Camera))
    → has_key uid (register u c es) ≡ (bytes_eq u uid || has_key uid es)
unfolding register
has_key-register uid u c [] = refl
has_key-register uid u c ((v, d) ∷ es) = elim (Bool-cases (bytes_eq v u)) [
  | inl same ↦ rw (same, bytes_eq_sound v u same) (or_again (bytes_eq u uid) (has_key uid es))
  | inr other ↦ let rest = has_key-register uid u c es in ground arith
]

-- The row of a camera that can be constructed.
module _ (cfg : Config) (w : Host) (ip : Bytes) where
  abbrev pub is_built : Bytes → Row → Bool
  is_built uid row = bytes_eq row.uid uid && is_some (w.build ip row (static_of row.uid cfg.static))

  abbrev pub any_built : Bytes → List Row → Bool
  any_built uid [] = false
  any_built uid (row ∷ rows) = is_built uid row || any_built uid rows

  any_built-perm :
      (uid : Bytes) {xs ys : List Row} → Permᴰ xs ys → any_built uid xs ≡ any_built uid ys
  any_built-perm uid Permᴰ.nil = refl
  any_built-perm uid (Permᴰ.cons e p) =
      ap₂ (λ (r : Row) (t : Bool). is_built uid r || t) e (any_built-perm uid p)
  any_built-perm uid (Permᴰ.swap e f) =
      or_swap _ _ _ _ _ (ap (is_built uid) e) (ap (is_built uid) f)
  any_built-perm uid (Permᴰ.trans p q) = any_built-perm uid p ∙ any_built-perm uid q

  boot_one-live :
      (uid : Bytes) (row : Row) (b : Bridge)
      → has_key uid (boot_one cfg w ip row b).live ≡ (is_built uid row || has_key uid b.live)
  unfolding boot_one
  boot_one-live uid row b =
      let c = w.build ip row (static_of row.uid cfg.static) in
      elim (Option-cases c) [
        | inl fails ↦ ground arith
        | inr (z, built) ↦
            let one = has_key-register uid row.uid (open_transport (w.world row.uid) z).0 b.live in
            ground arith
      ]

  boot_one-polled :
      (uid : Bytes) (row : Row) (b : Bridge)
      → b.has_cloud ≡ true
      → has_key uid (boot_one cfg w ip row b).polled ≡ (is_built uid row || has_key uid b.polled)
  unfolding boot_one
  boot_one-polled uid row b cloud =
      let c = w.build ip row (static_of row.uid cfg.static) in
      elim (Option-cases c) [
        | inl fails ↦ ground arith
        | inr (z, built) ↦
            let one =
              has_key-register uid row.uid (open_transport (w.world row.uid) z).0 b.polled in
            ground arith
      ]

  boot_one-has_cloud : (row : Row) (b : Bridge) → (boot_one cfg w ip row b).has_cloud ≡ b.has_cloud
  unfolding boot_one
  boot_one-has_cloud row b = elim (Option-cases (w.build ip row (static_of row.uid cfg.static))) [
    | inl fails ↦ ground arith
    | inr (z, built) ↦ ground arith
  ]

  boot_all-live :
      (uid : Bytes) (rows : List Row) (b : Bridge)
      → has_key uid (boot_all cfg w ip rows b).live ≡ (any_built uid rows || has_key uid b.live)
  unfolding boot_all
  boot_all-live uid [] b = refl
  boot_all-live uid (row ∷ rows) b =
      let one = boot_one-live uid row b in
      let rest = boot_all-live uid rows (boot_one cfg w ip row b) in ground arith

  boot_all-polled :
      (uid : Bytes) (rows : List Row) (b : Bridge)
      → b.has_cloud ≡ true
      → has_key uid (boot_all cfg w ip rows b).polled ≡ (any_built uid rows || has_key uid b.polled)
  unfolding boot_all
  boot_all-polled uid [] b cloud = refl
  boot_all-polled uid (row ∷ rows) b cloud =
      let one = boot_one-polled uid row b cloud in
      let rest =
        boot_all-polled uid rows (boot_one cfg w ip row b) (boot_one-has_cloud row b ∙ cloud) in
      ground arith

-- What a bridge that is up has, of the cameras that it was asked for.
abbrev pub IsServing : Config → Host → Bytes → List Row → Bridge → Bridge → Type 0
IsServing cfg w ip cams b b' =
    (b'.boot.phase ≡ ready)
    × ((uid : Bytes) → has_key uid b'.live ≡ (any_built cfg w ip uid cams || has_key uid b.live))
    × ((uid : Bytes)
        → (b.has_cloud && has_key uid b'.polled)
          ≡ (b.has_cloud && (any_built cfg w ip uid cams || has_key uid b.polled)))

-- How `bring_up` ends, with the address that it binds.
abbrev pub IsBrought : Config → Host → List Row → Option Bytes → Bridge → Bridge × Brought → Type 0
IsBrought cfg w [] bound b (b', how) =
    (how ≡ nothing_for_us) × (b'.boot.phase ≡ no_cameras) × (b'.live ≡ b.live)
IsBrought cfg w (c ∷ cs) none b (b', how) =
    (how ≡ escaped) × (b'.boot ≡ b.boot) × (b'.live ≡ b.live)
IsBrought cfg w (c ∷ cs) (some ip) b (b', how) = (how ≡ up) × IsServing cfg w ip (c ∷ cs) b b'

abbrev pub bound : Config → Host → List Row → Option Bytes
bound cfg w [] = none
bound cfg w (c ∷ cs) = choose_bind cfg w (probe cfg w c)

polled_cases :
    (cfg : Config) (w : Host) (ip uid : Bytes) (rows cams : List Row) (b : Bridge)
    → any_built cfg w ip uid rows ≡ any_built cfg w ip uid cams
    → (b.has_cloud && has_key uid (boot_all cfg w ip rows b).polled)
      ≡ (b.has_cloud && (any_built cfg w ip uid cams || has_key uid b.polled))
polled_cases cfg w ip uid rows cams b e = elim (Bool-cases b.has_cloud) [
  | inl cloud ↦ let all = boot_all-polled cfg w ip uid rows b cloud in ground arith
  | inr none_is ↦ rw none_is refl
]

bring_chosen-IsBrought :
    (cfg : Config) (w : Host) (cams : List Row) (ip : Option Bytes) (b : Bridge)
    → Permᴰ (w.ended cams) cams
    → bound cfg w cams ≡ ip
    → IsBrought cfg w cams ip b (bring_chosen cfg w cams (record b { cold = [] }))
bring_chosen-IsBrought cfg w [] ip b p e = (refl, refl, refl)
bring_chosen-IsBrought cfg w (c ∷ cs) none b p e = rw e (refl, refl, refl)
bring_chosen-IsBrought cfg w (c ∷ cs) (some ip) b p e =
    let b' = record b { cold = [] } in
    let rows = w.ended (c ∷ cs) in
    rw e (
      refl,
      (
        refl,
        (λ uid.
            boot_all-live cfg w ip uid rows b'
            ∙ ap (λ (t : Bool). t || has_key uid b.live) (any_built-perm cfg w ip uid p)),
        λ uid. polled_cases cfg w ip uid rows (c ∷ cs) b' (any_built-perm cfg w ip uid p),
      ),
    )

-- A bridge is up as soon as a camera was asked for and an address to bind was found; in whatever order its threads end,
-- it then serves exactly the cameras asked for that could be constructed, whether or not their first attempt
-- worked, besides those it had, and with a cloud it polls the same. Otherwise it serves what it had.
pub bring_up-IsBrought :
    (cfg : Config) (w : Host) (cams : List Row) (b : Bridge)
    → Permᴰ (w.ended (choose cfg cams)) (choose cfg cams)
    → IsBrought cfg w (choose cfg cams) (bound cfg w (choose cfg cams)) b (bring_up cfg w cams b)
unfolding bring_up
bring_up-IsBrought cfg w cams b p =
    bring_chosen-IsBrought cfg w (choose cfg cams) (bound cfg w (choose cfg cams)) b p refl
