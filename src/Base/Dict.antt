-- ===== src/Base/Dict.antt =====
-- A Python dict whose keys are numbers, in insertion order.
use Prim.Native.Nat.{ℕ, suc, ◌≤◌}
use mathlib.Core.List.{List, [], ◌∷◌, ◌++◌}
use mathlib.Core.Logic.{◌≢◌}
use mathlib.Core.Option.{Option, none, some}
use mathlib.Core.Path.{◌≡◌, refl}
use native.Mathlib.Omega.{arith}
use ziot_rtp_bridge.Base.Lists.{length}
use ziot_rtp_bridge.Base.Tests.{◌==◌, if◌then◌else◌}

-- The items in the order in which their keys were first set.
abbrev pub Dict {ℓ} : Type ℓ → Type ℓ
Dict V = List (ℕ × V)

module _ {ℓ} {V : Type ℓ} where
  abbrev pub keys : Dict V → List ℕ
  keys [] = []
  keys (item ∷ items) = item.0 ∷ keys items

  -- The key is not in the dict.
  abbrev pub IsAbsent : ℕ → Dict V → Type 0
  IsAbsent wanted [] = Unit
  IsAbsent wanted (item ∷ items) = (item.0 ≢ wanted) × IsAbsent wanted items

  -- No key is listed twice.
  abbrev pub IsDict : Dict V → Type 0
  IsDict [] = Unit
  IsDict (item ∷ items) = IsAbsent item.0 items × IsDict items

  -- `d.pop(wanted, None)`
  abbrev pub erase : ℕ → Dict V → Dict V
  erase wanted [] = []
  erase wanted (item ∷ items) = if item.0 == wanted then items else item ∷ erase wanted items

  -- `d.get(wanted)`
  abbrev pub lookup : ℕ → Dict V → Option V
  lookup wanted [] = none
  lookup wanted ((found, value) ∷ items) =
      if found == wanted then some value else lookup wanted items

  -- `d[wanted] = value`
  abbrev pub insert : ℕ → V → Dict V → Dict V
  insert wanted value [] = (wanted, value) ∷ []
  insert wanted value (item ∷ items) =
      if item.0 == wanted then (wanted, value) ∷ items else item ∷ insert wanted value items

  pub lookup-insert :
      (j k : ℕ) (v : V) (d : Dict V)
      → lookup j (insert k v d) ≡ (if k == j then some v else lookup j d)
  lookup-insert j k v [] = ground arith
  lookup-insert j k v (e ∷ d) = ground (arith, lookup-insert j k v d)

  pub lookup-erase_ne :
      (other wanted : ℕ) (items : Dict V)
      → other ≢ wanted
      → lookup other (erase wanted items) ≡ lookup other items
  lookup-erase_ne other wanted [] differ = refl
  lookup-erase_ne other wanted (item ∷ items) differ =
      ground (arith, lookup-erase_ne other wanted items differ)

  pub lookup-IsAbsent : (k : ℕ) (d : Dict V) → IsAbsent k d → lookup k d ≡ none
  lookup-IsAbsent k [] h = refl
  lookup-IsAbsent k (e ∷ d) h = ground (arith, lookup-IsAbsent k d h.1)

  pub IsAbsent-lookup : (k : ℕ) (d : Dict V) → lookup k d ≡ none → IsAbsent k d
  IsAbsent-lookup k [] h = tt
  IsAbsent-lookup k (e ∷ d) h = ground (arith, IsAbsent-lookup k d)

  pub IsAbsent-insert :
      (j k : ℕ) (v : V) (d : Dict V) → j ≢ k → IsAbsent j d → IsAbsent j (insert k v d)
  IsAbsent-insert j k v [] n h = ground arith
  IsAbsent-insert j k v (e ∷ d) n h = ground (arith, IsAbsent-insert j k v d n h.1)

  pub IsDict-insert : (k : ℕ) (v : V) (d : Dict V) → IsDict d → IsDict (insert k v d)
  IsDict-insert k v [] h = (tt, tt)
  IsDict-insert k v (e ∷ d) h = ground (arith, IsDict-insert k v d h.1, IsAbsent-insert e.0 k v d)

  pub IsAbsent-erase : (j k : ℕ) (d : Dict V) → IsAbsent j d → IsAbsent j (erase k d)
  IsAbsent-erase j k [] h = tt
  IsAbsent-erase j k (e ∷ d) h = ground (arith, IsAbsent-erase j k d h.1)

  pub IsAbsent-erase_self : (k : ℕ) (d : Dict V) → IsDict d → IsAbsent k (erase k d)
  IsAbsent-erase_self k [] h = tt
  IsAbsent-erase_self k (e ∷ d) h = ground (arith, IsAbsent-erase_self k d h.1)

  pub IsDict-erase : (k : ℕ) (d : Dict V) → IsDict d → IsDict (erase k d)
  IsDict-erase k [] h = tt
  IsDict-erase k (e ∷ d) h = ground (arith, IsDict-erase k d h.1, IsAbsent-erase e.0 k d)

  pub length-insert : (k : ℕ) (v : V) (d : Dict V) → length (insert k v d) ≤ suc (length d)
  length-insert k v [] = omega arith
  length-insert k v (e ∷ d) = ground (arith, length-insert k v d)

  pub length-erase_le : (k : ℕ) (d : Dict V) → length (erase k d) ≤ length d
  length-erase_le k [] = omega arith
  length-erase_le k (e ∷ d) = ground (arith, length-erase_le k d)

  -- A new key goes to the end, and is found and removed there.
  pub insert_new : (k : ℕ) (v : V) (d : Dict V) → IsAbsent k d → insert k v d ≡ d ++ (k, v) ∷ []
  insert_new k v [] h = refl
  insert_new k v (e ∷ d) h = ground (arith, insert_new k v d h.1)

  pub insert_last :
      (k : ℕ) (u v : V) (d : Dict V)
      → IsAbsent k d
      → insert k v (d ++ (k, u) ∷ []) ≡ d ++ (k, v) ∷ []
  insert_last k u v [] h = ground arith
  insert_last k u v (e ∷ d) h = ground (arith, insert_last k u v d h.1)

  pub lookup_last :
      (k : ℕ) (v : V) (d : Dict V) → IsAbsent k d → lookup k (d ++ (k, v) ∷ []) ≡ some v
  lookup_last k v [] h = ground arith
  lookup_last k v (e ∷ d) h = ground (arith, lookup_last k v d h.1)

  pub erase_last : (k : ℕ) (v : V) (d : Dict V) → IsAbsent k d → erase k (d ++ (k, v) ∷ []) ≡ d
  erase_last k v [] h = ground arith
  erase_last k v (e ∷ d) h = ground (arith, erase_last k v d h.1)

  pub erase_absent : (k : ℕ) (d : Dict V) → IsAbsent k d → erase k d ≡ d
  erase_absent k [] h = refl
  erase_absent k (e ∷ d) h = ground (arith, erase_absent k d h.1)
