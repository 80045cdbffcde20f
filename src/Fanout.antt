-- ===== src/Fanout.antt =====
-- `class Fanout` of ziot_rtp_bridge.py. A queue is the list of its items, the oldest first; a subscriber
-- is a number that names its queue, so `_subs` is a list of such pairs. A call runs without a switch to
-- another thread between its steps.
pub mod Newest
mod Tests
use ziot_rtp_bridge.Base.{
  ℕ, Bool, ◌&&◌, ◌||◌, List, [], ◌∷◌, ◌++◌, map, if◌then◌else◌, ◌==◌, ltb, leb, length, drop,
}

pub record Fanout {ℓ} (A : Type ℓ) : Type ℓ where
  pub subs : List (ℕ × List A)
  pub maxsize : ℕ

module _ {ℓ} {A : Type ℓ} where
  -- `queue.Full` is raised: a size of 0 means no bound.
  abbrev pub is_full : ℕ → List A → Bool
  is_full maxsize q = ltb 0 maxsize && leb maxsize (length q)

  -- `put_nowait`, and on `queue.Full` a `get_nowait` and the `put_nowait` again.
  unfoldable pub put_newest : ℕ → A → List A → List A
  put_newest maxsize item q = if is_full maxsize q then drop 1 q ++ item ∷ [] else q ++ item ∷ []

  abbrev put_each : ℕ → A → List (ℕ × List A) → List (ℕ × List A)
  put_each maxsize item [] = []
  put_each maxsize item ((i, q) ∷ subs) =
      (i, put_newest maxsize item q) ∷ put_each maxsize item subs

  unfoldable pub publish : A → Fanout A → Fanout A
  publish item f = record f { subs = put_each f.maxsize item f.subs }

  -- `subscribe`: the queue is added on entry, and taken out on exit however the body ends.
  unfoldable pub enter : ℕ → Fanout A → Fanout A
  enter i f = record f { subs = (i, []) ∷ f.subs }

  abbrev discard : ℕ → List (ℕ × List A) → List (ℕ × List A)
  discard i [] = []
  discard i (s ∷ subs) = if s.0 == i then discard i subs else s ∷ discard i subs

  unfoldable pub leave : ℕ → Fanout A → Fanout A
  leave i f = record f { subs = discard i f.subs }
