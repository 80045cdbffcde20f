-- ===== src/Boot/Retry/Account.antt =====
-- How long the start takes, and what /health shows meanwhile.
use ziot_rtp_bridge.Base.{
  ℕ, zero, suc, ◌+◌, ◌*◌, ◌≡◌, refl, ap, ◌∙◌, true, false, List, [], ◌∷◌, ◌++◌, map, min, arith,
  append-nil, length,
}
use native.Mathlib.Nat.{add-zero}
use ziot_rtp_bridge.Boot.Roster.{Config, Host, Bridge, bring_up}
use ziot_rtp_bridge.Boot.Retry.{
  stopped, parked, Start, mark, retrying_after, refused_boot, reach, waited, retry_boot, first_list,
}
use ziot_rtp_bridge.Cloud.Row.{Row}
use ziot_rtp_bridge.Poller.{Failure, is_auth_failure, Answer, rows_of, raises}

-- Five seconds, doubled so often.
abbrev pub doubled : ℕ → ℕ
doubled zero = 5000
doubled (suc k) = doubled k * 2

-- The wait in front of a retry, and those of so many retries from one on.
abbrev pub wait_at : ℕ → ℕ
wait_at k = min (doubled k) 60000

abbrev pub schedule : ℕ → ℕ → List ℕ
schedule k zero = []
schedule k (suc n) = wait_at k ∷ schedule (suc k) n

-- No failure says that the token is refused.
abbrev pub AreTransient : List Failure → Type 0
AreTransient [] = Unit
AreTransient (e ∷ es) = (is_auth_failure e ≡ false) × AreTransient es

wait_at_next : (k : ℕ) → min (wait_at k * 2) 60000 ≡ wait_at (suc k)
wait_at_next k = omega arith

abbrev waited_all : List ℕ → Start → Start
waited_all [] s = s
waited_all (ms ∷ all) s = waited ms (waited_all all s)

-- The number of the retry, the calls made and the bridge, behind failures.
abbrev later_retry : ℕ → List Failure → ℕ
later_retry k [] = k
later_retry k (e ∷ es) = later_retry (suc k) es

abbrev calls_made : ℕ → List Failure → ℕ
calls_made n [] = n
calls_made n (e ∷ es) = calls_made (n + 1) es

abbrev marked : ℕ → List Failure → Bridge → Bridge
marked n [] b = b
marked n (e ∷ es) b = marked (n + 1) es (mark (retrying_after (n + 1)) b)

retry_boot-transient :
    (cfg : Config) (w : Host) (es : List Failure) (later : List Answer) (k n : ℕ) (b : Bridge)
    → AreTransient es
    → retry_boot cfg w (map raises es ++ later) (wait_at k) n b
      ≡ waited_all
          (schedule k (length es))
          (retry_boot cfg w later (wait_at (later_retry k es)) (calls_made n es) (marked n es b))
unfolding retry_boot
retry_boot-transient cfg w [] later k n b t = refl
retry_boot-transient cfg w (e ∷ es) later k n b t =
    rw (t.0, wait_at_next k)
      (ap (waited (wait_at k))
        (retry_boot-transient cfg w es later (suc k) (n + 1) (mark (retrying_after (n + 1)) b) t.1))

calls_made_count : (n : ℕ) (es : List Failure) → calls_made n es ≡ n + length es
calls_made_count n [] = omega arith
calls_made_count n (e ∷ es) = omega (arith, calls_made_count (n + 1) es)

-- The last failure is what the boot state says.
marked_last :
    (n : ℕ) (es : List Failure) (b : Bridge)
    → marked n es (mark (retrying_after n) b) ≡ mark (retrying_after (n + length es)) b
marked_last n [] b = rw add-zero refl
marked_last n (e ∷ es) b =
    marked_last (n + 1) es b ∙ ap (λ m. mark (retrying_after m) b) (omega arith)

waited_all-waits :
    (waits : List ℕ) (s : Start) → waited_all waits s ≡ record s { waits = waits ++ s.waits }
waited_all-waits [] s = refl
waited_all-waits (ms ∷ all) s = ap (waited ms) (waited_all-waits all s)

schedule_step :
    (k : ℕ) (es : List Failure)
    → schedule k (length es) ++ wait_at (later_retry k es) ∷ [] ≡ schedule k (suc (length es))
schedule_step k [] = refl
schedule_step k (e ∷ es) = ap (wait_at k ∷◌) (schedule_step (suc k) es)

-- The start behind failures, up to the call that decides.
behind :
    (cfg : Config) (w : Host) (e : Failure) (es : List Failure) (later : List Answer) (b : Bridge)
    → AreTransient (e ∷ es)
    → first_list cfg w (map raises (e ∷ es) ++ later) b
      ≡ waited_all (schedule 0 (length es)) (
          retry_boot cfg w later
            (wait_at (later_retry 0 es))
            (calls_made 1 es)
            (mark (retrying_after (1 + length es)) b))
unfolding first_list
behind cfg w e es later b t =
    rw (t.0, ← marked_last 1 es b)
      (retry_boot-transient cfg w es later 0 1 (mark (retrying_after 1) b) t.1)

decided :
    (es : List Failure) (s : Start)
    → s.waits ≡ wait_at (later_retry 0 es) ∷ []
    → waited_all (schedule 0 (length es)) s ≡ record s { waits = schedule 0 (suc (length es)) }
decided es s e =
    waited_all-waits (schedule 0 (length es)) s
    ∙ ap (λ (all : List ℕ). record s { waits = all })
        (ap (schedule 0 (length es) ++◌) e ∙ schedule_step 0 es)

-- While the cloud is out, the retries come after 5, 10, 20 and 40 seconds and then every minute, and the
-- boot state counts the calls. The first device list brings the bridge up with what it holds; a refused token
-- parks it for good; until then it goes on.
pub first_list_account :
    (cfg : Config) (w : Host) (e : Failure) (es : List Failure) (b : Bridge) (rows : List Row)
    (refusal : Failure) (later : List Answer)
    → AreTransient (e ∷ es)
    → is_auth_failure refusal ≡ true
    → (first_list cfg w (map raises (e ∷ es) ++ rows_of rows ∷ later) b
        ≡ reach
            (schedule 0 (suc (length es)))
            (bring_up cfg w rows (mark (retrying_after (1 + length es)) b)))
      × (first_list cfg w (map raises (e ∷ es) ++ raises refusal ∷ later) b ≡ record {
        bridge = mark refused_boot b;
        waits = schedule 0 (suc (length es));
        ended = parked;
      })
      × (first_list cfg w (map raises (e ∷ es) ++ []) b ≡ record {
        bridge = mark (retrying_after (1 + length es)) b;
        waits = schedule 0 (length es);
        ended = stopped;
      })
unfolding retry_boot
first_list_account cfg w e es b rows refusal later t r =
    let b' = mark (retrying_after (1 + length es)) b in
    let brought =
      retry_boot cfg w (rows_of rows ∷ later) (wait_at (later_retry 0 es)) (calls_made 1 es) b' in
    let refused =
      retry_boot cfg w (raises refusal ∷ later) (wait_at (later_retry 0 es)) (calls_made 1 es) b' in
    (
      behind cfg w e es (rows_of rows ∷ later) b t ∙ decided es brought refl,
      behind cfg w e es (raises refusal ∷ later) b t ∙ (decided es refused (rw r refl) ∙ rw r refl),
      behind cfg w e es [] b t
          ∙ (waited_all-waits (schedule 0 (length es)) (retry_boot cfg w [] 0 0 b')
              ∙ ap (λ (all : List ℕ). record { bridge = b'; waits = all; ended = stopped })
                  (append-nil (schedule 0 (length es)))),
    )
