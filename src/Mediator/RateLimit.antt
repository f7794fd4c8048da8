-- ===== src/Mediator/RateLimit.antt =====
-- apps/playground/backend/src/mediator/rate-limit.ts: a sliding-window limiter. `t > now - window`
-- is written `now < t + window`.
pub mod Window
use swift_agent.Common.{
  ℕ, zero, suc, ◌+◌, ◌-◌, ◌/◌, String, Bool, true, false, List, [], ◌∷◌, ◌++◌, leb, ltb, str_eq,
  length, keep, if◌then◌else◌,
}

pub record Limit : Type 0 where
  pub max : ℕ
  pub window_ms : ℕ

pub record Verdict : Type 0 where
  pub allowed : Bool
  pub retry_after_seconds : ℕ

-- `hits.get(key) ?? []`, `hits.set` and `hits.delete`.
unfoldable pub hits_of : String → List (String × List ℕ) → List ℕ
hits_of key [] = []
hits_of key ((k, ts) ∷ m) = if str_eq k key then ts else hits_of key m

unfoldable pub set_hits : String → List ℕ → List (String × List ℕ) → List (String × List ℕ)
set_hits key ts [] = (key, ts) ∷ []
set_hits key ts ((k, us) ∷ m) = if str_eq k key then (key, ts) ∷ m else (k, us) ∷ set_hits key ts m

-- `forget`
unfoldable pub forget : String → List (String × List ℕ) → List (String × List ℕ)
forget key [] = []
forget key ((k, us) ∷ m) = if str_eq k key then forget key m else (k, us) ∷ forget key m

-- The timestamps that are still in the window.
abbrev pub recent : ℕ → ℕ → List ℕ → List ℕ
recent window now = keep λ t. ltb now (t + window)

abbrev pub first_or : ℕ → List ℕ → ℕ
first_or d [] = d
first_or d (t ∷ ts) = t

-- `Math.max(1, Math.ceil(ms / 1000))`
abbrev pub seconds_up : ℕ → ℕ
seconds_up ms = let s = (ms + 999) / 1000 in if ltb s 1 then 1 else s

-- One key: the timestamps to store, and the verdict.
unfoldable pub decide : Limit → ℕ → List ℕ → List ℕ × Verdict
decide l now ts =
    if leb l.max (length ts)
    then (
      ts,
      record {
        allowed = false;
        retry_after_seconds = seconds_up (first_or now ts + l.window_ms - now);
      },
    )
    else (ts ++ now ∷ [], record { allowed = true; retry_after_seconds = 0 })

unfoldable pub check_key : Limit → ℕ → List ℕ → List ℕ × Verdict
unfolding decide
check_key l now ts = decide l now (recent l.window_ms now ts)

-- `check(key, nowMs)`
unfoldable pub check :
    Limit → String → ℕ → List (String × List ℕ) → Verdict × List (String × List ℕ)
unfolding check_key hits_of set_hits
check l key now hits = let (ts, v) = check_key l now (hits_of key hits) in (v, set_hits key ts hits)
