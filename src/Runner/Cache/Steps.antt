-- ===== src/Runner/Cache/Steps.antt =====
-- tool-runner.ts: requests and outcomes in any order, and the executions that are under way.
use swift_agent.Common.{ℕ, ◌<◌, String, not, List, [], ◌∷◌, ◌==◌, length, keep, if◌then◌else◌}
use swift_agent.Runner.Cache.{IdempotencyCache, run, settle}

pub record Execution : Type 0 where
  pub key : String
  pub promise : ℕ

-- The cache, and the executions that have begun and not settled.
pub record Running : Type 0 where
  pub cache : IdempotencyCache
  pub executions : List Execution

abbrev pub fresh : Running
fresh = record { cache = record { entries = []; executions = 0 }; executions = [] }

pub data Event : Type 0 where
  requests : (key : String) → (now : ℕ) → Event
  settles : (promise now : ℕ) → Event

-- A call of `run` executes where it counts one execution more.
abbrev pub begun : String → ℕ → ℕ × IdempotencyCache → Running → Running
begun key before (promise, c) r =
    if c.executions == before
    then record { cache = c; executions = r.executions }
    else record { cache = c; executions = record { key = key; promise = promise } ∷ r.executions }

module _ (ttl_ms max_entries : ℕ) where
  unfoldable pub apply : Event → Running → Running
  unfolding run settle
  apply (requests key now) r =
      begun key r.cache.executions (run ttl_ms max_entries key now r.cache) r
  apply (settles promise now) r = record {
    cache = settle promise now r.cache;
    executions = keep (λ (e : Execution). not (e.promise == promise)) r.executions;
  }

  unfoldable pub apply_all : List Event → Running → Running
  unfolding apply
  apply_all [] r = r
  apply_all (e ∷ es) r = apply_all es (apply e r)

  -- There is room for one entry more at every request.
  abbrev pub HasRoom : Event → Running → Type 0
  HasRoom (requests key now) r = length r.cache.entries < max_entries
  HasRoom (settles promise now) r = Unit

  unfoldable pub AllHaveRoom : List Event → Running → Type 0
  unfolding apply
  AllHaveRoom [] r = Unit
  AllHaveRoom (e ∷ es) r = HasRoom e r × AllHaveRoom es (apply e r)
