-- ===== src/Runner/Cache.antt =====
-- packages/sdk/src/tool-runner.ts (class IdempotencyCache): one execution for each idempotency key.
-- A promise is the number of the execution that it was made for.
pub mod Steps
pub mod Once
pub mod Bounds
use swift_agent.Common.{
  ℕ, ◌+◌, String, Bool, true, false, not, List, [], ◌∷◌, Option, none, some, ltb, ◌==◌, length,
  keep, if◌then◌else◌, get_key, set_key, delete_key,
}

pub record IdempotencyEntry : Type 0 where
  pub promise : ℕ
  pub settled_at : Option ℕ

-- The entries in the order of the `Map`, and the number of executions so far.
pub record IdempotencyCache : Type 0 where
  pub entries : List (String × IdempotencyEntry)
  pub executions : ℕ

-- In flight, or settled for less than the time to live.
abbrev pub is_kept : ℕ → ℕ → Option ℕ → Bool
is_kept ttl_ms now none = true
is_kept ttl_ms now (some settled_at) = ltb now (settled_at + ttl_ms)

-- `evictIfNeeded`: the oldest entry is the first; keys are unique.
unfoldable pub evict_if_needed :
    ℕ → List (String × IdempotencyEntry) → List (String × IdempotencyEntry)
evict_if_needed max_entries [] = []
evict_if_needed max_entries (e ∷ es) =
    let rest = evict_if_needed max_entries es in
    if ltb max_entries (length (e ∷ es)) then rest else e ∷ es

-- A new execution under the key: the promise and the cache.
abbrev pub execute : ℕ → String → List (String × IdempotencyEntry) → ℕ → ℕ × IdempotencyCache
execute max_entries key entries executions = (
  executions,
  record {
    entries =
        evict_if_needed max_entries
          (set_key key (record { promise = executions; settled_at = none }) entries);
    executions = executions + 1;
  },
)

abbrev pub run_existing :
    ℕ → ℕ → String → ℕ → Option IdempotencyEntry → IdempotencyCache → ℕ × IdempotencyCache
run_existing ttl_ms max_entries key now none c = execute max_entries key c.entries c.executions
run_existing ttl_ms max_entries key now (some e) c =
    if is_kept ttl_ms now e.settled_at
    then (e.promise, record c { entries = set_key key e (delete_key key c.entries) })
    else execute max_entries key (delete_key key c.entries) c.executions

-- `run`: the promise that it answers.
unfoldable pub run : ℕ → ℕ → String → ℕ → IdempotencyCache → ℕ × IdempotencyCache
unfolding evict_if_needed
run ttl_ms max_entries key now c = run_existing ttl_ms max_entries key now (get_key key c.entries) c

-- The outcome of an execution: its entry settles, wherever it is. (Handlers never reject, since
-- `executeTool` answers every failure as an outcome.)
abbrev pub settle_entry : ℕ → ℕ → IdempotencyEntry → IdempotencyEntry
settle_entry promise now e = if e.promise == promise then record e { settled_at = some now } else e

unfoldable pub settle_entries :
    ℕ → ℕ → List (String × IdempotencyEntry) → List (String × IdempotencyEntry)
settle_entries promise now [] = []
settle_entries promise now ((k, e) ∷ es) =
    (k, settle_entry promise now e) ∷ settle_entries promise now es

unfoldable pub settle : ℕ → ℕ → IdempotencyCache → IdempotencyCache
unfolding settle_entries
settle promise now c = record c { entries = settle_entries promise now c.entries }
