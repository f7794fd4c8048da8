-- ===== src/Runner/Cache/Bounds.antt =====
-- tool-runner.ts: the size of the idempotency cache, and what an eviction forgets.
use swift_agent.Common.{
  ◌≡◌, refl, sym, ap, subst, ◌∙◌, ℕ, ◌+◌, ◌≤◌, String, true, false, List, [], ◌∷◌, Option, none,
  some, length, if◌then◌else◌, get_key, set_key, delete_key, get_key-set, str_eq, eq_iff, arith,
  if_cases,
}
use swift_agent.Runner.Cache.{
  IdempotencyEntry, IdempotencyCache, is_kept, evict_if_needed, run_existing, run,
}
use swift_agent.Runner.Cache.Once.{length-set_key, length-delete_key, evict-fits}

evict-bound :
    (max_entries : ℕ) (m : List (String × IdempotencyEntry))
    → length (evict_if_needed max_entries m) ≤ max_entries
unfolding evict_if_needed
evict-bound max_entries [] = ground arith
evict-bound max_entries (e ∷ es) = ground (arith, evict-bound max_entries es)

-- An entry that is there leaves room for one when it is deleted.
length-delete_found :
    (key : String) (e : IdempotencyEntry) (m : List (String × IdempotencyEntry))
    → get_key key m ≡ some e
    → length (delete_key key m) + 1 ≤ length m
unfolding get_key delete_key
length-delete_found key e [] h = cc
length-delete_found key e ((k, b) ∷ m) h =
    ground (arith, h, length-delete_found key e m, length-delete_key key m)

length-run_existing :
    (ttl_ms max_entries now : ℕ) (key : String) (o : Option IdempotencyEntry) (c : IdempotencyCache)
    → get_key key c.entries ≡ o
    → length c.entries ≤ max_entries
    → length (run_existing ttl_ms max_entries key now o c).1.entries ≤ max_entries
length-run_existing ttl_ms max_entries now key none c here h = evict-bound max_entries _
length-run_existing ttl_ms max_entries now key (some e) c here h =
    if_cases (λ (o : ℕ × IdempotencyCache). length o.1.entries ≤ max_entries)
      (is_kept ttl_ms now e.settled_at)
      (λ kept. omega (
        arith,
        h,
        length-set_key key e (delete_key key c.entries),
        length-delete_found key e c.entries here,
      ))
      (λ expired. evict-bound max_entries _)

-- `run` keeps the cache within `maxEntries`, on a hit, on an expired entry and on a new key.
pub run-bound :
    (ttl_ms max_entries now : ℕ) (key : String) (c : IdempotencyCache)
    → length c.entries ≤ max_entries
    → length (run ttl_ms max_entries key now c).1.entries ≤ max_entries
unfolding run
run-bound ttl_ms max_entries now key c h =
    length-run_existing ttl_ms max_entries now key (get_key key c.entries) c refl h

length-set_new :
    (key : String) (e : IdempotencyEntry) (m : List (String × IdempotencyEntry))
    → get_key key m ≡ none
    → length (set_key key e m) ≡ length m + 1
unfolding get_key set_key
length-set_new key e [] h = refl
length-set_new key e ((k, b) ∷ m) h = ground (arith, h, length-set_new key e m)

absent_tail :
    (k key : String) (b : IdempotencyEntry) (m : List (String × IdempotencyEntry))
    → get_key key ((k, b) ∷ m) ≡ none
    → (str_eq k key ≡ false) × (get_key key m ≡ none)
unfolding get_key
absent_tail k key b m =
    if_cases
      (λ (o : Option IdempotencyEntry). o ≡ none → (str_eq k key ≡ false) × (get_key key m ≡ none))
      (str_eq k key) (λ same h. cc) (λ differ h. (differ, h))

evict-drops :
    (max_entries : ℕ) (x : String × IdempotencyEntry) (m : List (String × IdempotencyEntry))
    → length m ≡ max_entries
    → evict_if_needed max_entries (x ∷ m) ≡ m
unfolding evict_if_needed
evict-drops max_entries x m h =
    ap (λ b. if b then evict_if_needed max_entries m else x ∷ m) {y = true} (ground (arith, h))
    ∙ evict-fits max_entries m (omega (arith, h))

-- A new key, where the cache is full, pushes out the first entry.
evict-first :
    (max_entries : ℕ) (k key : String) (b e : IdempotencyEntry)
    (m : List (String × IdempotencyEntry))
    → length m + 1 ≡ max_entries
    → get_key key ((k, b) ∷ m) ≡ none
    → evict_if_needed max_entries (set_key key e ((k, b) ∷ m)) ≡ set_key key e m
unfolding set_key
evict-first max_entries k key b e m full new =
    let (differ, absent) = absent_tail k key b m new in
    ap (λ same. evict_if_needed max_entries (if same then (k, e) ∷ m else (k, b) ∷ set_key key e m))
      differ
    ∙ evict-drops max_entries (k, b) (set_key key e m) (length-set_new key e m absent ∙ full)

unequal_none :
    (k key : String) (b e : IdempotencyEntry) (m : List (String × IdempotencyEntry))
    → get_key key ((k, b) ∷ m) ≡ none
    → (if str_eq key k then some e else none) ≡ none
unequal_none k key b e m new =
    let (differ, absent) = absent_tail k key b m new in
    ground (arith, differ, eq_iff k key, eq_iff key k)

-- Where the cache is full, its oldest entry is in flight and a request under a new key comes, a
-- request under the key of the oldest entry begins a second execution while the first is under way.
pub run-repeats_evicted :
    (ttl_ms max_entries now later p : ℕ) (k key : String) (m : List (String × IdempotencyEntry))
    (count : ℕ)
    → length m + 1 ≡ max_entries
    → get_key k m ≡ none
    → get_key key ((k, record { promise = p; settled_at = none }) ∷ m) ≡ none
    → let c =
        (run ttl_ms max_entries key now (record {
          entries = (k, record { promise = p; settled_at = none }) ∷ m;
          executions = count;
        })).1 in
      (run ttl_ms max_entries k later c).1.executions ≡ c.executions + 1
unfolding run
run-repeats_evicted ttl_ms max_entries now later p k key m count full once new =
    let b : IdempotencyEntry = record { promise = p; settled_at = none } in
    let e : IdempotencyEntry = record { promise = count; settled_at = none } in
    let c0 : IdempotencyCache = record { entries = (k, b) ∷ m; executions = count } in
    let c1 : IdempotencyCache = record { entries = set_key key e m; executions = count + 1 } in
    let first : (run_existing ttl_ms max_entries key now (get_key key c0.entries) c0).1 ≡ c1 =
      ap (λ o. (run_existing ttl_ms max_entries key now o c0).1) new
      ∙ ap (λ es. record { entries = es; executions = count + 1 })
          (evict-first max_entries k key b e m full new) in
    let gone : get_key k (set_key key e m) ≡ none =
      get_key-set k key e m
      ∙ ap (λ o. if str_eq key k then some e else o) once
      ∙ unequal_none k key b e m new in
    subst
      (λ c.
        (run_existing ttl_ms max_entries k later (get_key k c.entries) c).1.executions
        ≡ c.executions + 1)
      (sym first) (ap (λ o. (run_existing ttl_ms max_entries k later o c1).1.executions) gone)
