-- ===== src/Runner/Cache/Once.antt =====
-- tool-runner.ts: a request joins the execution that is under way under its key.
use swift_agent.Common.{
  ◌≡◌, refl, sym, ap, subst, ◌∙◌, ℕ, ◌+◌, ◌≤◌, ◌<◌, String, Bool, true, false, not, List, [], ◌∷◌,
  Option, none, some, ◌==◌, length, keep, ==_iff, if◌then◌else◌, get_key, set_key, delete_key,
  get_key-set, get_key-delete, str_eq, eq_iff, arith, All, All-mono, if_cases, Bool-cases, inl, inr,
  get_key-set_same, false≢true,
}
use swift_agent.Runner.Cache.{
  IdempotencyEntry, IdempotencyCache, is_kept, evict_if_needed, execute, run_existing, run,
  settle_entry, settle_entries, settle,
}
use swift_agent.Runner.Cache.Steps.{
  Execution, Running, fresh, Event, requests, settles, begun, apply, apply_all, HasRoom,
  AllHaveRoom,
}

-- An execution under way is the one that the cache has under its key.
abbrev pub IsCurrent : List (String × IdempotencyEntry) → Execution → Type 0
IsCurrent entries e =
    get_key e.key entries ≡ some (record { promise = e.promise; settled_at = none })

pub length-set_key :
    (key : String) (e : IdempotencyEntry) (m : List (String × IdempotencyEntry))
    → length (set_key key e m) ≤ length m + 1
unfolding set_key
length-set_key key e [] = ground arith
length-set_key key e ((k, b) ∷ m) = ground (arith, length-set_key key e m)

pub length-delete_key :
    (key : String) (m : List (String × IdempotencyEntry)) → length (delete_key key m) ≤ length m
unfolding delete_key
length-delete_key key [] = ground arith
length-delete_key key ((k, b) ∷ m) = ground (arith, length-delete_key key m)

pub evict-fits :
    (max_entries : ℕ) (m : List (String × IdempotencyEntry))
    → length m ≤ max_entries
    → evict_if_needed max_entries m ≡ m
unfolding evict_if_needed
evict-fits max_entries [] h = refl
evict-fits max_entries (e ∷ es) h = ground (arith, h)

settle_entry-other :
    (promise now n : ℕ) (e : IdempotencyEntry)
    → (n == promise) ≡ false
    → e ≡ record { promise = n; settled_at = none }
    → settle_entry promise now e ≡ record { promise = n; settled_at = none }
settle_entry-other promise now n e other h =
    subst (λ x. settle_entry promise now x ≡ record { promise = n; settled_at = none }) (sym h)
      (ap
        (λ b.
          if b
          then record { promise = n; settled_at = some now }
          else record { promise = n; settled_at = none })
        other)

get_key-settle :
    (k : String) (promise now : ℕ) (m : List (String × IdempotencyEntry)) (n : ℕ)
    → (n == promise) ≡ false
    → get_key k m ≡ some (record { promise = n; settled_at = none })
    → get_key k (settle_entries promise now m) ≡ some (record { promise = n; settled_at = none })
unfolding settle_entries get_key
get_key-settle k promise now [] n other h = h
get_key-settle k promise now ((j, e) ∷ m) n other h = elim (Bool-cases (str_eq j k)) [
  | inl same ↦
      let here : some e ≡ some (record { promise = n; settled_at = none }) =
        sym (ap (λ b. if b then some e else get_key k m) same) ∙ h in
      ap
        (λ b.
          if b then some (settle_entry promise now e) else get_key k (settle_entries promise now m))
        same
      ∙ ap some (settle_entry-other promise now n e other cc)
  | inr differ ↦
      ap
        (λ b.
          if b then some (settle_entry promise now e) else get_key k (settle_entries promise now m))
        differ
      ∙ get_key-settle k promise now m n other
          (sym (ap (λ b. if b then some e else get_key k m) differ) ∙ h)
]

settled-IsCurrent :
    (promise now : ℕ) (m : List (String × IdempotencyEntry)) (xs : List Execution)
    → All (IsCurrent m) xs
    → All
        (IsCurrent (settle_entries promise now m))
        (keep (λ (e : Execution). not (e.promise == promise)) xs)
settled-IsCurrent promise now m [] h = tt
settled-IsCurrent promise now m (x ∷ xs) (h, hs) =
    let rest : All (IsCurrent (settle_entries promise now m))
        (keep (λ (e : Execution). not (e.promise == promise)) xs) =
      settled-IsCurrent promise now m xs hs in
    if_kept x _ (x.promise == promise)
      (λ differ. get_key-settle x.key promise now m x.promise differ h) rest
  where
    if_kept :
        (y : Execution) (ys : List Execution) (b : Bool)
        → (b ≡ false → IsCurrent (settle_entries promise now m) y)
        → All (IsCurrent (settle_entries promise now m)) ys
        → All (IsCurrent (settle_entries promise now m)) (if not b then y ∷ ys else ys)
    if_kept y ys true k ks = ks
    if_kept y ys false k ks = (k refl, ks)

-- A hit moves the entry to the end: every key is looked up as before.
moved-IsCurrent :
    (key : String) (e : IdempotencyEntry) (m : List (String × IdempotencyEntry)) (x : Execution)
    → get_key key m ≡ some e
    → IsCurrent m x
    → IsCurrent (set_key key e (delete_key key m)) x
moved-IsCurrent key e m x here h =
    get_key-set x.key key e (delete_key key m)
    ∙ ap (λ o. if str_eq key x.key then some e else o) (get_key-delete x.key key m)
    ∙ ground (arith, here, h, eq_iff key x.key)

-- A key without a running execution is given one.
added-IsCurrent :
    (key : String) (e : IdempotencyEntry) (m n : List (String × IdempotencyEntry)) (x : Execution)
    → (str_eq key x.key ≡ false → get_key x.key n ≡ get_key x.key m)
    → (str_eq key x.key ≡ true → IsCurrent m x → ⊥)
    → IsCurrent m x
    → IsCurrent (set_key key e n) x
added-IsCurrent key e m n x other none_ h = elim (Bool-cases (str_eq key x.key)) [
  | inl same ↦ absurd (none_ same h)
  | inr differ ↦
      get_key-set x.key key e n
      ∙ ap (λ b. if b then some e else get_key x.key n) differ
      ∙ other differ
      ∙ h
]

-- What the calls of `run` make of the executions under way, on what the cache has under the key.
executed-IsCurrent :
    (max_entries : ℕ) (key : String) (m n : List (String × IdempotencyEntry)) (count : ℕ)
    (xs : List Execution)
    → length n < max_entries
    → ((k : String) → str_eq key k ≡ false → get_key k n ≡ get_key k m)
    → ((x : Execution) → str_eq key x.key ≡ true → IsCurrent m x → ⊥)
    → All (IsCurrent m) xs
    → All
        (IsCurrent (execute max_entries key n count).1.entries)
        (record { key = key; promise = count } ∷ xs)
executed-IsCurrent max_entries key m n count xs room other none_ h =
    let e : IdempotencyEntry = record { promise = count; settled_at = none } in
    subst (λ o. All (IsCurrent o) (record { key = key; promise = count } ∷ xs))
      (sym (evict-fits max_entries (set_key key e n) (omega (arith, room, length-set_key key e n))))
      (
        get_key-set_same key e n,
        All-mono (λ x k. added-IsCurrent key e m n x (other x.key) (none_ x) k) xs h,
      )

abbrev AllCurrent : Running → Type 0
AllCurrent r = All (IsCurrent r.cache.entries) r.executions

begun-same :
    (key : String) (before promise : ℕ) (c : IdempotencyCache) (r : Running)
    → c.executions ≡ before
    → begun key before (promise, c) r ≡ record { cache = c; executions = r.executions }
begun-same key before promise c r h =
    ap
      (λ b. if b then record { cache = c; executions = r.executions } else record {
        cache = c;
        executions = record { key = key; promise = promise } ∷ r.executions;
      })
      ((==_iff c.executions before).1 h)

begun-new :
    (key : String) (before promise : ℕ) (c : IdempotencyCache) (r : Running)
    → c.executions ≡ before + 1
    → begun key before (promise, c) r
      ≡ record { cache = c; executions = record { key = key; promise = promise } ∷ r.executions }
begun-new key before promise c r h =
    ap
      (λ b. if b then record { cache = c; executions = r.executions } else record {
        cache = c;
        executions = record { key = key; promise = promise } ∷ r.executions;
      })
      {y = false} (ground (arith, h))

none_or_some : {e : IdempotencyEntry} → none ≡ some e → ⊥
none_or_some h = cc

abbrev kept_of : ℕ → ℕ → Option IdempotencyEntry → Bool
kept_of ttl_ms now none = true
kept_of ttl_ms now (some e) = is_kept ttl_ms now e.settled_at

module _ (ttl_ms max_entries now : ℕ) where
  -- The entry that a call of `run` finds is in flight or is settled.
  existing-AllCurrent :
      (key : String) (e : IdempotencyEntry) (r : Running)
      → get_key key r.cache.entries ≡ some e
      → length r.cache.entries < max_entries
      → AllCurrent r
      → AllCurrent (
          begun key r.cache.executions (run_existing ttl_ms max_entries key now (some e) r.cache) r)
  existing-AllCurrent key e r here room h =
      if_cases (λ (o : ℕ × IdempotencyCache). AllCurrent (begun key r.cache.executions o r))
        (is_kept ttl_ms now e.settled_at)
        (λ kept.
          subst AllCurrent (sym (begun-same key r.cache.executions e.promise _ r refl))
            (All-mono (λ x k. moved-IsCurrent key e r.cache.entries x here k) r.executions h))
        (λ expired.
          subst AllCurrent (sym (begun-new key r.cache.executions r.cache.executions _ r refl)) (
            executed-IsCurrent max_entries key r.cache.entries (delete_key key r.cache.entries)
              r.cache.executions r.executions
              (omega (arith, room, length-delete_key key r.cache.entries))
              (λ k differ.
                get_key-delete k key r.cache.entries
                ∙ ap (λ b. if b then none else get_key k r.cache.entries) differ)
              (λ x same k. false≢true (
                sym expired
                ∙ ap (kept_of ttl_ms now) (
                    sym here
                    ∙ ap (λ j. get_key j r.cache.entries) ((eq_iff key x.key).0 same)
                    ∙ k)))
              h))

  request-AllCurrent :
      (key : String) (o : Option IdempotencyEntry) (r : Running)
      → get_key key r.cache.entries ≡ o
      → length r.cache.entries < max_entries
      → AllCurrent r
      → AllCurrent
          (begun key r.cache.executions (run_existing ttl_ms max_entries key now o r.cache) r)
  request-AllCurrent key none r here room h =
      subst AllCurrent (sym (begun-new key r.cache.executions r.cache.executions _ r refl)) (
        executed-IsCurrent max_entries key r.cache.entries r.cache.entries r.cache.executions
          r.executions room (λ k differ. refl)
          (λ x same k.
            none_or_some
              (sym here ∙ ap (λ j. get_key j r.cache.entries) ((eq_iff key x.key).0 same) ∙ k))
          h)
  request-AllCurrent key (some e) r here room h = existing-AllCurrent key e r here room h

module _ (ttl_ms max_entries : ℕ) where
  apply-AllCurrent :
      (e : Event) (r : Running)
      → HasRoom ttl_ms max_entries e r
      → AllCurrent r
      → AllCurrent (apply ttl_ms max_entries e r)
  unfolding apply run settle
  apply-AllCurrent (requests key now) r room h =
      request-AllCurrent ttl_ms max_entries now key (get_key key r.cache.entries) r refl room h
  apply-AllCurrent (settles promise now) r room h =
      settled-IsCurrent promise now r.cache.entries r.executions h

  all-AllCurrent :
      (es : List Event) (r : Running)
      → AllHaveRoom ttl_ms max_entries es r
      → AllCurrent r
      → AllCurrent (apply_all ttl_ms max_entries es r)
  unfolding apply_all AllHaveRoom
  all-AllCurrent [] r rooms h = h
  all-AllCurrent (e ∷ es) r (room, rooms) h =
      all-AllCurrent es (apply ttl_ms max_entries e r) rooms (apply-AllCurrent e r room h)

-- The promise that a call of `run` answers under a key that has an execution under way.
joined_on :
    (ttl_ms max_entries now : ℕ) (key : String) (o : Option IdempotencyEntry) (c : IdempotencyCache)
    (n : ℕ)
    → o ≡ some (record { promise = n; settled_at = none })
    → ((run_existing ttl_ms max_entries key now o c).0 ≡ n)
      × ((run_existing ttl_ms max_entries key now o c).1.executions ≡ c.executions)
joined_on ttl_ms max_entries now key o c n h =
    subst
      (λ x.
        ((run_existing ttl_ms max_entries key now x c).0 ≡ n)
        × ((run_existing ttl_ms max_entries key now x c).1.executions ≡ c.executions))
      (sym h) (refl, refl)

-- From an empty cache, along any requests and outcomes with room for one entry more at every
-- request: a request under the key of an execution that is under way, at any time, is answered the
-- promise of that execution and begins no other.
pub run-joins :
    (ttl_ms max_entries : ℕ) (es : List Event)
    → AllHaveRoom ttl_ms max_entries es fresh
    → All
        (λ x.
          (now : ℕ)
          → let c = (apply_all ttl_ms max_entries es fresh).cache in
            ((run ttl_ms max_entries x.key now c).0 ≡ x.promise)
            × ((run ttl_ms max_entries x.key now c).1.executions ≡ c.executions))
        (apply_all ttl_ms max_entries es fresh).executions
unfolding run
run-joins ttl_ms max_entries es rooms =
    All-mono
      (λ x h now.
        joined_on ttl_ms max_entries now x.key _ (apply_all ttl_ms max_entries es fresh).cache
          x.promise h)
      (apply_all ttl_ms max_entries es fresh).executions
      (all-AllCurrent ttl_ms max_entries es fresh rooms tt)
