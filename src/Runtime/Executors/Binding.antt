-- ===== src/Runtime/Executors/Binding.antt =====
-- tool-executor-resolver.ts: no agent is served by the runner of another.
use swift_agent.Common.{
  ◌≡◌, refl, sym, ap, subst, ◌∙◌, ℕ, String, false, List, [], ◌∷◌, Option, none, some, str_eq,
  eq_iff, ltb, ◌⊎◌, inr, ◌<>◌, if◌then◌else◌, if_cases, get_key, set_key, get_key-set, get_key-nil,
  false≢true, All, get_key-set_same, byte_length, split_same,
}
use swift_agent.Shared.{Fault}
use swift_agent.Runtime.Tools.{ToolDefinition}
use swift_agent.Runtime.Executors.{
  ToolAgent, Executor, remote, local, url_or_local, cache_key, Cache, keep_executor,
  without_handlers, resolve_local, resolve_new, resolve_cached, resolve, create_tool_executor,
}

-- Agents' ids have one length.
abbrev pub HasId : ℕ → ToolAgent → Type 0
HasId n a = byte_length a.agent_id ≡ n

same_key :
    (n : ℕ) (a b : ToolAgent)
    → HasId n a
    → HasId n b
    → cache_key a ≡ cache_key b
    → (a.agent_id ≡ b.agent_id) × (url_or_local a.tool_runner_url ≡ url_or_local b.tool_runner_url)
unfolding cache_key
same_key n a b ha hb h =
    let (ids, rest) =
      split_same a.agent_id (":" <> url_or_local a.tool_runner_url) b.agent_id
        (":" <> url_or_local b.tool_runner_url) (ha ∙ sym hb) h in
    (
      ids,
      (split_same ":" (url_or_local a.tool_runner_url) ":" (url_or_local b.tool_runner_url) refl
          rest).1,
    )

-- An agent with a runner URL of its own is served by a remote executor of that URL for that agent.
abbrev pub Serves : Executor → ToolAgent → Type 0
Serves e a =
    (url : String)
    → a.tool_runner_url ≡ some url
    → str_eq url "" ≡ false
    → str_eq url "local" ≡ false
    → e ≡ remote url a.agent_id

none_is_some : {u : String} → none ≡ some u → ⊥
none_is_some h = cc

one_url : {o : Option String} (x y : String) → o ≡ some x → o ≡ some y → x ≡ y
one_url x y h k = cc

abbrev IsBound : ℕ → Cache → Type 0
IsBound n c =
    (a : ToolAgent) (e : Executor) → HasId n a → get_key (cache_key a) c ≡ some e → Serves e a

some_url :
    (o : Option String) (url : String)
    → str_eq url "local" ≡ false
    → url_or_local o ≡ url
    → o ≡ some url
some_url none url other h = absurd (false≢true (sym other ∙ ap (λ u. str_eq u "local") (sym h)))
some_url (some u) url other h = ap some h

Serves-same :
    (n : ℕ) (a b : ToolAgent) (e : Executor)
    → HasId n a
    → HasId n b
    → cache_key a ≡ cache_key b
    → Serves e a
    → Serves e b
Serves-same n a b e ha hb h serves url is_url filled other =
    let (ids, urls) = same_key n a b ha hb h in
    serves url (some_url a.tool_runner_url url other (urls ∙ ap url_or_local is_url)) filled other
    ∙ ap (remote url) ids

kept-IsBound :
    (n : ℕ) (a : ToolAgent) (e : Executor) (c : Cache)
    → HasId n a
    → Serves e a
    → IsBound n c
    → IsBound n (set_key (cache_key a) e c)
kept-IsBound n a e c ha serves bound b d hb =
    subst (λ o. o ≡ some d → Serves d b) (sym (get_key-set (cache_key b) (cache_key a) e c))
      (if_cases (λ (o : Option Executor). o ≡ some d → Serves d b)
        (str_eq (cache_key a) (cache_key b)) {x = some e} {y = get_key (cache_key b) c}
        (λ same found.
          let e_is_d : e ≡ d = cc in
          subst (λ x. Serves x b) e_is_d
            (Serves-same n a b e ha hb ((eq_iff (cache_key a) (cache_key b)).0 same) serves))
        (λ differ found. bound b d hb found))

-- What a resolution answers and leaves.
abbrev Resolves : ℕ → ToolAgent → (Fault ⊎ Executor) × Cache → Type 0
Resolves n a r = ((e : Executor) → r.0 ≡ inr e → Serves e a) × IsBound n r.1

keep_executor-Resolves :
    (n : ℕ) (a : ToolAgent) (e : Executor) (c : Cache)
    → HasId n a
    → Serves e a
    → IsBound n c
    → Resolves n a (keep_executor a e c)
keep_executor-Resolves n a e c ha serves bound = (
  λ d h. let e_is_d : e ≡ d = cc in subst (λ x. Serves x a) e_is_d serves,
  kept-IsBound n a e c ha serves bound,
)

-- An agent without a URL of its own.
abbrev IsLocal : ToolAgent → Type 0
IsLocal a = (url : String) → a.tool_runner_url ≡ some url → str_eq url "" ≡ false → ⊥

without_handlers-Resolves :
    (n : ℕ) (a : ToolAgent) (tools : List ToolDefinition) (c : Cache)
    → HasId n a
    → IsLocal a
    → IsBound n c
    → Resolves n a (without_handlers a tools c)
without_handlers-Resolves n a [] c ha own bound =
    keep_executor-Resolves n a (local []) c ha (λ u h k l. absurd (own u h k)) bound
without_handlers-Resolves n a (t ∷ ts) c ha own bound = (λ d h. cc, bound)

module _ (register : Option (ToolAgent → ℕ × List String)) where
  resolve_local-Resolves :
      (n : ℕ) (a : ToolAgent) (o : Option (ToolAgent → ℕ × List String)) (c : Cache)
      → HasId n a
      → IsLocal a
      → IsBound n c
      → Resolves n a (resolve_local a o c)
  resolve_local-Resolves n a none c ha own bound =
      without_handlers-Resolves n a a.tools c ha own bound
  resolve_local-Resolves n a (some f) c ha own bound =
      if_cases (λ (r : (Fault ⊎ Executor) × Cache). Resolves n a r) (ltb 0 (f a).0)
        (λ some_.
          keep_executor-Resolves n a (local (f a).1) c ha (λ u h k l. absurd (own u h k)) bound)
        (λ none_. without_handlers-Resolves n a a.tools c ha own bound)

  resolve_new-Resolves :
      (n : ℕ) (a : ToolAgent) (o : Option String) (c : Cache)
      → a.tool_runner_url ≡ o
      → HasId n a
      → IsBound n c
      → Resolves n a (resolve_new register a o c)
  resolve_new-Resolves n a none c is_url ha bound =
      resolve_local-Resolves n a register c ha (λ u h k. none_is_some (sym is_url ∙ h)) bound
  resolve_new-Resolves n a (some url) c is_url ha bound =
      if_cases (λ (r : (Fault ⊎ Executor) × Cache). Resolves n a r) (str_eq url "")
        (λ empty.
          resolve_local-Resolves n a register c ha
            (λ u h k.
              false≢true (sym k ∙ ap (λ x. str_eq x "") (sym (one_url url u is_url h)) ∙ empty))
            bound)
        (λ filled.
          keep_executor-Resolves n a (create_tool_executor a url) c ha
            (λ u h k l.
              ap (λ b. if b then local [] else remote url a.agent_id) filled
              ∙ ap (λ x. remote x a.agent_id) (one_url url u is_url h))
            bound)

  resolve_cached-Resolves :
      (n : ℕ) (a : ToolAgent) (o : Option Executor) (c : Cache)
      → get_key (cache_key a) c ≡ o
      → HasId n a
      → IsBound n c
      → Resolves n a (resolve_cached register a o c)
  resolve_cached-Resolves n a (some e) c here ha bound =
      (λ d h. let e_is_d : e ≡ d = cc in bound a d ha (here ∙ ap some e_is_d), bound)
  resolve_cached-Resolves n a none c here ha bound =
      resolve_new-Resolves n a a.tool_runner_url c refl ha bound

  resolve-Resolves :
      (n : ℕ) (a : ToolAgent) (c : Cache)
      → HasId n a
      → IsBound n c
      → Resolves n a (resolve register a c)
  unfolding resolve
  resolve-Resolves n a c ha bound =
      resolve_cached-Resolves n a (get_key (cache_key a) c) c refl ha bound

  -- The cache after the agents were resolved, one after the other.
  abbrev pub resolve_all : List ToolAgent → Cache → Cache
  resolve_all [] c = c
  resolve_all (a ∷ as_) c = resolve_all as_ (resolve register a c).1

  resolve_all-IsBound :
      (n : ℕ) (agents : List ToolAgent) (c : Cache)
      → All (HasId n) agents
      → IsBound n c
      → IsBound n (resolve_all agents c)
  resolve_all-IsBound n [] c hs bound = bound
  resolve_all-IsBound n (a ∷ rest) c (ha, hs) bound =
      resolve_all-IsBound n rest (resolve register a c).1 hs (resolve-Resolves n a c ha bound).1

-- After any resolutions of agents whose ids have one length: an agent with a runner URL of its own
-- (neither empty nor the text `local`) that resolves is served by a remote executor of exactly that
-- URL, which mints its tokens for exactly that agent.
pub resolve-Serves :
    (register : Option (ToolAgent → ℕ × List String)) (n : ℕ) (agents : List ToolAgent)
    (a : ToolAgent) (e : Executor)
    → All (HasId n) agents
    → HasId n a
    → (resolve register a (resolve_all register agents [])).0 ≡ inr e
    → Serves e a
resolve-Serves register n agents a e hs ha h =
    (resolve-Resolves register n a (resolve_all register agents []) ha (
        resolve_all-IsBound register n agents [] hs
          (λ b d hb found. absurd (none_is_executor (sym (get_key-nil (cache_key b)) ∙ found))))).0
      e h
  where
    none_is_executor : {d : Executor} → none ≡ some d → ⊥
    none_is_executor k = cc

-- An agent without a runner URL and without tools is given an executor without handlers; once it
-- has tools, it is still given that executor, and not the VALIDATION fault.
pub resolve-keeps_noop :
    (a : ToolAgent) (tools : List ToolDefinition) (c : Cache)
    → a.tool_runner_url ≡ none
    → a.tools ≡ []
    → get_key (cache_key a) c ≡ none
    → (resolve none (record a { tools = tools }) (resolve none a c).1).0 ≡ inr (local [])
unfolding resolve cache_key
resolve-keeps_noop a tools c no_url no_tools new =
    let b : ToolAgent = record a { tools = tools } in
    let c1 : Cache = set_key (cache_key a) (local []) c in
    let first : (resolve_cached none a (get_key (cache_key a) c) c).1 ≡ c1 =
      ap (λ o. (resolve_cached none a o c).1) new
      ∙ ap (λ u. (resolve_new none a u c).1) no_url
      ∙ ap (λ ts. (without_handlers a ts c).1) no_tools in
    ap (λ k. (resolve_cached none b (get_key (cache_key a) k) k).0) first
    ∙ ap (λ o. (resolve_cached none b o c1).0) (get_key-set_same (cache_key a) (local []) c)
