-- ===== src/Models/Registry/Current.antt =====
-- registry.ts: no instance outlives the registration that it was made of.
use swift_agent.Common.{
  ◌≡◌, refl, sym, ap, ◌∙◌, ℕ, String, false, List, [], ◌∷◌, Option, none, some, ◌⊎◌, inl, inr,
  str_eq, eq_iff, if◌then◌else◌, if_cases, get_key, set_key, delete_key, get_key-set,
  get_key-delete, get_key-set_same, get_key-nil,
}
use swift_agent.Models.Parser.{ModelError}
use swift_agent.Models.Registry.{
  ProviderConfig, ModelProvider, ProviderRegistry, with_config, register, resolve_config, make,
  get_made, get_cached, get_provider,
}

-- A cached instance is made by the factory that is registered under its id, of the explicit
-- configuration if there is one.
pub record IsCurrent (r : ProviderRegistry) : Type 0 where
  pub factory :
      (id : String) (p : ModelProvider)
      → get_key id r.instances ≡ some p
      → get_key id r.factories ≡ some p.factory
  pub config :
      (id : String) (p : ModelProvider) (c : ProviderConfig)
      → get_key id r.instances ≡ some p
      → get_key id r.configs ≡ some c
      → p.config ≡ c

pub data Event : Type 0 where
  registers : (provider_id : String) → (factory : ℕ) → Option ProviderConfig → Event
  gets : (provider_id : String) → Event

module _ (env : String → Option String) where
  unfoldable pub apply : Event → ProviderRegistry → ProviderRegistry
  unfolding register get_provider
  apply (registers id f c) r = register id f c r
  apply (gets id) r = (get_provider env id r).1

  unfoldable pub apply_all : List Event → ProviderRegistry → ProviderRegistry
  unfolding apply
  apply_all [] r = r
  apply_all (e ∷ es) r = apply_all es (apply e r)

abbrev pub no_providers : ProviderRegistry
no_providers = record { factories = []; configs = []; instances = []; made = 0 }

none_is_some : {A : Type 0} {a : A} → none ≡ some a → ⊥
none_is_some h = cc

-- An entry of the map without one key stands under another key.
kept_entry :
    {A : Type 0} (id key : String) (a : A) (m : List (String × A))
    → get_key id (delete_key key m) ≡ some a
    → (str_eq key id ≡ false) × (get_key id m ≡ some a)
kept_entry {A} id key a m h =
    if_cases (λ (o : Option A). o ≡ some a → (str_eq key id ≡ false) × (get_key id m ≡ some a))
      (str_eq key id) {x = none} {y = get_key id m} (λ same e. absurd (none_is_some e))
      (λ differ e. (differ, e)) (sym (get_key-delete id key m) ∙ h)

other_entry :
    {A : Type 0} (id key : String) (a : A) (m : List (String × A))
    → str_eq key id ≡ false
    → get_key id (set_key key a m) ≡ get_key id m
other_entry id key a m differ =
    get_key-set id key a m ∙ ap (λ b. if b then some a else get_key id m) differ

other_config :
    (id key : String) (c : Option ProviderConfig) (m : List (String × ProviderConfig))
    → str_eq key id ≡ false
    → get_key id (with_config key c m) ≡ get_key id m
other_config id key none m differ = refl
other_config id key (some c) m differ = other_entry id key c m differ

register-IsCurrent :
    (key : String) (f : ℕ) (c : Option ProviderConfig) (r : ProviderRegistry)
    → IsCurrent r
    → IsCurrent (register key f c r)
unfolding register
register-IsCurrent key f c r v = record {
  factory = λ id p h.
      let (differ, found) = kept_entry id key p r.instances h in
      other_entry id key f r.factories differ ∙ v.factory id p found;
  config = λ id p d h k.
      let (differ, found) = kept_entry id key p r.instances h in
      v.config id p d found (sym (other_config id key c r.configs differ) ∙ k);
}

-- What an answer of `getProvider` leaves.
record Leaves (id : String) (r : ProviderRegistry)
    (answer : (ModelError ⊎ ModelProvider) × ProviderRegistry) : Type 0 where
  current : IsCurrent r → IsCurrent answer.1
  factories : answer.1.factories ≡ r.factories
  configs : answer.1.configs ≡ r.configs
  cached : (p : ModelProvider) → answer.0 ≡ inr p → get_key id answer.1.instances ≡ some p

module _ (env : String → Option String) where
  explicit_config :
      (id : String) (o : Option ProviderConfig) (config c : ProviderConfig)
      → resolve_config env id o ≡ inr config
      → o ≡ some c
      → config ≡ c
  explicit_config id none config c h k = absurd (none_is_some k)
  explicit_config id (some explicit) config c h k = cc

  make-Leaves :
      (key : String) (f : ℕ) (o : ModelError ⊎ ProviderConfig) (r : ProviderRegistry)
      → get_key key r.factories ≡ some f
      → resolve_config env key (get_key key r.configs) ≡ o
      → Leaves key r (make env key f o r)
  make-Leaves key f (inl e) r here made = record {
    current = λ v. v;
    factories = refl;
    configs = refl;
    cached = λ p h. cc;
  }
  make-Leaves key f (inr config) r here made =
      let new : ModelProvider = record { factory = f; config = config; serial = r.made } in
      record {
        current = λ v. record {
          factory = λ id p h.
              if_cases
                (λ (o : Option ModelProvider). o ≡ some p → get_key id r.factories ≡ some p.factory)
                (str_eq key id) {x = some new} {y = get_key id r.instances}
                (λ same e.
                  let new_is_p : new ≡ p = cc in
                  ap (λ k. get_key k r.factories) (sym ((eq_iff key id).0 same))
                  ∙ here
                  ∙ ap (λ q. some q.factory) new_is_p)
                (λ differ e. v.factory id p e) (sym (get_key-set id key new r.instances) ∙ h);
          config = λ id p c h k.
              if_cases (λ (o : Option ModelProvider). o ≡ some p → p.config ≡ c) (str_eq key id)
                {x = some new} {y = get_key id r.instances}
                (λ same e.
                  let new_is_p : new ≡ p = cc in
                  sym (ap (λ q. q.config) new_is_p)
                  ∙ explicit_config key (get_key key r.configs) config c made
                      (ap (λ j. get_key j r.configs) ((eq_iff key id).0 same) ∙ k))
                (λ differ e. v.config id p c e k) (sym (get_key-set id key new r.instances) ∙ h);
        };
        factories = refl;
        configs = refl;
        cached = λ p h.
            let new_is_p : new ≡ p = cc in get_key-set_same key new r.instances ∙ ap some new_is_p;
      }

  get_made-Leaves :
      (key : String) (o : Option ℕ) (r : ProviderRegistry)
      → get_key key r.factories ≡ o
      → Leaves key r (get_made env key o r)
  get_made-Leaves key none r here = record {
    current = λ v. v;
    factories = refl;
    configs = refl;
    cached = λ p h. cc;
  }
  get_made-Leaves key (some f) r here = make-Leaves key f _ r here refl

  get_cached-Leaves :
      (key : String) (o : Option ModelProvider) (r : ProviderRegistry)
      → get_key key r.instances ≡ o
      → Leaves key r (get_cached env key o r)
  get_cached-Leaves key none r here = get_made-Leaves key (get_key key r.factories) r refl
  get_cached-Leaves key (some q) r here = record {
    current = λ v. v;
    factories = refl;
    configs = refl;
    cached = λ p h. let q_is_p : q ≡ p = cc in here ∙ ap some q_is_p;
  }

  get_provider-Leaves :
      (key : String) (r : ProviderRegistry) → Leaves key r (get_provider env key r)
  unfolding get_provider
  get_provider-Leaves key r = get_cached-Leaves key (get_key key r.instances) r refl

  all-IsCurrent :
      (es : List Event) (r : ProviderRegistry) → IsCurrent r → IsCurrent (apply_all env es r)
  unfolding apply_all apply
  all-IsCurrent [] r v = v
  all-IsCurrent (registers id f c ∷ es) r v =
      all-IsCurrent es (register id f c r) (register-IsCurrent id f c r v)
  all-IsCurrent (gets id ∷ es) r v =
      all-IsCurrent es (get_provider env id r).1 ((get_provider-Leaves id r).current v)

no_providers-IsCurrent : IsCurrent no_providers
no_providers-IsCurrent = record {
  factory = λ id p h. absurd (none_is_some (sym (get_key-nil id) ∙ h));
  config = λ id p c h k. absurd (none_is_some (sym (get_key-nil id) ∙ h));
}

-- After any registrations and lookups: a provider that `getProvider` answers is made by the factory
-- that is registered under the id last, of the explicit configuration if the id has one, and the
-- next `getProvider` answers the same instance.
pub get_provider-IsCurrent :
    (env : String → Option String) (es : List Event) (id : String) (p : ModelProvider)
    → (get_provider env id (apply_all env es no_providers)).0 ≡ inr p
    → (get_key id (apply_all env es no_providers).factories ≡ some p.factory)
      × ((c : ProviderConfig)
          → get_key id (apply_all env es no_providers).configs ≡ some c
          → p.config ≡ c)
      × ((get_provider env id (get_provider env id (apply_all env es no_providers)).1).0 ≡ inr p)
unfolding get_provider
get_provider-IsCurrent env es id p h =
    let r : ProviderRegistry = apply_all env es no_providers in
    let left : Leaves id r (get_provider env id r) = get_provider-Leaves env id r in
    let v : IsCurrent (get_provider env id r).1 =
      left.current (all-IsCurrent env es no_providers no_providers-IsCurrent) in
    let found : get_key id (get_provider env id r).1.instances ≡ some p = left.cached p h in
    (
      ap (get_key id) (sym left.factories) ∙ v.factory id p found,
      λ c k. v.config id p c found (ap (get_key id) left.configs ∙ k),
      ap (λ o. (get_cached env id o (get_provider env id r).1).0) found,
    )
