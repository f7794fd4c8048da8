-- ===== src/Db/Drift/Entries.antt =====
-- A loop over the entries of one record that looks each name up in another: `for (const [name, a] of
-- Object.entries(m))` with `n[name]`, or with the test `!n[name]`. The records are plain objects, so
-- that the names of `Object.prototype` are found in each of them.
use swift_agent.Common.{
  ◌≡◌, refl, sym, ap, subst, ◌∙◌, String, Bool, true, false, ◌||◌, has_string, List, [], ◌∷◌, ◌++◌,
  Option, none, some, str_eq, eq_iff, eq_refl, arith, get_key, set_key, get_key-set, Bool-cases,
  All, All-mono, if◌then◌else◌, if_cases, inl, inr,
}

-- The names that an object literal inherits.
abbrev pub inherited_names : List String
inherited_names =
    "constructor" ∷ "__defineGetter__" ∷ "__defineSetter__" ∷ "hasOwnProperty" ∷ "__lookupGetter__"
    ∷ "__lookupSetter__" ∷ "isPrototypeOf" ∷ "propertyIsEnumerable" ∷ "toString" ∷ "valueOf"
    ∷ "__proto__" ∷ "toLocaleString" ∷ []

abbrev pub is_inherited : String → Bool
is_inherited k = has_string k inherited_names

abbrev pub is_some : {A : Type 0} → Option A → Bool
is_some none = false
is_some (some a) = true

-- Whether `n[k]` is truthy, where the values of `n` are objects.
abbrev pub has_property : {A : Type 0} → String → List (String × A) → Bool
has_property k n = is_some (get_key k n) || is_inherited k

-- What the bodies push, in order.
module _ {A D : Type 0} (body : String → A → List D) where
  unfoldable pub each_of : List (String × A) → List D
  each_of [] = []
  each_of ((k, a) ∷ m) = body k a ++ each_of m

-- A loop that reads `n[k]`, of own entries.
unfoldable pub each_entry :
    {A B D : Type 0}
    → (String → A → Option B → List D)
    → List (String × A)
    → List (String × B)
    → List D
unfolding each_of
each_entry body m n = each_of (λ k a. body k a (get_key k n)) m

-- A loop that tests `!n[k]`.
unfoldable pub each_tested :
    {A B D : Type 0} → (String → A → Bool → List D) → List (String × A) → List (String × B) → List D
unfolding each_of
each_tested body m n = each_of (λ k a. body k a (has_property k n)) m

module _ {D : Type 0} where
  pub append-empty : (xs ys : List D) → xs ++ ys ≡ [] → (xs ≡ []) × (ys ≡ [])
  append-empty [] ys h = (refl, h)
  append-empty (x ∷ xs) ys h = cc

  pub empty-append : (xs ys : List D) → xs ≡ [] → ys ≡ [] → xs ++ ys ≡ []
  empty-append xs ys h k = ap (λ zs. zs ++ ys) h ∙ k

module _ {A D : Type 0} (body : String → A → List D) where
  each_of-empty : (m : List (String × A)) → each_of body m ≡ [] → All (λ p. body p.0 p.1 ≡ []) m
  unfolding each_of
  each_of-empty [] h = tt
  each_of-empty ((k, a) ∷ m) h =
      let (here, rest) = append-empty (body k a) (each_of body m) h in (here, each_of-empty m rest)

  empty-each_of : (m : List (String × A)) → All (λ p. body p.0 p.1 ≡ []) m → each_of body m ≡ []
  unfolding each_of
  empty-each_of [] h = refl
  empty-each_of ((k, a) ∷ m) (here, rest) =
      empty-append (body k a) (each_of body m) here (empty-each_of m rest)

-- What holds of all entries holds of one that is found.
pub All-get_key :
    {A : Type 0} (P : String × A → Type 0) (m : List (String × A)) (k : String) (a : A)
    → All P m
    → get_key k m ≡ some a
    → P (k, a)
unfolding get_key
All-get_key P [] k a h found = cc
All-get_key {A} P ((j, b) ∷ m) k a (here, rest) found =
    if_cases (λ (o : Option A). o ≡ some a → P (k, a)) (str_eq j k) {x = some b} {y = get_key k m}
      (λ same e.
        let found_b : b ≡ a = cc in
        subst (λ x. P (x, a)) ((eq_iff j k).0 same) (subst (λ y. P (j, y)) found_b here))
      (λ differ e. All-get_key P m k a rest e) found

none_is_some : {A : Type 0} {a : A} → none ≡ some a → ⊥
none_is_some h = cc

-- Two records have the same names, and what they have under a name is related.
abbrev pub SameOption : {A : Type 0} → (A → A → Type 0) → Option A → Option A → Type 0
SameOption R none none = Unit
SameOption R (some a) (some b) = R a b
SameOption R _ _ = ⊥

abbrev pub SameBy : {A : Type 0} → (A → A → Type 0) → List (String × A) → List (String × A) → Type 0
SameBy R m n = (k : String) → SameOption R (get_key k m) (get_key k n)

-- Every name stands once, and `P` holds of every value.
abbrev pub IsRecord : {A : Type 0} → (A → Type 0) → List (String × A) → Type 0
IsRecord P [] = Unit
IsRecord P ((k, a) ∷ m) = (get_key k m ≡ none) × P a × IsRecord P m

-- Every entry is what is found under its name.
abbrev IsFound : {A : Type 0} → (A → Type 0) → List (String × A) → String × A → Type 0
IsFound P m p = (get_key p.0 m ≡ some p.1) × P p.1

IsFound-behind :
    {A : Type 0} (P : A → Type 0) (k : String) (a : A) (m : List (String × A)) (p : String × A)
    → get_key k m ≡ none
    → IsFound P m p
    → IsFound P ((k, a) ∷ m) p
unfolding get_key
IsFound-behind {A} P k a m (j, b) once (found, pb) = elim (Bool-cases (str_eq k j)) [
  | inl same ↦
      absurd (none_is_some (sym once ∙ ap (λ x. get_key x m) ((eq_iff k j).0 same) ∙ found))
  | inr differ ↦ (ap (λ t. if t then some a else get_key j m) differ ∙ found, pb)
]

IsRecord-IsFound :
    {A : Type 0} (P : A → Type 0) (m : List (String × A)) → IsRecord P m → All (IsFound P m) m
unfolding get_key
IsRecord-IsFound P [] h = tt
IsRecord-IsFound P ((k, a) ∷ m) (once, pa, rest) = (
  (ap (λ t. if t then some a else get_key k m) (eq_refl k), pa),
  All-mono (λ p. IsFound-behind P k a m p once) m (IsRecord-IsFound P m rest),
)

set_key-absent :
    {A : Type 0} (j k : String) (a : A) (m : List (String × A))
    → get_key j m ≡ none
    → str_eq k j ≡ false
    → get_key j (set_key k a m) ≡ none
set_key-absent j k a m h differ =
    get_key-set j k a m ∙ ap (λ t. if t then some a else get_key j m) differ ∙ h

-- `record[k] = a` keeps a record.
pub IsRecord-set :
    {A : Type 0} (P : A → Type 0) (k : String) (a : A) (m : List (String × A))
    → P a
    → IsRecord P m
    → IsRecord P (set_key k a m)
unfolding set_key get_key
IsRecord-set P k a [] pa h = (refl, pa, tt)
IsRecord-set {A} P k a ((j, b) ∷ m) pa (once, pb, rest) =
    if_cases (λ (o : List (String × A)). IsRecord P o) (str_eq j k) {x = (j, a) ∷ m}
      {y = (j, b) ∷ set_key k a m} (λ same. (once, pa, rest))
      (λ differ. (
        set_key-absent j k a m once (ground (arith, differ, eq_iff j k, eq_iff k j)),
        pb,
        IsRecord-set P k a m pa rest,
      ))

-- What is found in a record, if anything, has what every value has.
pub IsRecord-get :
    {A : Type 0} (P : A → Type 0) (k : String) (m : List (String × A)) (a : A)
    → IsRecord P m
    → get_key k m ≡ some a
    → P a
IsRecord-get P k m a h found = (All-get_key (IsFound P m) m k a (IsRecord-IsFound P m h) found).1

-- Every name is the record's own, and `Own` holds of every value.
abbrev pub OwnBy : {A : Type 0} → (A → Type 0) → List (String × A) → Type 0
OwnBy Own m = All (λ p. (is_inherited p.0 ≡ false) × Own p.1) m

-- Two loops, one over each side, that push nothing only where the sides are the same.
pub record Compares {A D : Type 0} (P Own : A → Type 0) (R : A → A → Type 0)
    (expected : String → A → Option A → List D) (actual : String → A → Bool → List D) : Type 0 where
  pub misses : (k : String) (a : A) → expected k a none ≡ [] → ⊥
  pub refuses : (k : String) (b : A) → actual k b false ≡ [] → ⊥
  pub relates : (k : String) (a b : A) → Own b → expected k a (some b) ≡ [] → R a b
  pub accepts : (k : String) (a b : A) → P a → P b → R a b → expected k a (some b) ≡ []
  pub passes : (k : String) (b : A) → actual k b true ≡ []

module _ {A D : Type 0} (P Own : A → Type 0) (R : A → A → Type 0)
    (expected : String → A → Option A → List D) (actual : String → A → Bool → List D)
    (c : Compares P Own R expected actual) where
  same_at :
      (k : String) (o p : Option A)
      → ((b : A) → p ≡ some b → (is_inherited k ≡ false) × Own b)
      → ((a : A) → o ≡ some a → expected k a p ≡ [])
      → ((b : A) → p ≡ some b → actual k b (is_some o || is_inherited k) ≡ [])
      → SameOption R o p
  same_at k none none own f g = tt
  same_at k none (some b) own f g =
      c.refuses k b (subst (λ t. actual k b t ≡ []) (own b refl).0 (g b refl))
  same_at k (some a) none own f g = c.misses k a (f a refl)
  same_at k (some a) (some b) own f g = c.relates k a b (own b refl).1 (f a refl)

  pub Compares-same :
      (m n : List (String × A))
      → OwnBy Own n
      → each_entry expected m n ≡ []
      → each_tested actual n m ≡ []
      → SameBy R m n
  unfolding each_entry each_tested
  Compares-same m n own e1 e2 k =
      same_at k (get_key k m) (get_key k n) (λ b. All-get_key _ n k b own)
        (λ a. All-get_key _ m k a (each_of-empty (λ k a. expected k a (get_key k n)) m e1))
        (λ b. All-get_key _ n k b (each_of-empty (λ k b. actual k b (has_property k m)) n e2))

  accepted :
      (k : String) (a : A) (o p : Option A)
      → o ≡ some a
      → P a
      → ((b : A) → p ≡ some b → P b)
      → SameOption R o p
      → expected k a p ≡ []
  accepted k a none p h pa pb same = cc
  accepted k a (some x) none h pa pb same = absurd same
  accepted k a (some x) (some b) h pa pb same =
      let x_is_a : x ≡ a = cc in c.accepts k a b pa (pb b refl) (subst (λ y. R y b) x_is_a same)

  passed :
      (k : String) (b : A) (o p : Option A)
      → p ≡ some b
      → SameOption R o p
      → actual k b (is_some o || is_inherited k) ≡ []
  passed k b o none h same = cc
  passed k b none (some y) h same = absurd same
  passed k b (some a) (some y) h same = c.passes k b

  pub same-Compares :
      (m n : List (String × A))
      → IsRecord P m
      → IsRecord P n
      → SameBy R m n
      → (each_entry expected m n ≡ []) × (each_tested actual n m ≡ [])
  unfolding each_entry each_tested
  same-Compares m n hm hn same = (
    empty-each_of _ m (
        All-mono
          (λ p h.
            accepted p.0 p.1 (get_key p.0 m) (get_key p.0 n) h.0 h.1
              (λ b. IsRecord-get P p.0 n b hn) (same p.0))
          m (IsRecord-IsFound P m hm)),
    empty-each_of _ n (
        All-mono (λ p h. passed p.0 p.1 (get_key p.0 m) (get_key p.0 n) h.0 (same p.0)) n
          (IsRecord-IsFound P n hn)),
  )
