-- ===== src/Common/Assoc.antt =====
-- `Map<string, T>` as an association list: `get`, `set` and `delete`.
use Prim.Native.String.{String}
use mathlib.Core.Path.{◌≡◌, refl}
use mathlib.Core.Bool.{false}
use mathlib.Core.Option.{Option, none, some}
use mathlib.Core.List.{List, [], ◌∷◌}
use text.Mathlib.Text.{◌==◌ as str_eq}
use text.Mathlib.TextEquality.{eq_iff}
use native.Mathlib.Omega.{arith}
use swift_agent.Common.Tests.{if◌then◌else◌}

module _ {ℓ} {A : Type ℓ} where
  unfoldable pub get_key : String → List (String × A) → Option A
  get_key key [] = none
  get_key key ((k, a) ∷ m) = if str_eq k key then some a else get_key key m

  unfoldable pub set_key : String → A → List (String × A) → List (String × A)
  set_key key a [] = (key, a) ∷ []
  set_key key a ((k, b) ∷ m) = if str_eq k key then (k, a) ∷ m else (k, b) ∷ set_key key a m

  unfoldable pub delete_key : String → List (String × A) → List (String × A)
  delete_key key [] = []
  delete_key key ((k, b) ∷ m) = if str_eq k key then delete_key key m else (k, b) ∷ delete_key key m

  pub get_key-nil : (key : String) → get_key key [] ≡ none
  unfolding get_key
  get_key-nil key = refl

  pub get_key-set_same :
      (key : String) (a : A) (m : List (String × A)) → get_key key (set_key key a m) ≡ some a
  unfolding get_key set_key
  get_key-set_same key a [] = ground (arith, eq_iff key key)
  get_key-set_same key a ((k, b) ∷ m) = ground (arith, get_key-set_same key a m)

  pub get_key-set_other :
      (key other : String) (a : A) (m : List (String × A))
      → str_eq other key ≡ false
      → get_key key (set_key other a m) ≡ get_key key m
  unfolding get_key set_key
  get_key-set_other key other a [] n = ground (arith, n)
  get_key-set_other key other a ((k, b) ∷ m) n =
      ground (
        arith,
        n,
        get_key-set_other key other a m n,
        eq_iff k key,
        eq_iff k other,
        eq_iff other key,
      )

  pub get_key-delete_same :
      (key : String) (m : List (String × A)) → get_key key (delete_key key m) ≡ none
  unfolding get_key delete_key
  get_key-delete_same key [] = refl
  get_key-delete_same key ((k, b) ∷ m) = ground (arith, get_key-delete_same key m)

  pub get_key-delete_other :
      (key other : String) (m : List (String × A))
      → str_eq other key ≡ false
      → get_key key (delete_key other m) ≡ get_key key m
  unfolding get_key delete_key
  get_key-delete_other key other [] n = refl
  get_key-delete_other key other ((k, b) ∷ m) n =
      ground (
        arith,
        n,
        get_key-delete_other key other m n,
        eq_iff k key,
        eq_iff k other,
        eq_iff other key,
      )

  pub get_key-set :
      (key other : String) (a : A) (m : List (String × A))
      → get_key key (set_key other a m) ≡ (if str_eq other key then some a else get_key key m)
  unfolding get_key set_key
  get_key-set key other a [] = ground (arith, eq_iff other key)
  get_key-set key other a ((k, b) ∷ m) =
      ground (arith, get_key-set key other a m, eq_iff k key, eq_iff k other, eq_iff other key)

  pub get_key-delete :
      (key other : String) (m : List (String × A))
      → get_key key (delete_key other m) ≡ (if str_eq other key then none else get_key key m)
  unfolding get_key delete_key
  get_key-delete key other [] = ground (arith, eq_iff other key)
  get_key-delete key other ((k, b) ∷ m) =
      ground (arith, get_key-delete key other m, eq_iff k key, eq_iff k other, eq_iff other key)
