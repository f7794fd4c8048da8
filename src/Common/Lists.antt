-- ===== src/Common/Lists.antt =====
-- Lists over the native numbers, and predicates on lists by recursion.
use Prim.Native.Nat.{ℕ, suc, ◌+◌, ◌≤◌}
use mathlib.Core.Path.{◌≡◌}
use mathlib.Core.Bool.{Bool, true, false}
use Prim.Native.String
use Prim.Native.String.{String}
use text.Mathlib.Text.{◌==◌ as str_eq}
use text.Mathlib.TextEquality.{eq_iff}
use mathlib.Core.List.{List, [], ◌∷◌, ◌++◌}
use native.Mathlib.Omega.{arith}
use swift_agent.Common.Tests.{if◌then◌else◌}

module _ {ℓ} {A : Type ℓ} where
  abbrev pub length : List A → ℕ
  length [] = 0
  length (x ∷ xs) = suc (length xs)

  pub length-append : (xs ys : List A) → length (xs ++ ys) ≡ length xs + length ys
  length-append [] ys = omega arith
  length-append (x ∷ xs) ys = omega (arith, length-append xs ys)

  -- `Array.prototype.filter`, by a Boolean test.
  abbrev pub keep : (A → Bool) → List A → List A
  keep p [] = []
  keep p (x ∷ xs) = if p x then x ∷ keep p xs else keep p xs

  pub length-keep-le : (p : A → Bool) (xs : List A) → length (keep p xs) ≤ length xs
  length-keep-le p [] = omega arith
  length-keep-le p (x ∷ xs) = ground (arith, length-keep-le p xs)

  -- How many elements pass a test.
  abbrev pub count : (A → Bool) → List A → ℕ
  count p [] = 0
  count p (x ∷ xs) = (if p x then 1 else 0) + count p xs

  pub count-append : (p : A → Bool) (xs ys : List A) → count p (xs ++ ys) ≡ count p xs + count p ys
  count-append p [] ys = omega arith
  count-append p (x ∷ xs) ys = omega (arith, count-append p xs ys)

infixl 60 ◌<>◌
-- The concatenation of strings.
abbrev pub ◌<>◌ : String → String → String
◌<>◌ a b = String.◌++◌ a b

-- A `Set<string>`: `has`, `add` and `delete`.
abbrev pub has_string : String → List String → Bool
has_string x [] = false
has_string x (y ∷ ys) = if str_eq y x then true else has_string x ys

unfoldable pub add_string : String → List String → List String
add_string x ys = if has_string x ys then ys else ys ++ x ∷ []

unfoldable pub remove_string : String → List String → List String
remove_string x [] = []
remove_string x (y ∷ ys) = if str_eq y x then remove_string x ys else y ∷ remove_string x ys

has_string-append_self : (x : String) (ys : List String) → has_string x (ys ++ x ∷ []) ≡ true
has_string-append_self x [] = ground (arith, eq_iff x x)
has_string-append_self x (y ∷ ys) = ground (arith, has_string-append_self x ys)

has_string-append_of :
    (x z : String) (ys : List String) → has_string x ys ≡ true → has_string x (ys ++ z ∷ []) ≡ true
has_string-append_of x z [] h = cc
has_string-append_of x z (y ∷ ys) h = ground (arith, has_string-append_of x z ys)

pub has_string-add_self : (x : String) (ys : List String) → has_string x (add_string x ys) ≡ true
unfolding add_string
has_string-add_self x ys = ground (arith, has_string-append_self x ys)

pub has_string-add_of :
    (x z : String) (ys : List String)
    → has_string x ys ≡ true
    → has_string x (add_string z ys) ≡ true
unfolding add_string
has_string-add_of x z ys h = ground (arith, has_string-append_of x z ys)

pub has_string-remove_of :
    (x z : String) (ys : List String)
    → str_eq z x ≡ false
    → has_string x ys ≡ true
    → has_string x (remove_string z ys) ≡ true
unfolding remove_string
has_string-remove_of x z [] n h = h
has_string-remove_of x z (y ∷ ys) n h =
    ground (arith, has_string-remove_of x z ys n, eq_iff y x, eq_iff y z, eq_iff z x)

module _ {ℓ κ} {A : Type ℓ} (P : A → Type κ) where
  abbrev pub All : List A → Type κ
  All [] = Unit
  All (x ∷ xs) = P x × All xs

  pub All-append : (xs ys : List A) → All xs → All ys → All (xs ++ ys)
  All-append [] ys h k = k
  All-append (x ∷ xs) ys (p, h) k = (p, All-append xs ys h k)

module _ {ℓ κ μ} {A : Type ℓ} {P : A → Type κ} {Q : A → Type μ} (f : (a : A) → P a → Q a) where
  pub All-mono : (xs : List A) → All P xs → All Q xs
  All-mono [] h = tt
  All-mono (x ∷ xs) (p, h) = (f x p, All-mono xs h)
