-- ===== src/Common/Texts.antt =====
-- `startsWith` and `slice(n)` on texts: the positions are those of characters of one byte.
use Prim.Native.Nat.{ℕ, ◌+◌, suc, compare}
use Prim.Native.String.{String, len, slice, find}
use mathlib.Core.Path.{◌≡◌, refl, subst, sym, ap, ◌∙◌}
use mathlib.Core.Logic.{◌⊎◌, inl, inr}
use mathlib.Core.Bool.{Bool, true, false}
use native.Mathlib.Omega.{arith}
use text.Mathlib.TextLemmas.{append_assoc}
use mathlib.Core.Option.{Option, some}
use text.Mathlib.Text.{find?, when, is_le}
use text.Mathlib.TextFind.{Hit, find_cases}
use text.Mathlib.TextPositions.{len-append, slice-append_left, slice-append_right}
use swift_agent.Common.Lists.{◌<>◌}

-- `text.slice(n)`, where the first n characters have one byte each.
unfoldable pub text_from : ℕ → String → String
text_from n s = slice s n (len s)

pub text_from-append : (s t : String) → text_from (len s) (s <> t) ≡ t
unfolding text_from
text_from-append s t = ap (λ n. slice (s <> t) (len s) n) (len-append s t) ∙ slice-append_right s t

-- `Buffer.byteLength(text, 'utf-8')`
abbrev pub byte_length : String → ℕ
byte_length = len

-- Two texts that begin with texts of one length are the same only where both parts are.
pub split_same : (s t u v : String) → len s ≡ len u → s <> t ≡ u <> v → (s ≡ u) × (t ≡ v)
split_same s t u v same h = (
  sym (slice-append_left s t)
      ∙ ap (λ n. slice (s <> t) 0 n) same
      ∙ ap (λ x. slice x 0 (len u)) h
      ∙ slice-append_left u v,
  sym (text_from-append s t)
      ∙ ap (λ n. text_from n (s <> t)) same
      ∙ ap (text_from (len u)) h
      ∙ text_from-append u v,
)

-- `indexOf`, and `none` for -1.
unfoldable pub index_of : String → String → Option ℕ
index_of s t = find? s t

when-some : {A : Type 0} (b : Bool) (x y : A) → when b x ≡ some y → (b ≡ true) × (x ≡ y)
when-some true x y h = (refl, cc)
when-some false x y h = cc

beyond : (n : ℕ) → is_le (compare (suc n) n) ≡ true → ⊥
beyond n h = ground (arith, h)

text_from-middle : (u t v : String) → text_from (len u + len t) (u <> (t <> v)) ≡ v
text_from-middle u t v =
    ap (λ n. text_from n (u <> (t <> v))) (sym (len-append u t))
    ∙ ap (text_from (len (u <> t))) (sym (append_assoc u t v))
    ∙ text_from-append (u <> t) v

-- What stands before and after the text that `indexOf` finds.
pub index_of-found :
    (s t : String) (i : ℕ)
    → index_of s t ≡ some i
    → slice s 0 i <> (t <> text_from (i + len t) s) ≡ s
unfolding index_of
index_of-found s t i h = go (find_cases s t)
  where
    go : Hit s t ⊎ (find s t ≡ suc (len s)) → slice s 0 i <> (t <> text_from (i + len t) s) ≡ s
    go (inl (u, v, parts, at)) =
        let (fits, here) = when-some (is_le (compare (find s t) (len s))) (find s t) i h in
        subst (λ n. slice s 0 n <> (t <> text_from (n + len t) s) ≡ s) (sym at ∙ here)
          (subst (λ x. slice x 0 (len u) <> (t <> text_from (len u + len t) x) ≡ x) (sym parts)
            (ap (λ a. a <> (t <> text_from (len u + len t) (u <> (t <> v))))
                (slice-append_left u (t <> v))
              ∙ ap (λ b. u <> (t <> b)) (text_from-middle u t v)))
    go (inr miss) =
        let (fits, here) = when-some (is_le (compare (find s t) (len s))) (find s t) i h in
        absurd (beyond (len s) (sym (ap (λ n. is_le (compare n (len s))) miss) ∙ fits))
