-- ===== src/Db/Table.antt =====
-- UPDATE … SET … WHERE … on a table held as a list of rows.
use swift_agent.Common.{Bool, List, [], ◌∷◌, All, if◌then◌else◌}

module _ {ℓ} {R : Type ℓ} (hit : R → Bool) (set : R → R) where
  unfoldable pub update_where : List R → List R
  update_where [] = []
  update_where (r ∷ rs) = (if hit r then set r else r) ∷ update_where rs

  -- The rows that come back from RETURNING, as they are after the update.
  unfoldable pub returning : List R → List R
  returning [] = []
  returning (r ∷ rs) = if hit r then set r ∷ returning rs else returning rs

  pub All-update_where {κ μ} :
      (P : R → Type κ) (Q : R → Type μ) (rs : List R)
      → ((r : R) → P r → Q (if hit r then set r else r))
      → All P rs
      → All Q (update_where rs)
  unfolding update_where
  All-update_where P Q [] f h = tt
  All-update_where P Q (r ∷ rs) f (p, h) = (f r p, All-update_where P Q rs f h)
