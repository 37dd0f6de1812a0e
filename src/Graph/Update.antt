-- ===== src/Graph/Update.antt =====
-- Reading an array behind a write.
use operating_system_challen.Base.{ℕ, ◌≡◌, ◌≢◌, arith}
use operating_system_challen.Graph.Code.{update}

module _ {A : Type 0} where
  pub update_at : (a : ℕ → A) (v : ℕ) (x : A) (u : ℕ) → u ≡ v → update a v x u ≡ x
  unfolding update
  update_at a v x u e = ground arith

  pub update_other : (a : ℕ → A) (v : ℕ) (x : A) (u : ℕ) → u ≢ v → update a v x u ≡ a u
  unfolding update
  update_other a v x u e = ground arith
