-- ===== src/Base/Tables.antt =====
-- Arrays and files of records as functions of the index.
use hcfs.Base.{ℕ, ◌==◌, if◌then◌else◌}

module _ {ℓ} {A : Type ℓ} where
  abbrev pub update : (ℕ → A) → ℕ → A → ℕ → A
  update f i v j = if i == j then v else f j
