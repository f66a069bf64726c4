-- ===== src/Store/Rows.antt =====
-- The rows of a table of internal/db/migrations.go as a list, and the statements on them: the tests
-- of a `WHERE`, the columns with the constraints UNIQUE and FOREIGN KEY.
pub mod Keys
pub mod Reads
use gslb.Prelude.{
  String, Bool, true, false, ◌&&◌, ◌||◌, not, Option, none, some, List, [], ◌∷◌, str_eq,
  if◌then◌else◌,
}

module _ {A : Type 0} where
  -- `QueryRow`: the first row that passes.
  unfoldable pub find_by : (A → Bool) → List A → Option A
  find_by p [] = none
  find_by p (r ∷ rest) = if p r then some r else find_by p rest

  unfoldable pub exists_by : (A → Bool) → List A → Bool
  exists_by p [] = false
  exists_by p (r ∷ rest) = p r || exists_by p rest

  -- `UPDATE ... WHERE`
  unfoldable pub update_by : (A → Bool) → (A → A) → List A → List A
  update_by p f [] = []
  update_by p f (r ∷ rest) = (if p r then f r else r) ∷ update_by p f rest

  -- `DELETE ... WHERE`
  unfoldable pub delete_by : (A → Bool) → List A → List A
  delete_by p [] = []
  delete_by p (r ∷ rest) = let others = delete_by p rest in if p r then others else r ∷ others

  -- Whether the row has this key.
  abbrev pub has_key : (A → String) → String → A → Bool
  has_key key k r = str_eq (key r) k

  -- A column is UNIQUE.
  unfoldable pub is_distinct : (A → String) → List A → Bool
  is_distinct key [] = true
  is_distinct key (r ∷ rest) = not (exists_by (has_key key (key r)) rest) && is_distinct key rest

-- The column `foreign` REFERENCES the column `key` of the parents.
unfoldable pub refers : {A B : Type 0} → (A → String) → (B → String) → List B → List A → Bool
refers foreign key parents [] = true
refers foreign key parents (r ∷ rest) =
    exists_by (has_key key (foreign r)) parents && refers foreign key parents rest
