-- ===== src/Store/Rows/Reads.antt =====
-- What the queries find after the statements that change rows.
use gslb.Prelude.{Bool, true, false, ◌≡◌, refl, none, some, List, [], ◌∷◌, filter_by, arith}
use gslb.Store.Rows.{find_by, exists_by, update_by, delete_by}

module _ {A : Type 0} where
  pub find_by-delete_by_self : (p : A → Bool) (rows : List A) → find_by p (delete_by p rows) ≡ none
  unfolding find_by delete_by
  find_by-delete_by_self p [] = refl
  find_by-delete_by_self p (r ∷ rest) = ground (arith, find_by-delete_by_self p rest)

  pub find_by-delete_by_other :
      (q p : A → Bool) (rows : List A)
      → ((r : A) → q r ≡ true → p r ≡ false)
      → find_by q (delete_by p rows) ≡ find_by q rows
  unfolding find_by delete_by
  find_by-delete_by_other q p [] h = refl
  find_by-delete_by_other q p (r ∷ rest) h = ground (arith, h r, find_by-delete_by_other q p rest h)

  pub filter_by-delete_by_self :
      (p : A → Bool) (rows : List A) → filter_by p (delete_by p rows) ≡ []
  unfolding filter_by delete_by
  filter_by-delete_by_self p [] = refl
  filter_by-delete_by_self p (r ∷ rest) = ground (arith, filter_by-delete_by_self p rest)

  pub filter_by-delete_by_other :
      (q p : A → Bool) (rows : List A)
      → ((r : A) → q r ≡ true → p r ≡ false)
      → filter_by q (delete_by p rows) ≡ filter_by q rows
  unfolding filter_by delete_by
  filter_by-delete_by_other q p [] h = refl
  filter_by-delete_by_other q p (r ∷ rest) h =
      ground (arith, h r, filter_by-delete_by_other q p rest h)

  -- The row that a query finds passes its test; a row that passes is found, if not before others.
  pub find_by-true : (p : A → Bool) (rows : List A) (r : A) → find_by p rows ≡ some r → p r ≡ true
  unfolding find_by
  find_by-true p [] r h = ground (arith, h)
  find_by-true p (q ∷ rest) r h = ground (arith, h, find_by-true p rest r)

  pub find_by-update_by :
      (p : A → Bool) (f : A → A) (rows : List A)
      → ((r : A) → p (f r) ≡ p r)
      → find_by p (update_by p f rows) ≡ elim (find_by p rows) [ none ↦ none | some r ↦ some (f r) ]
  unfolding find_by update_by
  find_by-update_by p f [] h = refl
  find_by-update_by p f (r ∷ rest) h = ground (arith, h r, find_by-update_by p f rest h)

  pub find_by-exists_by :
      (p : A → Bool) (rows : List A) → find_by p rows ≡ none → exists_by p rows ≡ false
  unfolding find_by exists_by
  find_by-exists_by p [] h = refl
  find_by-exists_by p (r ∷ rest) h = ground (arith, h, find_by-exists_by p rest)

  pub find_by-present :
      (p : A → Bool) (rows : List A) (r : A) → find_by p rows ≡ some r → exists_by p rows ≡ true
  unfolding find_by exists_by
  find_by-present p [] r h = ground (arith, h)
  find_by-present p (q ∷ rest) r h = ground (arith, h, find_by-present p rest r)
