-- ===== src/Store/Rows/Keys.antt =====
-- The constraints UNIQUE and FOREIGN KEY under the statements that change rows.
use gslb.Prelude.{
  String, Bool, true, false, ◌&&◌, not, ◌≡◌, refl, ◌∙◌, List, [], ◌∷◌, str_eq, eq_iff, arith,
}
use gslb.Store.Rows.{exists_by, update_by, delete_by, has_key, is_distinct, refers}

module _ {A : Type 0} where
  -- A test that an update leaves as it is on each row passes on the same rows.
  pub exists_by-update_by :
      (q p : A → Bool) (f : A → A) (rows : List A)
      → ((r : A) → q (f r) ≡ q r)
      → exists_by q (update_by p f rows) ≡ exists_by q rows
  unfolding exists_by update_by
  exists_by-update_by q p f [] h = refl
  exists_by-update_by q p f (r ∷ rest) h = ground (arith, h r, exists_by-update_by q p f rest h)

  -- What is left after a deletion was there.
  pub exists_by-delete_by :
      (q p : A → Bool) (rows : List A)
      → exists_by q rows ≡ false
      → exists_by q (delete_by p rows) ≡ false
  unfolding exists_by delete_by
  exists_by-delete_by q p [] h = refl
  exists_by-delete_by q p (r ∷ rest) h = ground (arith, h, exists_by-delete_by q p rest)

  -- A row that the deletion does not concern is still there.
  pub exists_by-delete_by_other :
      (q p : A → Bool) (rows : List A)
      → ((r : A) → q r ≡ true → p r ≡ false)
      → exists_by q (delete_by p rows) ≡ exists_by q rows
  unfolding exists_by delete_by
  exists_by-delete_by_other q p [] h = refl
  exists_by-delete_by_other q p (r ∷ rest) h =
      ground (arith, h r, exists_by-delete_by_other q p rest h)

  pub exists_by-delete_by_self :
      (p : A → Bool) (rows : List A) → exists_by p (delete_by p rows) ≡ false
  unfolding exists_by delete_by
  exists_by-delete_by_self p [] = refl
  exists_by-delete_by_self p (r ∷ rest) = ground (arith, exists_by-delete_by_self p rest)

  pub is_distinct-delete_by :
      (key : A → String) (p : A → Bool) (rows : List A)
      → is_distinct key rows ≡ true
      → is_distinct key (delete_by p rows) ≡ true
  unfolding is_distinct delete_by
  is_distinct-delete_by key p [] h = refl
  is_distinct-delete_by key p (r ∷ rest) h =
      ground (
        arith,
        h,
        is_distinct-delete_by key p rest,
        exists_by-delete_by (has_key key (key r)) p rest,
      )

  pub is_distinct-update_by :
      (key : A → String) (p : A → Bool) (f : A → A) (rows : List A)
      → ((r : A) → key (f r) ≡ key r)
      → is_distinct key (update_by p f rows) ≡ is_distinct key rows
  unfolding is_distinct update_by
  is_distinct-update_by key p f [] h = refl
  is_distinct-update_by key p f (r ∷ rest) h = ground (
    arith,
    h r,
    is_distinct-update_by key p f rest h,
    exists_by-update_by (has_key key (key r)) p f rest (λ q. rw (h q) refl),
    exists_by-update_by (has_key key (key (f r))) p f rest (λ q. rw (h q) refl),
  )

  -- An update of no row.
  pub update_by-none :
      (p : A → Bool) (f : A → A) (rows : List A)
      → exists_by p rows ≡ false
      → update_by p f rows ≡ rows
  unfolding exists_by update_by
  update_by-none p f [] h = refl
  update_by-none p f (r ∷ rest) h = ground (arith, h, update_by-none p f rest)

  -- An update that writes a value into a column leaves every other value as absent as it was.
  exists_by-update_by_value :
      (key : A → String) (p : A → Bool) (f : A → A) (new k : String) (rows : List A)
      → ((r : A) → key (f r) ≡ new)
      → str_eq new k ≡ false
      → exists_by (has_key key k) rows ≡ false
      → exists_by (has_key key k) (update_by p f rows) ≡ false
  unfolding exists_by update_by
  exists_by-update_by_value key p f new k [] h n e = refl
  exists_by-update_by_value key p f new k (r ∷ rest) h n e =
      ground (arith, h r, n, e, exists_by-update_by_value key p f new k rest h n)

  -- A value that only the row of an id has is absent where that id is.
  exists_by_elsewhere :
      (id key : A → String) (k new : String) (rows : List A)
      → exists_by (has_key id k) rows ≡ false
      → exists_by (λ r. str_eq (key r) new && not (str_eq (id r) k)) rows ≡ false
      → exists_by (has_key key new) rows ≡ false
  unfolding exists_by
  exists_by_elsewhere id key k new [] h e = refl
  exists_by_elsewhere id key k new (r ∷ rest) h e =
      ground (arith, h, e, exists_by_elsewhere id key k new rest)

  -- A unique column stays unique when the row of an id gets a value that no other row has.
  pub is_distinct-update_by_id :
      (id key : A → String) (k new : String) (f : A → A) (rows : List A)
      → ((r : A) → key (f r) ≡ new)
      → is_distinct id rows ≡ true
      → is_distinct key rows ≡ true
      → exists_by (λ r. str_eq (key r) new && not (str_eq (id r) k)) rows ≡ false
      → is_distinct key (update_by (has_key id k) f rows) ≡ true
  unfolding is_distinct update_by exists_by
  is_distinct-update_by_id id key k new f [] h i d e = refl
  is_distinct-update_by_id id key k new f (r ∷ rest) h i d e = ground (
    arith,
    h r,
    i,
    d,
    e,
    eq_iff (id r) k,
    eq_iff (key r) new,
    eq_iff new (key r),
    is_distinct-update_by_id id key k new f rest h,
    update_by-none (has_key id k) f rest,
    exists_by-update_by_value key (has_key id k) f new (key r) rest h,
    exists_by_elsewhere id key k new rest,
  )

module _ {A B : Type 0} (foreign : A → String) (key : B → String) where
  -- References stay good when rows go, when the parents keep their keys, and when a parent comes.
  pub refers-delete_by :
      (p : A → Bool) (parents : List B) (rows : List A)
      → refers foreign key parents rows ≡ true
      → refers foreign key parents (delete_by p rows) ≡ true
  unfolding refers delete_by
  refers-delete_by p parents [] h = refl
  refers-delete_by p parents (r ∷ rest) h = ground (arith, h, refers-delete_by p parents rest)

  pub refers-parents :
      (old new : List B) (rows : List A)
      → ((k : String) → exists_by (has_key key k) old ≡ true → exists_by (has_key key k) new ≡ true)
      → refers foreign key old rows ≡ true
      → refers foreign key new rows ≡ true
  unfolding refers
  refers-parents old new [] m h = refl
  refers-parents old new (r ∷ rest) m h =
      ground (arith, h, m (foreign r), refers-parents old new rest m)

  -- Rows that an update keeps in their place, or points to a parent that is there.
  pub refers-update_by :
      (p : A → Bool) (f : A → A) (parents : List B) (rows : List A)
      → ((r : A)
          → exists_by (has_key key (foreign r)) parents ≡ true
          → exists_by (has_key key (foreign (f r))) parents ≡ true)
      → refers foreign key parents rows ≡ true
      → refers foreign key parents (update_by p f rows) ≡ true
  unfolding refers update_by
  refers-update_by p f parents [] m h = refl
  refers-update_by p f parents (r ∷ rest) m h =
      ground (arith, h, m r, refers-update_by p f parents rest m)

  -- ON DELETE CASCADE: the rows whose parents go, go with them.
  pub refers_cascade :
      (gone : B → Bool) (lost : A → Bool) (parents : List B) (rows : List A)
      → ((r : A)
          → exists_by (has_key key (foreign r)) parents ≡ true
          → lost r ≡ false
          → exists_by (has_key key (foreign r)) (delete_by gone parents) ≡ true)
      → refers foreign key parents rows ≡ true
      → refers foreign key (delete_by gone parents) (delete_by lost rows) ≡ true
  unfolding refers delete_by
  refers_cascade gone lost parents [] m h = refl
  refers_cascade gone lost parents (r ∷ rest) m h =
      ground (arith, h, m r, refers_cascade gone lost parents rest m)

  -- A parent that comes, and an update of the parents that leaves their keys.
  pub refers-parent :
      (parent : B) (parents : List B) (rows : List A)
      → refers foreign key parents rows ≡ true
      → refers foreign key (parent ∷ parents) rows ≡ true
  unfolding exists_by
  refers-parent parent parents rows h = refers-parents parents (parent ∷ parents) rows grown h
    where
      grown :
          (k : String)
          → exists_by (has_key key k) parents ≡ true
          → exists_by (has_key key k) (parent ∷ parents) ≡ true
      grown k e = ground (arith, e)

  pub refers-parents_updated :
      (p : B → Bool) (f : B → B) (parents : List B) (rows : List A)
      → ((r : B) → key (f r) ≡ key r)
      → refers foreign key parents rows ≡ true
      → refers foreign key (update_by p f parents) rows ≡ true
  refers-parents_updated p f parents rows kept h =
      refers-parents parents (update_by p f parents) rows
        (λ k e. exists_by-update_by (has_key key k) p f parents (λ r. rw (kept r) refl) ∙ e) h
