-- ===== src/Result.antt =====
-- Go's `error`, and actions that change a state and may return an error.
-- An error is one of the sentinels of internal/store/store.go, a text, or a text around another
-- error (`fmt.Errorf("...: %w", err)`), or an error followed by a text (`fmt.Errorf("%w: %v", ...)`).
use Prim.Native.String.{◌++◌}
use gslb.Prelude.{String, Bool, true, false, ◌≡◌, refl, ◌⊎◌, inl, inr}

pub data GoError : Type 0 where
  not_found already_exists foreign_key_violation : GoError
  message : String → GoError
  wrapped : String → GoError → GoError
  annotated : GoError → String → GoError

-- `err == store.ErrNotFound`: a comparison of values, which does not look into a wrapped error.
abbrev pub is_not_found : GoError → Bool
is_not_found not_found = true
is_not_found _ = false

-- `err.Error()`
unfoldable pub error_text : GoError → String
error_text not_found = "record not found"
error_text already_exists = "record already exists"
error_text foreign_key_violation = "foreign key violation"
error_text (message s) = s
error_text (wrapped s e) = s ++ (": " ++ error_text e)
error_text (annotated e s) = error_text e ++ (": " ++ s)

pub data Result {ℓ} (A : Type ℓ) : Type ℓ where
  ok : A → Result A
  err : GoError → Result A

abbrev pub is_ok {ℓ} : {A : Type ℓ} → Result A → Bool
is_ok (ok a) = true
is_ok (err e) = false

-- An action on a state `S`. What it changed before an error stays changed.
abbrev pub Exec {ℓ} : Type ℓ → Type ℓ → Type ℓ
Exec S A = S → Result A × S

module _ {ℓ} {S A : Type ℓ} where
  abbrev pub pure : A → Exec S A
  pure a s = (ok a, s)

  abbrev pub fail : GoError → Exec S A
  fail e s = (err e, s)

  -- `if err != nil { return fmt.Errorf("...: %w", err) }`
  abbrev pub context : String → Exec S A → Exec S A
  context text m s = elim (m s).0 [
    | ok a ↦ (ok a, (m s).1)
    | err e ↦ (err (wrapped text e), (m s).1)
  ]

module _ {ℓ} {S A B : Type ℓ} where
  abbrev pub continue : Result A → (A → Exec S B) → Exec S B
  continue (ok a) f s = f a s
  continue (err e) f s = (err e, s)

  infixl 5 ◌>>=◌
  abbrev pub ◌>>=◌ : Exec S A → (A → Exec S B) → Exec S B
  ◌>>=◌ m f s = continue (m s).0 f (m s).1

pub Result-cases {ℓ} :
    {A : Type ℓ} (r : Result A) → ((a : A) × (r ≡ ok a)) ⊎ ((e : GoError) × (r ≡ err e))
Result-cases (ok a) = inl (a, refl)
Result-cases (err e) = inr (e, refl)
