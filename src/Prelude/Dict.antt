-- ===== src/Prelude/Dict.antt =====
-- A Go map with text keys: an association list. A write replaces the entry in its place, and a
-- delete drops it. The order stands for the order of one iteration, which Go leaves open.
use Prim.Native.String.{String}
use mathlib.Core.Path.{◌≡◌, refl}
use mathlib.Core.Option.{Option, none, some}
use mathlib.Core.List.{List, [], ◌∷◌}
use native.Mathlib.Omega.{arith}
use text.Mathlib.Text.{◌==◌ as str_eq}
use text.Mathlib.TextEquality.{eq_iff}
use gslb.Prelude.Tests.{if◌then◌else◌}

abbrev pub Dict {ℓ} : Type ℓ → Type ℓ
Dict V = List (String × V)

module _ {ℓ} {V : Type ℓ} where
  unfoldable pub lookup : String → Dict V → Option V
  lookup k [] = none
  lookup k ((j, v) ∷ m) = if str_eq j k then some v else lookup k m

  unfoldable pub insert : String → V → Dict V → Dict V
  insert k v [] = (k, v) ∷ []
  insert k v ((j, w) ∷ m) = if str_eq j k then (k, v) ∷ m else (j, w) ∷ insert k v m

  unfoldable pub delete : String → Dict V → Dict V
  delete k [] = []
  delete k ((j, w) ∷ m) = let rest = delete k m in if str_eq j k then rest else (j, w) ∷ rest

  -- A read after a write sees the written value at its key, and what was there at every other key.
  pub lookup-insert :
      (written read : String) (v : V) (dict : Dict V)
      → lookup read (insert written v dict)
        ≡ (if str_eq written read then some v else lookup read dict)
  unfolding lookup insert
  lookup-insert written read v [] = refl
  lookup-insert written read v ((key, old) ∷ rest) = ground (
    arith,
    lookup-insert written read v rest,
    eq_iff key written,
    eq_iff key read,
    eq_iff written read,
  )

  pub lookup-delete :
      (deleted read : String) (dict : Dict V)
      → lookup read (delete deleted dict) ≡ (if str_eq deleted read then none else lookup read dict)
  unfolding lookup delete
  lookup-delete deleted read [] = ground arith
  lookup-delete deleted read ((key, old) ∷ rest) = ground (
    arith,
    lookup-delete deleted read rest,
    eq_iff key deleted,
    eq_iff key read,
    eq_iff deleted read,
  )
