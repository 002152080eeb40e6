-- ===== src/Prelude/Dict.antt =====
-- A JavaScript `Map` with text keys: its entries in the order of insertion. A write to a key that is
-- there keeps its place.
use Prim.Native.String.{String}
use mathlib.Core.Path.{◌≡◌, refl}
use mathlib.Core.Option.{Option, none, some}
use mathlib.Core.List.{List, [], ◌∷◌}
use native.Mathlib.Omega.{arith}
use text.Mathlib.Text.{◌==◌}
use text.Mathlib.TextEquality.{eq_iff}
use verixa.Prelude.Tests.{if◌then◌else◌}

abbrev pub Dict {ℓ} : Type ℓ → Type ℓ
Dict V = List (String × V)

module _ {ℓ} {V : Type ℓ} where
  -- `Map.get`
  unfoldable pub get : String → Dict V → Option V
  get wanted [] = none
  get wanted ((key, value) ∷ entries) = if key == wanted then some value else get wanted entries

  -- `Map.set`
  unfoldable pub set : String → V → Dict V → Dict V
  set fresh value [] = (fresh, value) ∷ []
  set fresh value ((key, old) ∷ entries) =
      if key == fresh then (fresh, value) ∷ entries else (key, old) ∷ set fresh value entries

  pub get-set :
      (fresh wanted : String) (value : V) (entries : Dict V)
      → get wanted (set fresh value entries)
        ≡ (if fresh == wanted then some value else get wanted entries)
  unfolding set get
  get-set fresh wanted value [] = refl
  get-set fresh wanted value ((key, old) ∷ entries) = ground (
    arith,
    get-set fresh wanted value entries,
    eq_iff key fresh,
    eq_iff key wanted,
    eq_iff fresh wanted,
  )

  -- `[...map.values()]`
  abbrev pub values : Dict V → List V
  values [] = []
  values ((key, value) ∷ entries) = value ∷ values entries

  -- `Map.delete`. A key stands once in a map; every entry of it goes.
  unfoldable pub delete : String → Dict V → Dict V
  delete gone [] = []
  delete gone ((key, value) ∷ entries) =
      let rest = delete gone entries in if key == gone then rest else (key, value) ∷ rest

  pub get-delete :
      (gone wanted : String) (entries : Dict V)
      → get wanted (delete gone entries) ≡ (if gone == wanted then none else get wanted entries)
  unfolding delete get
  get-delete gone wanted [] = ground arith
  get-delete gone wanted ((key, value) ∷ entries) = ground (
    arith,
    get-delete gone wanted entries,
    eq_iff key gone,
    eq_iff key wanted,
    eq_iff gone wanted,
  )
