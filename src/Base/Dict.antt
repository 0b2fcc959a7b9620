-- ===== src/Base/Dict.antt =====
-- Go's `map[string]V`. The program never depends on the order in which a map is iterated, so a map
-- is an association list; `insert` overwrites in place.
use Prim.Native.String.{String}
use mathlib.Core.Path.{◌≡◌, refl}
use mathlib.Core.List.{List, [], ◌∷◌}
use mathlib.Core.Option.{Option, none, some}
use native.Mathlib.Omega.{arith}
use text.Mathlib.Text.{◌==◌}
use text.Mathlib.TextEquality.{eq_iff}
use enterprise_llm_tracker.Base.Tests.{if◌then◌else◌}

abbrev pub Dict {ℓ} : Type ℓ → Type ℓ
Dict V = List (String × V)

module _ {ℓ} {V : Type ℓ} where
  unfoldable pub lookup : String → Dict V → Option V
  lookup key [] = none
  lookup key (entry ∷ rest) = if entry.0 == key then some entry.1 else lookup key rest

  unfoldable pub insert : String → V → Dict V → Dict V
  insert key value [] = (key, value) ∷ []
  insert key value (entry ∷ rest) =
      if entry.0 == key then (key, value) ∷ rest else entry ∷ insert key value rest

  -- what is found after an insertion
  pub lookup-insert :
      (key asked : String) (value : V) (entries : Dict V)
      → lookup asked (insert key value entries)
        ≡ (if key == asked then some value else lookup asked entries)
  unfolding lookup insert
  lookup-insert key asked value [] = refl
  lookup-insert key asked value (entry ∷ rest) =
      let (held, _) = entry in
      ground (
        arith,
        eq_iff key asked,
        eq_iff held key,
        eq_iff held asked,
        lookup-insert key asked value rest,
      )

  -- `m[k]`: the zero value on a missing key
  abbrev pub at : V → String → Dict V → V
  at zero_value k m = elim (lookup k m) [ none ↦ zero_value | some v ↦ v ]
