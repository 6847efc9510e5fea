-- ===== src/Common/Dict.antt =====
-- Python's `dict` and `OrderedDict` with text keys: an association list in insertion order.
pub mod Laws
pub mod Keys
use Prim.Native.String.{String}
use mathlib.Core.Bool.{Bool, true, false}
use mathlib.Core.List.{List, [], ◌∷◌}
use mathlib.Core.Option.{Option, none, some}
use text.Mathlib.Text.{◌==◌}
use agentserve.Common.Tests.{if◌then◌else◌}

abbrev pub Dict {ℓ} : Type ℓ → Type ℓ
Dict V = List (String × V)

module _ {ℓ} {V : Type ℓ} where
  -- `d.get(k)`
  unfoldable pub lookup : String → Dict V → Option V
  lookup k [] = none
  lookup k ((j, v) ∷ d) = if j == k then some v else lookup k d

  -- `d[k] = v`: a key that is there keeps its place, a new one goes to the end.
  unfoldable pub insert : String → V → Dict V → Dict V
  insert k v [] = (k, v) ∷ []
  insert k v ((j, w) ∷ d) = let rest = insert k v d in if j == k then (k, v) ∷ d else (j, w) ∷ rest

  -- `d.pop(k, None)`, and `del d[k]` where the key is there.
  unfoldable pub erase : String → Dict V → Dict V
  erase k [] = []
  erase k ((j, v) ∷ d) = let rest = erase k d in if j == k then rest else (j, v) ∷ rest

  -- `d.values()`
  unfoldable pub values : Dict V → List V
  values [] = []
  values ((j, v) ∷ d) = v ∷ values d

  -- `k in d`
  unfoldable pub contains : String → Dict V → Bool
  contains k [] = false
  contains k ((j, v) ∷ d) = if j == k then true else contains k d
