-- ===== src/Common/Dict/Laws.antt =====
-- What a lookup finds after each operation of a dictionary.
use agentserve.Common.Dict.{Dict, lookup, insert, erase, contains}
use agentserve.Common.Tests.{if◌then◌else◌, Option-cases}
use mathlib.Core.Bool.{true, false}
use mathlib.Core.List.{[], ◌∷◌}
use mathlib.Core.Logic.{inl, inr}
use mathlib.Core.Option.{none, some}
use mathlib.Core.Path.{◌≡◌, refl}
use native.Mathlib.Omega.{arith}
use Prim.Native.String.{String}
use text.Mathlib.Text.{◌==◌}
use text.Mathlib.TextEquality.{eq_iff}

module _ {ℓ} {V : Type ℓ} where
  pub lookup-insert :
      (k j : String) (v : V) (d : Dict V)
      → lookup j (insert k v d) ≡ (if k == j then some v else lookup j d)
  unfolding lookup insert
  lookup-insert k j v [] = refl
  lookup-insert k j v ((i, w) ∷ d) =
      ground (arith, eq_iff k j, eq_iff i k, eq_iff i j, lookup-insert k j v d)

  pub lookup-erase :
      (k j : String) (d : Dict V) → lookup j (erase k d) ≡ (if k == j then none else lookup j d)
  unfolding lookup erase
  lookup-erase k j [] = ground arith
  lookup-erase k j ((i, w) ∷ d) =
      ground (arith, eq_iff k j, eq_iff i k, eq_iff i j, lookup-erase k j d)

  pub contains-insert :
      (k j : String) (v : V) (d : Dict V)
      → contains j (insert k v d) ≡ (if k == j then true else contains j d)
  unfolding contains insert
  contains-insert k j v [] = refl
  contains-insert k j v ((i, w) ∷ d) =
      ground (arith, eq_iff k j, eq_iff i k, eq_iff i j, contains-insert k j v d)

  pub contains-insert_self : (k : String) (v : V) (d : Dict V) → contains k (insert k v d) ≡ true
  contains-insert_self k v d = rw contains-insert (ground (arith, eq_iff k k))

  pub contains-erase :
      (k j : String) (d : Dict V)
      → contains j (erase k d) ≡ (if k == j then false else contains j d)
  unfolding contains erase
  contains-erase k j [] = ground arith
  contains-erase k j ((i, w) ∷ d) =
      ground (arith, eq_iff k j, eq_iff i k, eq_iff i j, contains-erase k j d)

  pub contains_of_lookup :
      (k : String) (d : Dict V) (v : V) → lookup k d ≡ some v → contains k d ≡ true
  unfolding lookup contains
  contains_of_lookup k [] v h = ground arith
  contains_of_lookup k ((j, w) ∷ d) v h = ground (arith, contains_of_lookup k d v)

  pub lookup_of_not_contains : (k : String) (d : Dict V) → contains k d ≡ false → lookup k d ≡ none
  unfolding lookup contains
  lookup_of_not_contains k [] h = refl
  lookup_of_not_contains k ((j, w) ∷ d) h = ground (arith, lookup_of_not_contains k d)

  pub not_contains_of_lookup : (k : String) (d : Dict V) → lookup k d ≡ none → contains k d ≡ false
  unfolding lookup contains
  not_contains_of_lookup k [] h = refl
  not_contains_of_lookup k ((j, w) ∷ d) h = ground (arith, not_contains_of_lookup k d)

  pub lookup_of_contains :
      (k : String) (d : Dict V) → contains k d ≡ true → (v : V) × (lookup k d ≡ some v)
  lookup_of_contains k d h = elim (Option-cases (lookup k d)) [
    | inl missing ↦ absurd (ground (arith, not_contains_of_lookup k d missing))
    | inr found ↦ found
  ]

  pub erase_absent : (k : String) (d : Dict V) → contains k d ≡ false → erase k d ≡ d
  unfolding erase contains
  erase_absent k [] h = refl
  erase_absent k ((j, w) ∷ d) h = ground (arith, erase_absent k d)
