-- ===== src/Common/Dict/Keys.antt =====
-- Dictionaries with distinct keys: what their operations do to a sum over the values, to the number
-- of entries, and to a property of all entries.
use agentserve.Common.Dict.{Dict, lookup, insert, erase, values, contains}
use agentserve.Common.Dict.Laws.{contains-insert, contains-erase, contains_of_lookup, erase_absent}
use agentserve.Common.Lists.{length, sum_by, All}
use agentserve.Common.Tests.{if◌then◌else◌, Bool-cases}
use mathlib.Core.Bool.{true, false}
use mathlib.Core.List.Perm
use mathlib.Core.List.{[], ◌∷◌, Perm}
use mathlib.Core.Logic.{◌⊎◌, inl, inr}
use mathlib.Core.Option.{some}
use mathlib.Core.Path.{◌≡◌, refl, subst}
use native.Mathlib.Omega.{arith}
use Prim.Native.Nat.{ℕ, suc, ◌+◌, ◌≤◌}
use Prim.Native.String.{String}
use text.Mathlib.Text.{◌==◌}
use text.Mathlib.TextEquality.{eq_iff}

module _ {ℓ} {V : Type ℓ} where
  -- Every Python dictionary is of this kind.
  abbrev pub Distinct : Dict V → Type 0
  Distinct [] = Unit
  Distinct ((k, v) ∷ d) = (contains k d ≡ false) × Distinct d

  pub Distinct-insert : (k : String) (v : V) (d : Dict V) → Distinct d → Distinct (insert k v d)
  unfolding insert contains
  Distinct-insert k v [] h = ground arith
  Distinct-insert k v ((j, w) ∷ d) h =
      ground (arith, eq_iff j k, eq_iff k j, Distinct-insert k v d h.1, contains-insert k j v d)

  pub Distinct-erase : (k : String) (d : Dict V) → Distinct d → Distinct (erase k d)
  unfolding erase
  Distinct-erase k [] h = tt
  Distinct-erase k ((j, w) ∷ d) h = ground (arith, Distinct-erase k d h.1, contains-erase k j d)

  module _ (f : V → ℕ) where
    pub sum_by-values-insert :
        (k : String) (v : V) (d : Dict V)
        → Distinct d
        → sum_by f (values (insert k v d)) ≡ f v + sum_by f (values (erase k d))
    unfolding insert erase values
    sum_by-values-insert k v [] h = refl
    sum_by-values-insert k v ((j, w) ∷ d) h =
        ground (arith, eq_iff j k, erase_absent k d, sum_by-values-insert k v d h.1)

    pub sum_by-values-erase-le :
        (k : String) (d : Dict V) → sum_by f (values (erase k d)) ≤ sum_by f (values d)
    unfolding erase values
    sum_by-values-erase-le k [] = omega arith
    sum_by-values-erase-le k ((j, w) ∷ d) = ground (arith, sum_by-values-erase-le k d)

    pub sum_by-values-erase :
        (k : String) (v : V) (d : Dict V)
        → Distinct d
        → lookup k d ≡ some v
        → sum_by f (values d) ≡ f v + sum_by f (values (erase k d))
    unfolding lookup erase values
    sum_by-values-erase k v [] h e = ground arith
    sum_by-values-erase k v ((j, w) ∷ d) h e =
        ground (arith, eq_iff j k, erase_absent k d, sum_by-values-erase k v d h.1)

  pub erase-insert : (k : String) (v : V) (d : Dict V) → erase k (insert k v d) ≡ erase k d
  unfolding erase insert
  erase-insert k v [] = ground (arith, eq_iff k k)
  erase-insert k v ((j, w) ∷ d) = ground (arith, eq_iff k k, eq_iff j k, erase-insert k v d)

  pub length-insert :
      (k : String) (v : V) (d : Dict V)
      → Distinct d
      → length (insert k v d) ≡ suc (length (erase k d))
  unfolding insert erase
  length-insert k v [] h = refl
  length-insert k v ((j, w) ∷ d) h =
      ground (arith, eq_iff j k, erase_absent k d, length-insert k v d h.1)

  pub length-erase :
      (k : String) (d : Dict V)
      → Distinct d
      → length d ≡ (if contains k d then suc (length (erase k d)) else length (erase k d))
  unfolding contains erase
  length-erase k [] h = refl
  length-erase k ((j, w) ∷ d) h = ground (arith, eq_iff j k, erase_absent k d, length-erase k d h.1)

  -- The values, with the one of a key in front.
  pub values-perm :
      (k : String) (v : V) (d : Dict V)
      → Distinct d
      → lookup k d ≡ some v
      → Perm (values d) (v ∷ values (erase k d))
  unfolding lookup erase values
  values-perm k v [] h e = ground arith
  values-perm k v ((j, w) ∷ d) h e = elim (Bool-cases (j == k)) [
    | inl same ↦
        let absent : contains k d ≡ false = ground (arith, eq_iff j k, h.0) in
        rw (same, erase_absent k d absent) (Perm.cons' (ground (arith, rw same at e)) Perm.rfl)
    | inr other ↦
        rw other
          (Perm.trans (Perm.cons w (values-perm k v d h.1 (rw other at e))) (Perm.swap v w _))
  ]

  module _ {κ} (P : String × V → Type κ) where
    pub All-insert : (k : String) (v : V) (d : Dict V) → P (k, v) → All P d → All P (insert k v d)
    unfolding insert
    All-insert k v [] p h = (p, tt)
    All-insert k v ((j, w) ∷ d) p h = elim (Bool-cases (j == k)) [
      | inl same ↦ rw same (p, h.1)
      | inr other ↦ rw other (h.0, All-insert k v d p h.1)
    ]

    pub All-erase : (k : String) (d : Dict V) → All P d → All P (erase k d)
    unfolding erase
    All-erase k [] h = tt
    All-erase k ((j, w) ∷ d) h = elim (Bool-cases (j == k)) [
      | inl same ↦ rw same (All-erase k d h.1)
      | inr other ↦ rw other (h.0, All-erase k d h.1)
    ]

    -- What is left has other keys.
    pub All-erase_ne :
        (k : String) (d : Dict V) → All P d → All (λ e. P e × ((e.0 == k) ≡ false)) (erase k d)
    unfolding erase
    All-erase_ne k [] h = tt
    All-erase_ne k ((j, w) ∷ d) h = elim (Bool-cases (j == k)) [
      | inl same ↦ rw same (All-erase_ne k d h.1)
      | inr other ↦ rw other ((h.0, other), All-erase_ne k d h.1)
    ]

    All_of_absent :
        (k : String) (d : Dict V)
        → contains k d ≡ false
        → All (λ e. ((e.0 == k) ≡ true) ⊎ P e) d
        → All P d
    unfolding contains
    All_of_absent k [] a h = tt
    All_of_absent k ((j, w) ∷ d) a (inl same, hs) = absurd (ground (arith, same, a))
    All_of_absent k ((j, w) ∷ d) a (inr p, hs) = (p, All_of_absent k d (ground arith) hs)

    -- A write sets the property for its key, whatever the old entry was.
    pub All-insert_other :
        (k : String) (v : V) (d : Dict V)
        → Distinct d
        → P (k, v)
        → All (λ e. ((e.0 == k) ≡ true) ⊎ P e) d
        → All P (insert k v d)
    unfolding insert
    All-insert_other k v [] h p hs = (p, tt)
    All-insert_other k v ((j, w) ∷ d) h p hs = elim (Bool-cases (j == k)) [
      | inl same ↦
          let absent : contains k d ≡ false = ground (arith, eq_iff j k, h.0) in
          rw same (p, All_of_absent k d absent hs.1)
      | inr other ↦
          rw other (
            elim hs.0 [ inl same ↦ cc (other, same) | inr q ↦ q ],
            All-insert_other k v d h.1 p hs.1,
          )
    ]

    pub All-erase_other :
        (k : String) (d : Dict V) → All (λ e. ((e.0 == k) ≡ true) ⊎ P e) d → All P (erase k d)
    unfolding erase
    All-erase_other k [] hs = tt
    All-erase_other k ((j, w) ∷ d) hs = elim (Bool-cases (j == k)) [
      | inl same ↦ rw same (All-erase_other k d hs.1)
      | inr other ↦
          rw other (elim hs.0 [ inl same ↦ cc (other, same) | inr q ↦ q ], All-erase_other k d hs.1)
    ]

    pub All-lookup : (k : String) (v : V) (d : Dict V) → All P d → lookup k d ≡ some v → P (k, v)
    unfolding lookup
    All-lookup k v [] h e = ground arith
    All-lookup k v ((j, w) ∷ d) h e = elim (Bool-cases (j == k)) [
      | inl same ↦ subst P (ground (arith, eq_iff j k)) h.0
      | inr other ↦ All-lookup k v d h.1 (ground arith)
    ]

    -- What holds of each entry that a lookup finds holds of all.
    pub All_of_lookup :
        (d : Dict V)
        → Distinct d
        → ((k : String) (v : V) → lookup k d ≡ some v → P (k, v))
        → All P d
    unfolding lookup
    All_of_lookup [] h f = tt
    All_of_lookup ((j, w) ∷ d) h f = (
      f j w (ground (arith, eq_iff j j)),
      All_of_lookup d h.1
          (λ k v found. f k v (ground (arith, found, h.0, eq_iff j k, contains_of_lookup k d v))),
    )
