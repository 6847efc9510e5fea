-- ===== src/State/Memory/Tables.antt =====
-- agentserve/state.py: what `_get` and `_put` do to an ordered dictionary.
use agentserve.Common.Dict.Keys.{Distinct, Distinct-erase, length-erase, erase-insert}
use agentserve.Common.Dict.Laws.{
  lookup-insert, lookup-erase, contains-erase, contains_of_lookup, lookup_of_not_contains,
}
use agentserve.Common.Dict.{lookup, insert, erase, contains}
use agentserve.Common.{
  ℕ, ◌+◌, ◌≤◌, ◌<◌, ◌≡◌, refl, ap, ◌∙◌, arith, inl, inr, eq_iff, str_eq, String, true, false, none,
  some, [], ◌∷◌, ◌++◌, length, length-append, ltb, ltb→lt, lt→ltb, if◌then◌else◌, Bool-cases,
  Option-cases,
}
use agentserve.State.Memory.{Table, move_to_end, get, pop_oldest, put}

module _ {V : Type 0} where
  -- The table of recency after a use of `key`.
  abbrev pub use_last : String → V × ℕ → Table V → Table V
  use_last key entry table = erase key table ++ (key, entry) ∷ []

  move_to_end-insert :
      (key : String) (entry : V × ℕ) (table : Table V)
      → move_to_end key (insert key entry table) ≡ use_last key entry table
  unfolding move_to_end
  move_to_end-insert key entry table =
      ground
        (arith, lookup-insert key key entry table, eq_iff key key, erase-insert key entry table)

  lookup-snoc :
      (k j : String) (entry : V × ℕ) (table : Table V)
      → lookup k (table ++ (j, entry) ∷ [])
        ≡ (if contains k table then lookup k table else (if str_eq j k then some entry else none))
  unfolding lookup contains
  lookup-snoc k j entry [] = refl
  lookup-snoc k j entry ((i, w) ∷ table) = ground (arith, lookup-snoc k j entry table)

  lookup-use_last :
      (k j : String) (entry : V × ℕ) (table : Table V)
      → lookup k (use_last j entry table) ≡ (if str_eq j k then some entry else lookup k table)
  lookup-use_last k j entry table = ground (
    arith,
    lookup-snoc k j entry (erase j table),
    lookup-erase j k table,
    contains-erase j k table,
    lookup_of_not_contains k table,
  )

  contains-snoc :
      (k j : String) (entry : V × ℕ) (table : Table V)
      → contains k (table ++ (j, entry) ∷ []) ≡ (if contains k table then true else str_eq j k)
  unfolding contains
  contains-snoc k j entry [] = ground arith
  contains-snoc k j entry ((i, w) ∷ table) = ground (arith, contains-snoc k j entry table)

  Distinct-snoc :
      (j : String) (entry : V × ℕ) (table : Table V)
      → contains j table ≡ false
      → Distinct table
      → Distinct (table ++ (j, entry) ∷ [])
  unfolding contains
  Distinct-snoc j entry [] a h = (refl, tt)
  Distinct-snoc j entry ((i, w) ∷ table) a h = (
    ground (arith, a, h.0, contains-snoc i j entry table, eq_iff i j, eq_iff j i),
    Distinct-snoc j entry table (ground (arith, a)) h.1,
  )

  Distinct-use_last :
      (j : String) (entry : V × ℕ) (table : Table V)
      → Distinct table
      → Distinct (use_last j entry table)
  Distinct-use_last j entry table h =
      Distinct-snoc j entry (erase j table) (ground (arith, contains-erase j j table, eq_iff j j))
        (Distinct-erase j table h)

  length-erase-le : (j : String) (table : Table V) → length (erase j table) ≤ length table
  unfolding erase
  length-erase-le j [] = omega arith
  length-erase-le j ((i, w) ∷ table) = ground (arith, length-erase-le j table)

  length-pop_oldest-le :
      (max_sessions : ℕ) (table : Table V) → length (pop_oldest max_sessions table) ≤ max_sessions
  unfolding pop_oldest
  length-pop_oldest-le n [] = omega arith
  length-pop_oldest-le n (e ∷ table) = ground (arith, length-pop_oldest-le n table)

  Distinct-pop_oldest :
      (max_sessions : ℕ) (table : Table V)
      → Distinct table
      → Distinct (pop_oldest max_sessions table)
  unfolding pop_oldest
  Distinct-pop_oldest n [] h = tt
  Distinct-pop_oldest n ((i, w) ∷ table) h = elim (Bool-cases (ltb n (length ((i, w) ∷ table)))) [
    | inl long ↦ rw long (Distinct-pop_oldest n table h.1)
    | inr short ↦ rw short h
  ]

  pop_oldest-eq_self :
      (max_sessions : ℕ) (table : Table V)
      → length table ≤ max_sessions
      → pop_oldest max_sessions table ≡ table
  unfolding pop_oldest
  pop_oldest-eq_self n [] h = refl
  pop_oldest-eq_self n (e ∷ table) h = ground (arith, h)

  abbrev pub without_oldest : Table V → Table V
  without_oldest [] = []
  without_oldest (e ∷ table) = table

  pop_oldest-snoc :
      (max_sessions : ℕ) (j : String) (entry : V × ℕ) (table : Table V)
      → 1 ≤ max_sessions
      → length table ≤ max_sessions
      → pop_oldest max_sessions (table ++ (j, entry) ∷ [])
        ≡ (if ltb (length table) max_sessions then table else without_oldest table)
          ++ (j, entry) ∷ []
  unfolding pop_oldest
  pop_oldest-snoc n j entry [] h k = ground (arith, h)
  pop_oldest-snoc n j entry (e ∷ table) h k = ground (
    arith,
    h,
    k,
    length-append table ((j, entry) ∷ []),
    pop_oldest-eq_self n (table ++ (j, entry) ∷ []),
  )

  -- `_put` on a table within its positive bound makes the key the most recent one, with its new
  -- value and expiry time, and keeps the others in their order, without the least recently used
  -- one exactly if the key is new and the table is full.
  pub put_lem :
      (max_sessions ttl_s clock : ℕ) (key : String) (value : V) (table : Table V)
      → 1 ≤ max_sessions
      → length table ≤ max_sessions
      → put max_sessions ttl_s clock key value table
        ≡ (if ltb (length (erase key table)) max_sessions
            then erase key table
            else without_oldest (erase key table))
          ++ (key, (value, clock + ttl_s)) ∷ []
  unfolding put
  put_lem n ttl clock key value table h k =
      ap (pop_oldest n) (move_to_end-insert key (value, clock + ttl) table)
      ∙ pop_oldest-snoc n key (value, clock + ttl) (erase key table) h
          (omega (arith, length-erase-le key table))

-- A table has distinct keys and no more entries than the bound.
pub record IsTable {V : Type 0} (max_sessions : ℕ) (table : Table V) : Type 0 where
  pub distinct : Distinct table
  pub bounded : length table ≤ max_sessions

module _ {V : Type 0} where
  pub put-IsTable :
      (max_sessions ttl_s clock : ℕ) (key : String) (value : V) (table : Table V)
      → IsTable max_sessions table
      → IsTable max_sessions (put max_sessions ttl_s clock key value table)
  unfolding put
  put-IsTable n ttl clock key value table t =
      rw (move_to_end-insert key (value, clock + ttl) table) (record {
        distinct = Distinct-pop_oldest n _ (Distinct-use_last key _ table t.distinct);
        bounded = length-pop_oldest-le n _;
      })

  -- The three cases of `_get`.
  pub get_miss :
      (clock : ℕ) (key : String) (table : Table V)
      → lookup key table ≡ none
      → get clock key table ≡ (table, none)
  unfolding get
  get_miss clock key table e = rw (e, get)

  pub get_expired :
      (clock : ℕ) (key : String) (table : Table V) (entry : V × ℕ)
      → lookup key table ≡ some entry
      → entry.1 < clock
      → get clock key table ≡ (erase key table, none)
  unfolding get
  get_expired clock key table entry e late = rw (e, get, lt→ltb _ _ late)

  pub get_hit :
      (clock : ℕ) (key : String) (table : Table V) (entry : V × ℕ)
      → lookup key table ≡ some entry
      → clock ≤ entry.1
      → get clock key table ≡ (use_last key entry table, some entry.0)
  unfolding get move_to_end
  get_hit clock key table entry e early =
      let fresh : ltb entry.1 clock ≡ false = ground arith in rw (e, get, fresh, move_to_end, e)

  length-use_last :
      (key : String) (entry e : V × ℕ) (table : Table V)
      → Distinct table
      → lookup key table ≡ some e
      → length (use_last key entry table) ≡ length table
  length-use_last key entry e table h found = ground (
    arith,
    length-append (erase key table) ((key, entry) ∷ []),
    length-erase key table h,
    contains_of_lookup key table e found,
  )

  pub get-IsTable :
      (max_sessions clock : ℕ) (key : String) (table : Table V)
      → IsTable max_sessions table
      → IsTable max_sessions (get clock key table).0
  get-IsTable n clock key table t = elim (Option-cases (lookup key table)) [
    | inl e ↦ rw (get_miss clock key table e) t
    | inr (entry, e) ↦ elim (Bool-cases (ltb entry.1 clock)) [
      | inl late ↦ rw (get_expired clock key table entry e (ltb→lt _ _ late)) (record {
        distinct = Distinct-erase key table t.distinct;
        bounded = omega (arith, length-erase-le key table, t.bounded);
      })
      | inr early ↦ rw (get_hit clock key table entry e (ground (arith, early))) (record {
        distinct = Distinct-use_last key entry table t.distinct;
        bounded = omega (arith, length-use_last key entry entry table t.distinct e, t.bounded);
      })
    ]
  ]

  absent-without_oldest :
      (key : String) (table : Table V)
      → contains key table ≡ false
      → contains key (without_oldest table) ≡ false
  unfolding contains
  absent-without_oldest key [] h = h
  absent-without_oldest key (e ∷ table) h = ground (arith, h)

  pub lookup-put_self :
      (max_sessions ttl_s clock : ℕ) (key : String) (value : V) (table : Table V)
      → 1 ≤ max_sessions
      → length table ≤ max_sessions
      → lookup key (put max_sessions ttl_s clock key value table) ≡ some (value, clock + ttl_s)
  lookup-put_self n ttl clock key value table h k =
      let rest = erase key table in
      let absent : contains key rest ≡ false =
        ground (arith, contains-erase key key table, eq_iff key key) in
      ground (
        arith,
        put_lem n ttl clock key value table h k,
        absent,
        absent-without_oldest key rest,
        lookup-snoc key key (value, clock + ttl) rest,
        lookup-snoc key key (value, clock + ttl) (without_oldest rest),
        eq_iff key key,
      )

  -- A read right after a write, at any time.
  pub get-put :
      (max_sessions ttl_s clock later : ℕ) (key : String) (value : V) (table : Table V)
      → 1 ≤ max_sessions
      → length table ≤ max_sessions
      → (get later key (put max_sessions ttl_s clock key value table)).1
        ≡ (if ltb (clock + ttl_s) later then none else some value)
  get-put n ttl clock later key value table h k =
      let found = lookup-put_self n ttl clock key value table h k in
      elim (Bool-cases (ltb (clock + ttl) later)) [
        | inl late ↦ rw (get_expired later key _ (value, clock + ttl) found (ltb→lt _ _ late), late)
        | inr early ↦
            rw (get_hit later key _ (value, clock + ttl) found (ground (arith, early)), early)
      ]
