-- ===== src/State/Memory.antt =====
-- agentserve/state.py: `InMemorySessionStore`, two ordered dictionaries with expiry times.
pub mod Tables
pub mod Laws
use agentserve.Common.Dict.{Dict, lookup, insert, erase}
use agentserve.Common.Int.{ℤ, pos}
use agentserve.Common.{
  ℕ, ◌+◌, ltb, String, Bool, true, false, Option, none, some, List, [], ◌∷◌, ◌++◌, length,
  if◌then◌else◌,
}
use agentserve.Result.{Result, ok}
use agentserve.State.{SessionStore}

-- Values with the time at which they expire, the least recently used first.
abbrev pub Table : Type 0 → Type 0
Table V = Dict (V × ℕ)

pub record InMemorySessionStore : Type 0 where
  pub max_sessions : ℕ
  pub ttl_s : ℕ
  pub home : Table ℤ
  pub seen : Table ℕ

unfoldable pub init : ℕ → ℕ → InMemorySessionStore
init max_sessions ttl_s = record {
  max_sessions = max_sessions;
  ttl_s = ttl_s;
  home = [];
  seen = [];
}

module _ {V : Type 0} where
  -- `table.move_to_end(key)`, where the key is there.
  unfoldable pub move_to_end : String → Table V → Table V
  move_to_end key table = elim (lookup key table) [
    | none ↦ table
    | some entry ↦ erase key table ++ (key, entry) ∷ []
  ]

  unfoldable pub get : (clock : ℕ) → String → Table V → Table V × Option V
  unfolding move_to_end
  get clock key table = elim (lookup key table) [
    | none ↦ (table, none)
    | some entry ↦
        if ltb entry.1 clock then (erase key table, none) else (move_to_end key table, some entry.0)
  ]

  -- `while len(table) > self.max_sessions: table.popitem(last=False)`
  unfoldable pub pop_oldest : ℕ → Table V → Table V
  pop_oldest max_sessions [] = []
  pop_oldest max_sessions (e ∷ table) =
      let rest = pop_oldest max_sessions table in
      if ltb max_sessions (length (e ∷ table)) then rest else e ∷ table

  unfoldable pub put : (max_sessions ttl_s clock : ℕ) → String → V → Table V → Table V
  unfolding move_to_end pop_oldest
  put max_sessions ttl_s clock key value table =
      pop_oldest max_sessions (move_to_end key (insert key (value, clock + ttl_s) table))

unfoldable pub get_home : ℕ → String → InMemorySessionStore → InMemorySessionStore × Option ℤ
get_home clock session_id s =
    let (table, found) = get clock session_id s.home in (record s { home = table }, found)

unfoldable pub set_home : ℕ → String → ℕ → InMemorySessionStore → InMemorySessionStore
set_home clock session_id replica_id s = record s {
  home = put s.max_sessions s.ttl_s clock session_id (pos replica_id) s.home;
}

unfoldable pub get_last_seen : ℕ → String → InMemorySessionStore → InMemorySessionStore × Option ℕ
get_last_seen clock session_id s =
    let (table, found) = get clock session_id s.seen in (record s { seen = table }, found)

unfoldable pub set_last_seen : ℕ → String → ℕ → InMemorySessionStore → InMemorySessionStore
set_last_seen clock session_id when_ms s = record s {
  seen = put s.max_sessions s.ttl_s clock session_id when_ms s.seen;
}

unfoldable pub size : InMemorySessionStore → ℕ
size s = length s.home

unfoldable pub close : InMemorySessionStore → InMemorySessionStore
close s = record s { home = []; seen = [] }

-- No call of this store raises.
unfoldable pub memory_store : SessionStore InMemorySessionStore
unfolding get_home set_home get_last_seen set_last_seen size
memory_store = record {
  get_home = λ clock k s. let (s', found) = get_home clock k s in (s', ok found);
  set_home = set_home;
  get_last_seen = λ clock k s. let (s', found) = get_last_seen clock k s in (s', ok found);
  set_last_seen = set_last_seen;
  size = λ s. (s, pos (size s));
}
