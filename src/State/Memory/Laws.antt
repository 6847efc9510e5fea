-- ===== src/State/Memory/Laws.antt =====
-- agentserve/state.py: what `InMemorySessionStore` promises its callers.
use agentserve.Common.Int.{pos}
use agentserve.Common.{
  ℕ, ◌+◌, ◌≤◌, ◌≡◌, refl, arith, String, none, some, List, [], ◌∷◌, ltb, if◌then◌else◌,
}
use agentserve.State.Memory.Tables.{IsTable, put-IsTable, get-IsTable, get-put}
use agentserve.State.Memory.{
  InMemorySessionStore, init, get_home, set_home, get_last_seen, set_last_seen, close,
}

-- A call of the store, with the clock that it reads.
pub data Call : Type 0 where
  get_home_at : (clock : ℕ) (session_id : String) → Call
  set_home_at : (clock : ℕ) (session_id : String) (replica_id : ℕ) → Call
  get_last_seen_at : (clock : ℕ) (session_id : String) → Call
  set_last_seen_at : (clock : ℕ) (session_id : String) (when_ms : ℕ) → Call
  closed : Call

unfoldable pub call : Call → InMemorySessionStore → InMemorySessionStore
call (get_home_at clock k) s = (get_home clock k s).0
call (set_home_at clock k i) s = set_home clock k i s
call (get_last_seen_at clock k) s = (get_last_seen clock k s).0
call (set_last_seen_at clock k t) s = set_last_seen clock k t s
call closed s = close s

unfoldable pub call_all : List Call → InMemorySessionStore → InMemorySessionStore
unfolding call
call_all [] s = s
call_all (c ∷ cs) s = call_all cs (call c s)

pub record IsStore (max_sessions : ℕ) (s : InMemorySessionStore) : Type 0 where
  pub limit : s.max_sessions ≡ max_sessions
  pub home : IsTable max_sessions s.home
  pub seen : IsTable max_sessions s.seen

pub call-IsStore :
    (n : ℕ) (c : Call) (s : InMemorySessionStore) → IsStore n s → IsStore n (call c s)
unfolding call get_home set_home get_last_seen set_last_seen close
call-IsStore n (get_home_at clock k) s h = record {
  limit = h.limit;
  home = get-IsTable n clock k s.home h.home;
  seen = h.seen;
}
call-IsStore n (set_home_at clock k i) s h = record {
  limit = h.limit;
  home = rw h.limit (put-IsTable n s.ttl_s clock k (pos i) s.home h.home);
  seen = h.seen;
}
call-IsStore n (get_last_seen_at clock k) s h = record {
  limit = h.limit;
  home = h.home;
  seen = get-IsTable n clock k s.seen h.seen;
}
call-IsStore n (set_last_seen_at clock k t) s h = record {
  limit = h.limit;
  home = h.home;
  seen = rw h.limit (put-IsTable n s.ttl_s clock k t s.seen h.seen);
}
call-IsStore n closed s h = record {
  limit = h.limit;
  home = record { distinct = tt; bounded = omega arith };
  seen = record { distinct = tt; bounded = omega arith };
}

call_all-IsStore :
    (n : ℕ) (cs : List Call) (s : InMemorySessionStore) → IsStore n s → IsStore n (call_all cs s)
unfolding call_all
call_all-IsStore n [] s h = h
call_all-IsStore n (c ∷ cs) s h = call_all-IsStore n cs (call c s) (call-IsStore n c s h)

-- Whatever calls are made of a fresh in-memory store, with whatever clocks, neither table holds
-- more than `max_sessions` entries afterwards, nor a session twice.
pub call_all-init-IsStore :
    (max_sessions ttl_s : ℕ) (cs : List Call)
    → IsStore max_sessions (call_all cs (init max_sessions ttl_s))
unfolding init
call_all-init-IsStore n ttl cs = call_all-IsStore n cs _ (record {
  limit = refl;
  home = record { distinct = tt; bounded = omega arith };
  seen = record { distinct = tt; bounded = omega arith };
})

module _ (s : InMemorySessionStore) (n : ℕ) (valid : IsStore n s) (positive : 1 ≤ n) (clock : ℕ)
    (session_id : String) (replica_id : ℕ) where
  -- In a valid store with room for one session, a home that was just set is found until its time
  -- to live is over, and not afterwards.
  pub get_home-set_home :
      (later : ℕ)
      → (get_home later session_id (set_home clock session_id replica_id s)).1
        ≡ (if ltb (clock + s.ttl_s) later then none else some (pos replica_id))
  unfolding get_home set_home
  get_home-set_home later =
      rw valid.limit (
        get-put n s.ttl_s clock later session_id (pos replica_id) s.home positive
          valid.home.bounded)
