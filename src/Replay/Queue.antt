-- ===== src/Replay/Queue.antt =====
-- bench/replay.py: the heap of events, as a list of which the least event is taken.
use agentserve.Common.{ℕ, ltb, ◌==◌, Bool, ◌&&◌, ◌||◌, List, [], ◌∷◌, if◌then◌else◌}

-- An entry of the queue.
pub record Event : Type 0 where
  pub at_ms : ℕ
  pub seq : ℕ
  pub session : ℕ
  pub turn : ℕ

-- The order of the tuples, of which no two have the same `seq`.
unfoldable pub earlier : Event → Event → Bool
earlier d e = ltb d.at_ms e.at_ms || ((d.at_ms == e.at_ms) && ltb d.seq e.seq)

-- `heapq.heappop`, on the queue of an event and others.
unfoldable pub pop_least : Event → List Event → Event × List Event
unfolding earlier
pop_least e [] = (e, [])
pop_least e (d ∷ events) =
    let (least, rest) = pop_least (if earlier d e then d else e) events in
    (least, (if earlier d e then e else d) ∷ rest)
