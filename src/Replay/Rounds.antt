-- ===== src/Replay/Rounds.antt =====
-- bench/replay.py: one round of the loop over the events.
use agentserve.Replay.Counters.{
  Lasted, Before, Before-set_default, Lasted-set_default, Lasted-now, Agrees, count_result-Agrees,
  count_result_lem,
}
use agentserve.Common.Dict.Keys.{All-insert}
use agentserve.Common.Dict.{Dict}
use agentserve.Common.{
  ℕ, zero, suc, ◌+◌, ◌≤◌, ◌≡◌, refl, arith, subst, inl, inr, some, List, [], ◌∷◌, All, All-append,
  All_imp, All, length, get_elem?, sum_by, sum_by-append, drop, ltb, ◌<◌, Bool-cases,
}
use agentserve.Config.{ClusterConfig}
use agentserve.Models.{SessionTrace, Turn}
use agentserve.Replay.Events.{
  IsDue, load, sum_by-drop, AllFrom, AllFrom-append, AllFrom-All, AllFrom-cons, AllFrom-nil,
}
use agentserve.Replay.Turns.{IsReady, nth-Produces, settle-IsReady, run_turn_total}
use agentserve.Replay.{Event, Simulation, handle, push_next}
use agentserve.Result.Produces.{Produces, produces, >>=-Produces}

abbrev pub one : Turn → ℕ
one turn = 1

-- No session started after an event that is due, or after it ended.
pub record IsTimely (starts ends : Dict ℕ) (queue : List Event) : Type 0 where
  pub clock : ℕ
  pub coming : AllFrom clock queue
  pub started : All (Before clock) starts
  pub lasted : All (Lasted starts) ends

-- The simulation, with `requests` turns and `tokens` prompt tokens served or due in all.
pub record IsRunning (traces : List SessionTrace) (requests tokens : ℕ) (sim : Simulation)
    : Type 0 where
  pub ready : IsReady sim.arm
  pub due : All (IsDue traces) sim.queue
  pub requests_left : sim.stats.requests + sum_by (load one traces) sim.queue ≡ requests
  pub tokens_left :
      sim.stats.tokens_reused
        + sim.stats.tokens_computed
        + sum_by (load (λ t. t.prompt_tokens) traces) sim.queue
      ≡ tokens
  pub agrees : Agrees sim.stats
  pub timely : IsTimely sim.session_start sim.session_end sim.queue

sum_by-drop_all {ℓ} :
    {A : Type ℓ} (f : A → ℕ) (xs : List A) (i : ℕ) → length xs ≤ i → sum_by f (drop i xs) ≡ 0
sum_by-drop_all f [] zero h = refl
sum_by-drop_all f [] (suc i) h = refl
sum_by-drop_all f (x ∷ xs) zero h = absurd (omega (arith, h))
sum_by-drop_all f (x ∷ xs) (suc i) h = sum_by-drop_all f xs i (omega (arith, h))

get_elem?-some {ℓ} :
    {A : Type ℓ} (xs : List A) (i : ℕ) → i < length xs → (x : A) × (get_elem? xs i ≡ some x)
get_elem?-some [] i h = absurd (omega (arith, h))
get_elem?-some (x ∷ xs) zero h = (x, refl)
get_elem?-some (x ∷ xs) (suc i) h = get_elem?-some xs i (omega (arith, h))

-- The next event of a session takes over what is left of its turns.
module _ (traces : List SessionTrace) (sim : Simulation) (e : Event) (trace : SessionTrace)
    (turn : Turn) (completed_ms : ℕ) (here : get_elem? traces e.session ≡ some trace)
    (now : get_elem? trace.turns e.turn ≡ some turn) where
  load-push_next :
      (f : Turn → ℕ)
      → f turn + sum_by (load f traces) (push_next sim e trace turn completed_ms).queue
        ≡ load f traces e + sum_by (load f traces) sim.queue
  unfolding push_next
  load-push_next f =
      let next : e.turn + 1 ≡ suc e.turn = omega arith in
      let split = sum_by-drop f trace.turns e.turn turn now in
      elim (Bool-cases (ltb (e.turn + 1) (length trace.turns))) [
        | inl more ↦
            rw (more, here, next)
              (omega (
                arith,
                split,
                rw (here, next) at
                    (sum_by-append (load f traces) sim.queue (
                      record {
                        at_ms = completed_ms + turn.tool_duration_ms;
                        seq = sim.seq;
                        session = e.session;
                        turn = e.turn + 1;
                      }
                      ∷ [])),
              ))
        | inr last ↦
            rw (last, here)
              (omega
                (arith, split, sum_by-drop_all f trace.turns (suc e.turn) (ground (arith, last))))
      ]

  IsDue-push_next :
      All (IsDue traces) sim.queue
      → All (IsDue traces) (push_next sim e trace turn completed_ms).queue
  unfolding push_next
  IsDue-push_next h = elim (Bool-cases (ltb (e.turn + 1) (length trace.turns))) [
    | inl more ↦
        let (coming, found) = get_elem?-some trace.turns (e.turn + 1) (ground (arith, more)) in
        rw more (All-append (IsDue traces) sim.queue _ h ((trace, coming, here, found), tt))
    | inr last ↦ rw last h
  ]

  AllFrom-push_next :
      (t : ℕ)
      → t ≤ completed_ms
      → AllFrom t sim.queue
      → AllFrom t (push_next sim e trace turn completed_ms).queue
  unfolding push_next
  AllFrom-push_next t late h = elim (Bool-cases (ltb (e.turn + 1) (length trace.turns))) [
    | inl more ↦
        rw more (
          AllFrom-append t sim.queue _ h
            (AllFrom-cons t _ [] (omega (arith, late)) (AllFrom-nil t)))
    | inr last ↦ rw last h
  ]

  push_next-rest :
      ((push_next sim e trace turn completed_ms).arm ≡ sim.arm)
      × ((push_next sim e trace turn completed_ms).stats ≡ sim.stats)
      × ((push_next sim e trace turn completed_ms).session_start ≡ sim.session_start)
      × ((push_next sim e trace turn completed_ms).session_end ≡ sim.session_end)
  unfolding push_next
  push_next-rest = ground arith

abbrev pub prompt_tokens : Turn → ℕ
prompt_tokens turn = turn.prompt_tokens

-- What a round leaves: a simulation that still counts every turn, with one more served, and nothing in
-- the queue that is due before the event of the round.
pub record Stepped (traces : List SessionTrace) (requests tokens served : ℕ) (e : Event)
    (next : Simulation) : Type 0 where
  pub running : IsRunning traces requests tokens next
  pub later : AllFrom e.at_ms next.queue
  pub counted : next.stats.requests ≡ served + 1

module _ (traces : List SessionTrace) (requests tokens : ℕ) (sim : Simulation) (e : Event)
    (trace : SessionTrace) (turn : Turn) (completed_ms : ℕ)
    (here : get_elem? traces e.session ≡ some trace)
    (now : get_elem? trace.turns e.turn ≡ some turn) where
  -- A simulation that has counted the turn of an event, and has yet to queue the next one.
  push_next-Stepped :
      (served : ℕ)
      → IsReady sim.arm
      → sim.stats.requests ≡ served + 1
      → e.at_ms ≤ completed_ms
      → AllFrom e.at_ms sim.queue
      → All (IsDue traces) sim.queue
      → sim.stats.requests + load one traces e + sum_by (load one traces) sim.queue ≡ requests + 1
      → sim.stats.tokens_reused
          + sim.stats.tokens_computed
          + load prompt_tokens traces e
          + sum_by (load prompt_tokens traces) sim.queue
        ≡ tokens + turn.prompt_tokens
      → Agrees sim.stats
      → All (Before e.at_ms) sim.session_start
      → All (Lasted sim.session_start) sim.session_end
      → Stepped traces requests tokens served e (push_next sim e trace turn completed_ms)
  push_next-Stepped served ready one_more late later due counted covered agrees started lasted =
      let (arm, stats, starts, ends) =
        push_next-rest traces sim e trace turn completed_ms here now in
      let turns = load-push_next traces sim e trace turn completed_ms here now in
      let coming =
        AllFrom-push_next traces sim e trace turn completed_ms here now e.at_ms late later in
      record {
        running = record {
          ready = rw arm ready;
          due = IsDue-push_next traces sim e trace turn completed_ms here now due;
          requests_left = rw stats (omega (arith, counted, turns one));
          tokens_left = rw stats (omega (arith, covered, turns prompt_tokens));
          agrees = rw stats agrees;
          timely = record {
            clock = e.at_ms;
            coming = coming;
            started = rw starts started;
            lasted = rw (starts, ends) lasted;
          };
        };
        later = coming;
        counted = rw stats one_more;
      }

module _ (traces : List SessionTrace) (config : ClusterConfig) (read_at write_at : ℕ → ℕ)
    (requests tokens : ℕ) where
  -- The body of the loop does not raise.
  pub handle_total :
      (sim : Simulation) (e : Event)
      → IsRunning traces requests tokens (record sim { queue = e ∷ sim.queue })
      → AllFrom e.at_ms sim.queue
      → Produces
          (Stepped traces requests tokens sim.stats.requests e)
          (handle traces config read_at write_at sim e)
  unfolding handle
  handle_total sim e h later =
      let (trace, turn, here, now) = h.due.0 in
      >>=-Produces (nth-Produces traces e.session (trace, here)) (λ trace' here'.
        let same : trace ≡ trace' = cc in
        let due : get_elem? trace'.turns e.turn ≡ some turn =
          subst (λ (t : SessionTrace). get_elem? t.turns e.turn ≡ some turn) same now in
        >>=-Produces (nth-Produces trace'.turns e.turn (turn, due)) (λ turn' now'.
          >>=-Produces
            (run_turn_total traces config read_at write_at sim.arm sim.stats.requests trace' e.turn
              turn' e.at_ms h.ready now')
            (λ out served.
              let totals = count_result_lem out.2 sim.stats in
              let started =
                Before-set_default trace'.session_id h.timely.clock e.at_ms sim.session_start
                  (AllFrom-All h.timely.clock (e ∷ sim.queue) h.timely.coming).0 h.timely.started in
              produces (
                push_next-Stepped traces requests tokens _ e trace' turn' _ here' now'
                  sim.stats.requests (settle-IsReady out.0 out.1 _ served.ready served.works)
                  totals.0 (omega arith) later h.due.1 (omega (arith, h.requests_left, totals.0))
                  (omega (arith, h.tokens_left, totals.1, totals.2, served.tokens))
                  (count_result-Agrees out.2 sim.stats h.agrees) started
                  (All-insert (Lasted _) trace'.session_id _ sim.session_end
                    (Lasted-now trace'.session_id e.at_ms _ sim.session_start (omega arith) started)
                    (All_imp (Lasted-set_default trace'.session_id e.at_ms sim.session_start)
                      sim.session_end h.timely.lasted))))))
