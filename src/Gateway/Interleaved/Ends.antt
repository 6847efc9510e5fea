-- ===== src/Gateway/Interleaved/Ends.antt =====
-- agentserve/gateway.py: whatever has been interleaved, the requests can come to their ends.
use agentserve.Common.Positions.{AllAt, AllAt-of_All, AllAt-imp, AllAt-lt, All-AllAt}
use agentserve.Common.{
  ℕ, zero, suc, ◌+◌, ◌≤◌, ◌<◌, ◌≡◌, refl, ap, ◌∙◌, subst, arith, Bool, false, String, Option, none,
  some, List, [], ◌∷◌, ◌++◌, All, All-append, set, get_elem?, length, length-set,
}
use agentserve.Gateway.Interleaved.Counts.{
  IsFresh, SameSlots, started, call_kept, prune-CountsSlots, enter_slot-CountsSlots,
  leave_slot-CountsSlots, interleave-CountsSlots,
}
use agentserve.Gateway.Interleaved.Drained.{
  Within, bound, turns_left, finish_all, finish_all-Within, length-note,
}
use agentserve.Gateway.Interleaved.Invariants.{Holds, Everywhere, step-Everywhere}
use agentserve.Gateway.Interleaved.{
  Stage, Job, JobTurn, LoopEvent, EventLoop, arrive, resume, take_turn, apply_turn, resume_on,
  resume_job, enlist, step, interleave, is_open, open_requests, waiting, running, answered,
  finished, dropped,
}
use agentserve.Gateway.Requests.{All-pruned}
use agentserve.Gateway.Slots.{HasNoOpenSlot}
use agentserve.Gateway.Scheduling.{All-schedule, schedule-replicas}
use agentserve.Gateway.Serving.{length-pruned}
use agentserve.Gateway.{Gateway, Worker, stream_of, schedule}
use agentserve.Replica.Slots.{CountsSlots}
use agentserve.Replica.{Replica, prune, enter_slot, leave_slot}
use agentserve.Result.{Result, ok, raise}
use agentserve.State.{SessionStore}
use agentserve.Tokenizer.{count_messages}

-- The request stands for one of the replicas.
abbrev HasReplica : ℕ → Job → Type 0
HasReplica size job = job.replica_id < size

-- The number of the replica is one of the cluster.
abbrev InCluster : ℕ → ℕ → Replica → Type 0
InCluster size n r = CountsSlots r n × (r.id < size)

abbrev Placed : ℕ → {S : Type 0} → EventLoop S → Type 0
Placed size loop = (length loop.gateway.replicas ≡ size) × All (HasReplica size) loop.jobs

All-set_stage :
    (size : ℕ) (jobs : List Job) (i : ℕ) (job : Job) (stage : Stage)
    → get_elem? jobs i ≡ some job
    → All (HasReplica size) jobs
    → All (HasReplica size) (set jobs i (record job { stage = stage }))
All-set_stage size [] i job stage e h = tt
All-set_stage size (j ∷ jobs) zero job stage e h =
    (subst (HasReplica size) (let same : j ≡ job = cc in same) h.0, h.1)
All-set_stage size (j ∷ jobs) (suc i) job stage e h =
    (h.0, All-set_stage size jobs i job stage e h.1)

module _ {S : Type 0} (ops : SessionStore S) (encoder : Option (String → ℕ)) (workers : ℕ → Worker)
    (size : ℕ) where
  apply_turn-Placed :
      (loop : EventLoop S) (i write_at : ℕ) (turn : JobTurn) (job : Job) (r : Option Replica)
      → get_elem? loop.jobs i ≡ some job
      → Placed size loop
      → Placed size (resume_on workers ops encoder loop i write_at turn job r)
  unfolding resume_on apply_turn
  apply_turn-Placed loop i write_at turn job none found h = h
  apply_turn-Placed loop i write_at turn job (some r) found h =
      let next = take_turn workers turn job job.stage r in
      (
        length-note workers ops encoder _ write_at job next.2
            ∙ length-set loop.gateway.replicas job.replica_id next.0
            ∙ h.0,
        All-set_stage size loop.jobs i job next.1 found h.1,
      )

  resume-Placed :
      (loop : EventLoop S) (i write_at : ℕ) (turn : JobTurn) (job : Option Job)
      → get_elem? loop.jobs i ≡ job
      → Placed size loop
      → Placed size (resume_job workers ops encoder loop i write_at turn job)
  unfolding resume_job
  resume-Placed loop i write_at turn none found h = h
  resume-Placed loop i write_at turn (some job) found h =
      apply_turn-Placed loop i write_at turn job _ found h

  enlist-Placed :
      (sid : String) (prompt max_tokens : ℕ) (wants : Bool) (now_ms : ℕ) (jobs : List Job)
      (g : Gateway S) (found : Result (Replica × ℕ))
      → length g.replicas ≡ size
      → All (HasReplica size) jobs
      → ((r : Replica) (gap : ℕ) → found ≡ ok (r, gap) → r.id < size)
      → Placed size (enlist workers ops encoder sid prompt max_tokens wants now_ms jobs (g, found))
  unfolding enlist
  enlist-Placed sid prompt max_tokens wants now_ms jobs g (raise e) sized h chosen = (sized, h)
  enlist-Placed sid prompt max_tokens wants now_ms jobs g (ok (r, gap)) sized h chosen =
      (sized, All-append (HasReplica size) jobs _ h (chosen r gap refl, tt))

  ids-InCluster :
      (loop : EventLoop S)
      → Everywhere (InCluster size) loop
      → All (λ (r : Replica). r.id < size) loop.gateway.replicas
  ids-InCluster loop h =
      All-AllAt (λ r. r.id < size) 0 loop.gateway.replicas
        (AllAt-imp (Holds (InCluster size) loop.jobs) (λ i r. r.id < size) 0 loop.gateway.replicas
          (λ i r p. p.1.1) h)

  step-Placed :
      (loop : EventLoop S) (event : LoopEvent)
      → Everywhere (InCluster size) loop
      → Placed size loop
      → Placed size (step workers ops encoder loop event)
  unfolding step
  step-Placed loop (resume i turn write_at) all h =
      resume-Placed loop i write_at turn (get_elem? loop.jobs i) refl h
  step-Placed loop (arrive read_at write_at now_ms sid tool messages max_tokens wants) all h =
      let scheduled = schedule ops loop.gateway read_at write_at sid tool now_ms in
      let ids =
        All-pruned (λ r. r.id < size) now_ms loop.gateway.replicas (λ r p. unfold prune in p)
          (ids-InCluster loop all) in
      enlist-Placed sid (count_messages encoder messages) max_tokens wants now_ms loop.jobs
        scheduled.0 scheduled.1
        (ap length (schedule-replicas ops loop.gateway read_at write_at sid tool now_ms)
          ∙ length-pruned now_ms loop.gateway.replicas
          ∙ h.0)
        h.1
        (λ r gap.
          All-schedule ops (λ r. r.id < size) loop.gateway read_at write_at sid tool now_ms r gap
            ids)

interleave-append :
    {S : Type 0} (ops : SessionStore S) (encoder : Option (String → ℕ)) (workers : ℕ → Worker)
    (loop : EventLoop S) (events more : List LoopEvent)
    → interleave workers ops encoder loop (events ++ more)
      ≡ interleave workers ops encoder (interleave workers ops encoder loop events) more
unfolding interleave
interleave-append ops encoder workers loop [] more = refl
interleave-append ops encoder workers loop (event ∷ events) more =
    interleave-append ops encoder workers (step workers ops encoder loop event) events more

-- The request has ended.
abbrev pub HasEnded : Job → Type 0
HasEnded job = turns_left job.stage ≡ 0

closed_stage : (stage : Stage) → turns_left stage ≡ 0 → is_open stage ≡ false
unfolding is_open
closed_stage waiting h = refl
closed_stage running h = absurd (omega (arith, h))
closed_stage (answered x) h = absurd (omega (arith, h))
closed_stage (finished x) h = refl
closed_stage dropped h = refl

turns_left_le : (stage : Stage) → turns_left stage ≤ 3
turns_left_le waiting = omega arith
turns_left_le running = omega arith
turns_left_le (answered x) = omega arith
turns_left_le (finished x) = omega arith
turns_left_le dropped = omega arith

open_requests-HasEnded : (id : ℕ) (jobs : List Job) → All HasEnded jobs → open_requests id jobs ≡ 0
unfolding open_requests is_open
open_requests-HasEnded id [] h = refl
open_requests-HasEnded id (job ∷ jobs) h =
    ground (arith, closed_stage job.stage h.0, open_requests-HasEnded id jobs h.1)

module _ {S : Type 0} (ops : SessionStore S) (encoder : Option (String → ℕ)) (workers : ℕ → Worker)
    (run_kept : (k : ℕ) (r : Replica) (session_id : String)
        (prompt_tokens output_tokens now_ms predicted_return_ms : ℕ)
      → SameSlots r
          ((workers k).run r session_id prompt_tokens output_tokens now_ms predicted_return_ms).0)
    (stream_kept : (k : ℕ) (r : Replica) (session_id : String)
        (prompt_tokens output_tokens now_ms predicted_return_ms : ℕ)
      → SameSlots r
          (stream_of
            (workers k)
            r
            session_id
            prompt_tokens
            output_tokens
            now_ms
            predicted_return_ms).0) where
  step-InCluster :
      (size : ℕ) (loop : EventLoop S) (event : LoopEvent)
      → Everywhere (InCluster size) loop
      → Everywhere (InCluster size) (step workers ops encoder loop event)
  step-InCluster size =
      step-Everywhere (InCluster size)
        (λ now_ms n r h. (prune-CountsSlots now_ms n r h.0, unfold prune in h.1))
        (λ n r h. (enter_slot-CountsSlots n r h.0, unfold enter_slot in h.1))
        (λ n r h. (leave_slot-CountsSlots n r h.0, unfold leave_slot in h.1)) workers
        (λ k job n r h.
          let same = call_kept ops encoder workers run_kept stream_kept k job r in
          (same.0, (omega (arith, h.0, same.1, same.2), omega (arith, same.0, h.1))))
        ops encoder

  interleave-Placed :
      (size : ℕ) (loop : EventLoop S) (events : List LoopEvent)
      → Everywhere (InCluster size) loop
      → Placed size loop
      → Placed size (interleave workers ops encoder loop events)
  unfolding interleave
  interleave-Placed size loop [] all h = h
  interleave-Placed size loop (event ∷ events) all h =
      interleave-Placed size (step workers ops encoder loop event) events
        (step-InCluster size loop event all) (step-Placed ops encoder workers size loop event all h)

  -- Over any backend that leaves the number and the slots of a replica alone, and whatever has
  -- been interleaved from a gateway whose replicas stand at their numbers with no open slot: three
  -- more turns of each request, in any such state, end every request that was scheduled, lose
  -- none, and leave no slot open.
  pub interleave_drains :
      (g : Gateway S) (events : List LoopEvent) (write_at : ℕ)
      → AllAt IsFresh 0 g.replicas
      → let loop = interleave workers ops encoder (started g) events in
        let after = interleave workers ops encoder loop (finish_all write_at (length loop.jobs)) in
        (length after.jobs ≡ length loop.jobs)
        × All HasEnded after.jobs
        × All HasNoOpenSlot after.gateway.replicas
  unfolding open_requests
  interleave_drains g events write_at fresh =
      let size = length g.replicas in
      let loop = interleave workers ops encoder (started g) events in
      let drain = finish_all write_at (length loop.jobs) in
      let after = interleave workers ops encoder loop drain in
      let placed =
        interleave-Placed size (started g) events
          (AllAt-imp (λ i r. IsFresh i r × (i < 0 + size)) (Holds (InCluster size) []) 0 g.replicas
            (λ i r p. (p.0.0, (omega (arith, p.0), omega (arith, p))))
            (AllAt-lt IsFresh 0 g.replicas fresh))
          (refl, tt) in
      let drained =
        finish_all-Within workers ops encoder (length loop.jobs) loop write_at size (omega arith)
          placed.0
          (AllAt-of_All (HasReplica size) (Within size (bound (length loop.jobs) 0)) 0 loop.jobs
            (λ i job less p. (p, ground (arith, less, turns_left_le job.stage))) placed.1) in
      let over : All HasEnded after.jobs = All-AllAt HasEnded 0 after.jobs (
        AllAt-imp (Within size (bound 0 0)) (λ i job. HasEnded job) 0 after.jobs
          (λ i job p. ground (arith, p.1)) drained.1) in
      let counted =
        subst
          (λ (l : EventLoop S).
            AllAt (λ i r. (r.id ≡ i) × CountsSlots r (open_requests i l.jobs)) 0 l.gateway.replicas)
          (interleave-append ops encoder workers (started g) events drain)
          (interleave-CountsSlots ops encoder workers run_kept stream_kept g (events ++ drain)
            fresh) in
      (
        drained.0,
        over,
        All-AllAt HasNoOpenSlot 0 after.gateway.replicas (
            AllAt-imp (λ i r. (r.id ≡ i) × CountsSlots r (open_requests i after.jobs))
              (λ i r. HasNoOpenSlot r) 0 after.gateway.replicas
              (λ i r p. omega (arith, p.1, open_requests-HasEnded i after.jobs over)) counted),
      )
