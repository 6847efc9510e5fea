-- ===== src/Gateway/Interleaved/Drained.antt =====
-- agentserve/gateway.py: no interleaving leaves a request that cannot come to its end.
use agentserve.Common.Positions.{AllAt, AllAt-imp, AllAt-get_elem?, AllAt-set, get_elem?-of_lt}
use agentserve.Common.{
  ℕ, zero, suc, ◌≤◌, ◌<◌, ◌≡◌, refl, ◌∙◌, arith, ltb, ◌==◌, String, Option, none, some, List, [],
  ◌∷◌, get_elem?, length, length-set, if◌then◌else◌,
}
use agentserve.Gateway.Interleaved.{
  Stage, Job, JobTurn, LoopEvent, EventLoop, waiting, running, answered, finished, dropped, enter,
  work, leave, resume, given_by, take_turn, note, apply_turn, resume_on, resume_job, step,
  interleave,
}
use agentserve.Gateway.{Gateway, Worker, record_result}
use agentserve.Models.{RequestResult}
use agentserve.Replica.{Replica}
use agentserve.State.{SessionStore}

-- The turns that a request has before it.
abbrev pub turns_left : Stage → ℕ
turns_left waiting = 3
turns_left running = 2
turns_left (answered reply) = 1
turns_left (finished response) = 0
turns_left dropped = 0

-- The turn of a request with one more turn before it than this.
abbrev turn_before : (call : ℕ) → ℕ → JobTurn
turn_before call zero = leave
turn_before call (suc zero) = work call
turn_before call (suc (suc n)) = enter

-- The turns of the first `n` requests, the last of them first.
abbrev pub finish_all : (write_at : ℕ) → ℕ → List LoopEvent
finish_all write_at zero = []
finish_all write_at (suc n) =
    resume n enter write_at
    ∷ resume n (work n) write_at
    ∷ resume n leave write_at
    ∷ finish_all write_at n

-- The request stands for a replica of the cluster, with at most some turns before it.
abbrev pub Within : ℕ → (ℕ → ℕ) → ℕ → Job → Type 0
Within size bound i job = (job.replica_id < size) × (turns_left job.stage ≤ bound i)

-- Three turns for the first `n` requests, `m` for the next, and none for the others.
abbrev pub bound : (n m : ℕ) → ℕ → ℕ
bound n m i = if ltb i n then 3 else (if i == n then m else 0)

module _ (workers : ℕ → Worker) where
  take_turn-turns_left :
      (m k : ℕ) (job : Job) (stage : Stage) (r : Replica)
      → m ≤ 2
      → turns_left stage ≤ suc m
      → turns_left (take_turn workers (turn_before k m) job stage r).1 ≤ m
  unfolding take_turn given_by
  take_turn-turns_left zero k job waiting r b h = absurd (omega (arith, h))
  take_turn-turns_left zero k job running r b h = absurd (omega (arith, h))
  take_turn-turns_left zero k job (answered x) r b h = omega arith
  take_turn-turns_left zero k job (finished x) r b h = omega arith
  take_turn-turns_left zero k job dropped r b h = omega arith
  take_turn-turns_left (suc zero) k job waiting r b h = absurd (omega (arith, h))
  take_turn-turns_left (suc zero) k job running r b h = omega arith
  take_turn-turns_left (suc zero) k job (answered x) r b h = omega arith
  take_turn-turns_left (suc zero) k job (finished x) r b h = omega arith
  take_turn-turns_left (suc zero) k job dropped r b h = omega arith
  take_turn-turns_left (suc (suc m)) k job waiting r b h = omega arith
  take_turn-turns_left (suc (suc m)) k job running r b h = omega arith
  take_turn-turns_left (suc (suc m)) k job (answered x) r b h = omega arith
  take_turn-turns_left (suc (suc m)) k job (finished x) r b h = omega arith
  take_turn-turns_left (suc (suc m)) k job dropped r b h = omega arith

  module _ {S : Type 0} (ops : SessionStore S) (encoder : Option (String → ℕ)) where
    pub length-note :
        (g : Gateway S) (write_at : ℕ) (job : Job) (result : Option RequestResult)
        → length (note workers ops encoder g write_at job result).replicas ≡ length g.replicas
    unfolding note record_result
    length-note g write_at job none = refl
    length-note g write_at job (some r) = refl

    -- A turn of a request with its replica.
    pub step_on :
        (loop : EventLoop S) (i write_at : ℕ) (turn : JobTurn) (job : Job) (r : Replica)
        → get_elem? loop.jobs i ≡ some job
        → get_elem? loop.gateway.replicas job.replica_id ≡ some r
        → step workers ops encoder loop (resume i turn write_at)
          ≡ apply_turn workers ops encoder loop i write_at job
              (take_turn workers turn job job.stage r)
    unfolding step resume_job resume_on
    step_on loop i write_at turn job r found here = rw (found, resume_job, here, resume_on)

    step-Within :
        (loop : EventLoop S) (n m k write_at size : ℕ)
        → m ≤ 2
        → n < length loop.jobs
        → length loop.gateway.replicas ≡ size
        → AllAt (Within size (bound n (suc m))) 0 loop.jobs
        → let next = step workers ops encoder loop (resume n (turn_before k m) write_at) in
          (length next.jobs ≡ length loop.jobs)
          × (length next.gateway.replicas ≡ size)
          × AllAt (Within size (bound n m)) 0 next.jobs
    unfolding apply_turn
    step-Within loop n m k write_at size small there sized h =
        let (job, found) = get_elem?-of_lt loop.jobs n there in
        let within = AllAt-get_elem? (Within size (bound n (suc m))) 0 n loop.jobs job h found in
        let (r, here) =
          get_elem?-of_lt loop.gateway.replicas job.replica_id (omega (arith, within.0, sized)) in
        let next = take_turn workers (turn_before k m) job job.stage r in
        rw (step_on loop n write_at (turn_before k m) job r found here) (
          length-set loop.jobs n _,
          length-note _ write_at job next.2 ∙ length-set loop.gateway.replicas _ _ ∙ sized,
          AllAt-set (Within size (bound n (suc m))) (Within size (bound n m)) 0 n
              (record job { stage = next.1 }) loop.jobs
              (λ j x far p. (p.0, ground (arith, p.1, far)))
              (
                within.0,
                ground (
                  arith,
                  take_turn-turns_left m k job job.stage r small (ground (arith, within.1)),
                ),
              )
              h,
        )

    -- The three turns of a request, the last that is not at its end.
    finish_one :
        (loop : EventLoop S) (n write_at size : ℕ)
        → n < length loop.jobs
        → length loop.gateway.replicas ≡ size
        → AllAt (Within size (bound n 3)) 0 loop.jobs
        → let next =
            interleave workers ops encoder loop (
              resume n enter write_at
              ∷ resume n (work n) write_at
              ∷ resume n leave write_at
              ∷ []) in
          (length next.jobs ≡ length loop.jobs)
          × (length next.gateway.replicas ≡ size)
          × AllAt (Within size (bound n 0)) 0 next.jobs
    unfolding interleave
    finish_one loop n write_at size there sized h =
        let first = step-Within loop n 2 n write_at size (omega arith) there sized h in
        let entered = step workers ops encoder loop (resume n enter write_at) in
        let second =
          step-Within entered n 1 n write_at size (omega arith) (omega (arith, there, first.0))
            first.1 first.2 in
        let worked = step workers ops encoder entered (resume n (work n) write_at) in
        let third =
          step-Within worked n 0 n write_at size (omega arith)
            (omega (arith, there, first.0, second.0)) second.1 second.2 in
        (third.0 ∙ second.0 ∙ first.0, third.1, third.2)

    pub finish_all-Within :
        (n : ℕ) (loop : EventLoop S) (write_at size : ℕ)
        → n ≤ length loop.jobs
        → length loop.gateway.replicas ≡ size
        → AllAt (Within size (bound n 0)) 0 loop.jobs
        → let after = interleave workers ops encoder loop (finish_all write_at n) in
          (length after.jobs ≡ length loop.jobs) × AllAt (Within size (bound 0 0)) 0 after.jobs
    unfolding interleave
    finish_all-Within zero loop write_at size there sized h = (refl, h)
    finish_all-Within (suc n) loop write_at size there sized h =
        let last = finish_one loop n write_at size (omega (arith, there)) sized (
          AllAt-imp (Within size (bound (suc n) 0)) (Within size (bound n 3)) 0 loop.jobs
            (λ i job p. (p.0, ground (arith, p.1))) h) in
        let rest =
          finish_all-Within n _ write_at size (omega (arith, there, last.0)) last.1 last.2 in
        (rest.0 ∙ last.0, rest.1)
