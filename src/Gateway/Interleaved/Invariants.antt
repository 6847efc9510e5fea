-- ===== src/Gateway/Interleaved/Invariants.antt =====
-- agentserve/gateway.py: what holds of each replica, and of the number of requests inside of its
-- slots, while requests interleave.
use agentserve.Common.Positions.{AllAt, AllAt-get_elem?, AllAt-map, AllAt-set, AllAt-imp}
use agentserve.Common.{
  ℕ, zero, suc, ◌+◌, ◌-◌, ◌≤◌, ◌≡◌, ◌≢◌, refl, sym, ◌∙◌, subst, arith, String, Bool, Option, none,
  some, List, [], ◌∷◌, ◌++◌, get_elem?, set, if◌then◌else◌,
}
use agentserve.Gateway.Interleaved.{
  Stage, Job, JobTurn, LoopEvent, EventLoop, waiting, running, answered, finished, dropped, enter,
  work, leave, cancel, arrive, resume, call_backend, given_by, take_turn, note, apply_turn,
  resume_on, resume_job, enlist, step, interleave, is_open, open_requests,
}
use agentserve.Gateway.Scheduling.{schedule-replicas}
use agentserve.Gateway.{Gateway, Worker, schedule, record_result}
use agentserve.Models.{RequestResult}
use agentserve.Replica.{Replica, prune, enter_slot, leave_slot}
use agentserve.Result.{Result, ok, raise}
use agentserve.State.{SessionStore}
use agentserve.Tokenizer.{count_messages}

abbrev pub slots_of : Stage → ℕ
slots_of stage = if is_open stage then 1 else 0

-- The open requests with one in this stage, beside `m` others.
abbrev with_slot : Stage → ℕ → ℕ
with_slot stage m = if is_open stage then suc m else m

pub open_requests-set :
    (id : ℕ) (jobs : List Job) (i : ℕ) (job : Job) (stage : Stage)
    → get_elem? jobs i ≡ some job
    → job.replica_id ≡ id
    → open_requests id (set jobs i (record job { stage = stage })) + slots_of job.stage
      ≡ open_requests id jobs + slots_of stage
unfolding open_requests
open_requests-set id [] i job stage e h = ground arith
open_requests-set id (j ∷ jobs) zero job stage e h =
    let same : j ≡ job = cc in rw same (ground (arith, h))
open_requests-set id (j ∷ jobs) (suc i) job stage e h =
    ground (arith, open_requests-set id jobs i job stage e h)

open_requests-set_ne :
    (id : ℕ) (jobs : List Job) (i : ℕ) (job : Job) (stage : Stage)
    → get_elem? jobs i ≡ some job
    → id ≢ job.replica_id
    → open_requests id (set jobs i (record job { stage = stage })) ≡ open_requests id jobs
unfolding open_requests
open_requests-set_ne id [] i job stage e h = ground arith
open_requests-set_ne id (j ∷ jobs) zero job stage e h =
    let same : j ≡ job = cc in rw same (ground (arith, h))
open_requests-set_ne id (j ∷ jobs) (suc i) job stage e h =
    ground (arith, open_requests-set_ne id jobs i job stage e h)

-- A request in a slot is counted.
open_slot :
    (id : ℕ) (jobs : List Job) (i : ℕ) (job : Job)
    → get_elem? jobs i ≡ some job
    → job.replica_id ≡ id
    → slots_of job.stage ≤ open_requests id jobs
unfolding open_requests
open_slot id [] i job e h = ground arith
open_slot id (j ∷ jobs) zero job e h = let same : j ≡ job = cc in rw same (ground (arith, h))
open_slot id (j ∷ jobs) (suc i) job e h = ground (arith, open_slot id jobs i job e h)

open_requests-append :
    (id : ℕ) (jobs : List Job) (job : Job)
    → slots_of job.stage ≡ 0
    → open_requests id (jobs ++ job ∷ []) ≡ open_requests id jobs
unfolding open_requests
open_requests-append id [] job h = ground (arith, h)
open_requests-append id (j ∷ jobs) job h = ground (arith, open_requests-append id jobs job h)

-- A replica stands at its number, and `P` holds of it and of the number of its open requests.
abbrev pub Holds : (ℕ → Replica → Type 0) → List Job → ℕ → Replica → Type 0
Holds P jobs i r = (r.id ≡ i) × P (open_requests i jobs) r

abbrev pub Everywhere : (ℕ → Replica → Type 0) → {S : Type 0} → EventLoop S → Type 0
Everywhere P loop = AllAt (Holds P loop.jobs) 0 loop.gateway.replicas

module _ (P : ℕ → Replica → Type 0)
    (prune_keeps : (now_ms n : ℕ) (r : Replica) → P n r → P n (prune r now_ms))
    (enter_keeps : (n : ℕ) (r : Replica) → P n r → P (suc n) (enter_slot r))
    (leave_keeps : (n : ℕ) (r : Replica) → P (suc n) r → P n (leave_slot r)) (workers : ℕ → Worker)
    (call_keeps : (k : ℕ) (job : Job) (n : ℕ) (r : Replica)
      → P (suc n) r
      → ((call_backend (workers k) job r).0.id ≡ r.id)
        × P (suc n) (call_backend (workers k) job r).0) where
  -- `m` counts the open requests besides this one.
  take_turn-keeps :
      (turn : JobTurn) (job : Job) (stage : Stage) (r : Replica) (m : ℕ)
      → P (with_slot stage m) r
      → let next = take_turn workers turn job stage r in
        (next.0.id ≡ r.id) × P (with_slot next.1 m) next.0
  unfolding take_turn given_by enter_slot leave_slot is_open
  take_turn-keeps enter job waiting r m h = (refl, unfold enter_slot in enter_keeps m r h)
  take_turn-keeps (work k) job running r m h = call_keeps k job m r h
  take_turn-keeps leave job (answered reply) r m h = (refl, leave_keeps m r h)
  take_turn-keeps cancel job waiting r m h = (refl, h)
  take_turn-keeps cancel job running r m h = (refl, leave_keeps m r h)
  take_turn-keeps cancel job (answered reply) r m h = (refl, leave_keeps m r h)
  take_turn-keeps enter job running r m h = (refl, h)
  take_turn-keeps enter job (answered reply) r m h = (refl, h)
  take_turn-keeps enter job (finished x) r m h = (refl, h)
  take_turn-keeps enter job dropped r m h = (refl, h)
  take_turn-keeps (work k) job waiting r m h = (refl, h)
  take_turn-keeps (work k) job (answered reply) r m h = (refl, h)
  take_turn-keeps (work k) job (finished x) r m h = (refl, h)
  take_turn-keeps (work k) job dropped r m h = (refl, h)
  take_turn-keeps leave job waiting r m h = (refl, h)
  take_turn-keeps leave job running r m h = (refl, h)
  take_turn-keeps leave job (finished x) r m h = (refl, h)
  take_turn-keeps leave job dropped r m h = (refl, h)
  take_turn-keeps cancel job (finished x) r m h = (refl, h)
  take_turn-keeps cancel job dropped r m h = (refl, h)

  module _ {S : Type 0} (ops : SessionStore S) (encoder : Option (String → ℕ)) where
    note-replicas :
        (g : Gateway S) (write_at : ℕ) (job : Job) (result : Option RequestResult)
        → (note workers ops encoder g write_at job result).replicas ≡ g.replicas
    unfolding note record_result
    note-replicas g write_at job none = refl
    note-replicas g write_at job (some r) = refl

    -- The others of a list with one request in another stage.
    elsewhere :
        (jobs : List Job) (i : ℕ) (job : Job) (stage : Stage) (j : ℕ) (x : Replica)
        → get_elem? jobs i ≡ some job
        → j ≢ job.replica_id
        → Holds P jobs j x
        → Holds P (set jobs i (record job { stage = stage })) j x
    elsewhere jobs i job stage j x found far h =
        (h.0, subst (λ n. P n x) (sym (open_requests-set_ne j jobs i job stage found far)) h.1)

    apply_turn-Everywhere :
        (loop : EventLoop S) (i write_at : ℕ) (job : Job) (r : Replica) (turn : JobTurn)
        → get_elem? loop.jobs i ≡ some job
        → get_elem? loop.gateway.replicas job.replica_id ≡ some r
        → Everywhere P loop
        → Everywhere P (
            apply_turn workers ops encoder loop i write_at job
              (take_turn workers turn job job.stage r))
    unfolding apply_turn
    apply_turn-Everywhere loop i write_at job r turn found here h =
        let id = job.replica_id in
        let next = take_turn workers turn job job.stage r in
        let p = AllAt-get_elem? (Holds P loop.jobs) 0 id loop.gateway.replicas r h here in
        let m = open_requests id loop.jobs - slots_of job.stage in
        let moved = open_requests-set id loop.jobs i job next.1 found refl in
        let q =
          take_turn-keeps turn job job.stage r m
            (subst (λ n. P n r) (ground (arith, open_slot id loop.jobs i job found refl)) p.1) in
        rw
          (note-replicas (record (loop.gateway) { replicas = set loop.gateway.replicas id next.0 })
            write_at job next.2)
          (AllAt-set (Holds P loop.jobs) (Holds P (set loop.jobs i (record job { stage = next.1 })))
            0 id next.0 loop.gateway.replicas
            (λ j x far. elsewhere loop.jobs i job next.1 j x found (λ e. far (omega (arith, e))))
            (
              q.0 ∙ p.0,
              subst (λ n. P n next.0)
                  (ground (arith, moved, open_slot id loop.jobs i job found refl)) q.1,
            )
            h)

    resume_on-Everywhere :
        (loop : EventLoop S) (i write_at : ℕ) (job : Job) (turn : JobTurn) (r : Option Replica)
        → get_elem? loop.jobs i ≡ some job
        → get_elem? loop.gateway.replicas job.replica_id ≡ r
        → Everywhere P loop
        → Everywhere P (resume_on workers ops encoder loop i write_at turn job r)
    unfolding resume_on
    resume_on-Everywhere loop i write_at job turn none found here h = h
    resume_on-Everywhere loop i write_at job turn (some r) found here h =
        apply_turn-Everywhere loop i write_at job r turn found here h

    resume_job-Everywhere :
        (loop : EventLoop S) (i write_at : ℕ) (turn : JobTurn) (job : Option Job)
        → get_elem? loop.jobs i ≡ job
        → Everywhere P loop
        → Everywhere P (resume_job workers ops encoder loop i write_at turn job)
    unfolding resume_job
    resume_job-Everywhere loop i write_at turn none found h = h
    resume_job-Everywhere loop i write_at turn (some job) found h =
        resume_on-Everywhere loop i write_at job turn _ found refl h

    enlist-Everywhere :
        (sid : String) (prompt max_tokens : ℕ) (wants_stream : Bool) (now_ms : ℕ) (jobs : List Job)
        (g : Gateway S) (found : Result (Replica × ℕ))
        → AllAt (Holds P jobs) 0 g.replicas
        → Everywhere P
            (enlist workers ops encoder sid prompt max_tokens wants_stream now_ms jobs (g, found))
    unfolding enlist is_open
    enlist-Everywhere sid prompt max_tokens wants_stream now_ms jobs g (raise e) h = h
    enlist-Everywhere sid prompt max_tokens wants_stream now_ms jobs g (ok (r, gap)) h =
        AllAt-imp (Holds P jobs) (Holds P (jobs ++ _ ∷ [])) 0 g.replicas
          (λ i q p. (
            p.0,
            subst (λ n. P n q)
                (sym (
                  open_requests-append i jobs
                    (record {
                      session_id = sid;
                      prompt_tokens = prompt;
                      max_tokens = max_tokens;
                      wants_stream = wants_stream;
                      now_ms = now_ms;
                      replica_id = r.id;
                      gap_ms = gap;
                      stage = waiting;
                    })
                    refl))
                p.1,
          ))
          h

    pub step-Everywhere :
        (loop : EventLoop S) (event : LoopEvent)
        → Everywhere P loop
        → Everywhere P (step workers ops encoder loop event)
    unfolding step
    step-Everywhere loop (resume i turn write_at) h =
        resume_job-Everywhere loop i write_at turn (get_elem? loop.jobs i) refl h
    step-Everywhere loop (arrive read_at write_at now_ms sid tool messages max_tokens wants) h =
        let scheduled = schedule ops loop.gateway read_at write_at sid tool now_ms in
        enlist-Everywhere sid (count_messages encoder messages) max_tokens wants now_ms loop.jobs
          scheduled.0 scheduled.1
          (rw (schedule-replicas ops loop.gateway read_at write_at sid tool now_ms) (
            AllAt-map (Holds P loop.jobs) (Holds P loop.jobs) (λ r. prune r now_ms) 0
              loop.gateway.replicas (λ i r p. (unfold prune in p.0, prune_keeps now_ms _ r p.1)) h))

    pub interleave-Everywhere :
        (loop : EventLoop S) (events : List LoopEvent)
        → Everywhere P loop
        → Everywhere P (interleave workers ops encoder loop events)
    unfolding interleave
    interleave-Everywhere loop [] h = h
    interleave-Everywhere loop (event ∷ events) h =
        interleave-Everywhere (step workers ops encoder loop event) events
          (step-Everywhere loop event h)
