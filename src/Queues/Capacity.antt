-- ===== src/Queues/Capacity.antt =====
-- How many jobs and workers a chain of queues has at a time.
use cumulus_ci.Prelude.{
  ℕ, zero, suc, ◌+◌, ◌≤◌, ◌≡◌, sym, Option, none, some, List, [], ◌∷◌, false, nat_eq, Bool-cases,
  inl, inr, All, String, arith, length, length-append, subst,
}
use cumulus_ci.Queues.Steps.{
  Queue, Pipeline, living, num_busy_workers, num_free_workers, free_space, full, drop, start_jobs,
  tick, queue_job, push_job, push_first, take_out, hand_on, delivered, failed, stop, at_queue,
  Change, pushed, ticked, done, failing, stopped, or_unchanged, step, play,
}
use cumulus_ci.Queues.Workers.{
  length-take-drop, length-take-le, num_busy_workers-start_jobs, num_free_workers-minus,
  length-living-stop,
}
use cumulus_ci.Queues.Listing.{Listing, length-Perm}

-- No more workers than the configuration says.
abbrev pub Staffed : Queue → Type 0
Staffed queue = num_busy_workers queue ≤ queue.num_workers

-- No more jobs than workers and places in the queue: of the queue that is pushed to.
abbrev pub Fits : List Queue → Type 0
Fits [] = Unit
Fits (queue ∷ queues) =
    num_busy_workers queue + length queue.inbox ≤ queue.num_workers + queue.queue_size

abbrev pub InCapacity : Pipeline → Type 0
InCapacity p = All Staffed p.queues × Fits p.queues

pub start_jobs-Staffed :
    (listing : Listing) (queue : Queue) → Staffed queue → Staffed (start_jobs listing queue)
unfolding start_jobs
start_jobs-Staffed listing queue h =
    let busy = num_busy_workers-start_jobs listing queue in
    let few = length-take-le (num_free_workers queue) (listing.order queue.inbox) in
    let free = num_free_workers-minus queue in
    subst (λ k. k ≤ queue.num_workers) (sym busy) (omega (arith, few, free, h))

tick-Fits : (listing : Listing) (queues : List Queue) → Fits queues → Fits (tick listing queues)
unfolding tick start_jobs
tick-Fits listing [] h = h
tick-Fits listing (queue ∷ queues) h =
    let busy = num_busy_workers-start_jobs listing queue in
    let all = length-take-drop (num_free_workers queue) (listing.order queue.inbox) in
    let same = length-Perm (listing.order queue.inbox) queue.inbox (listing.whole queue.inbox) in
    subst
      (λ k.
        k + length (drop (num_free_workers queue) (listing.order queue.inbox))
        ≤ queue.num_workers + queue.queue_size)
      (sym busy) (omega (arith, all, same, h))

tick-Staffed :
    (listing : Listing) (queues : List Queue)
    → All Staffed queues
    → All Staffed (tick listing queues)
unfolding tick
tick-Staffed listing [] h = h
tick-Staffed listing (queue ∷ queues) (here, rest) =
    (start_jobs-Staffed listing queue here, tick-Staffed listing queues rest)

-- Moving a job between folders leaves the workers as they are.
hand_on-Staffed :
    (job : String) (queues : List Queue) (outbox : List String)
    → All Staffed queues
    → All Staffed (hand_on job queues outbox).queues
unfolding num_busy_workers
hand_on-Staffed job [] outbox h = h
hand_on-Staffed job (queue ∷ queues) outbox h = h

delivered-Staffed :
    (queue : Queue) (queues : List Queue) (outbox : List String)
    (taken : Option (String × List String))
    → All Staffed (queue ∷ queues)
    → All Staffed (delivered queue queues outbox taken).queues
unfolding num_busy_workers
delivered-Staffed queue queues outbox none h = h
delivered-Staffed queue queues outbox (some (job, rest)) (here, more) =
    (here, hand_on-Staffed job queues outbox more)

delivered-Fits :
    (queue : Queue) (queues : List Queue) (outbox : List String)
    (taken : Option (String × List String))
    → Fits (queue ∷ queues)
    → Fits (delivered queue queues outbox taken).queues
unfolding num_busy_workers
delivered-Fits queue queues outbox none h = h
delivered-Fits queue queues outbox (some (job, rest)) h = h

failed-Staffed :
    (queue : Queue) (taken : Option (String × List String))
    → Staffed queue
    → Staffed (failed queue taken)
unfolding num_busy_workers
failed-Staffed queue none h = h
failed-Staffed queue (some (job, rest)) h = h

failed-Fits :
    (queue : Queue) (queues : List Queue) (taken : Option (String × List String))
    → Fits (queue ∷ queues)
    → Fits (failed queue taken ∷ queues)
unfolding num_busy_workers
failed-Fits queue queues none h = h
failed-Fits queue queues (some (job, rest)) h = h

at_queue-InCapacity :
    (k : ℕ) (work : Queue → List Queue → List String → Pipeline) (queues : List Queue)
    (outbox : List String)
    → ((q : Queue) (qs : List Queue) (o : List String)
        → All Staffed (q ∷ qs)
        → All Staffed (work q qs o).queues)
    → ((q : Queue) (qs : List Queue) (o : List String) → Fits (q ∷ qs) → Fits (work q qs o).queues)
    → All Staffed queues × Fits queues
    → InCapacity (at_queue k work queues outbox)
unfolding at_queue
at_queue-InCapacity k work [] outbox staffed fits h = h
at_queue-InCapacity zero work (queue ∷ queues) outbox staffed fits (s, f) =
    (staffed queue queues outbox s, fits queue queues outbox f)
at_queue-InCapacity (suc k) work (queue ∷ queues) outbox staffed fits ((here, rest), f) =
    ((here, later k queues rest), f)
  where
    later :
        (k : ℕ) (queues : List Queue)
        → All Staffed queues
        → All Staffed (at_queue k work queues outbox).queues
    later k [] h = h
    later zero (q ∷ qs) h = staffed q qs outbox h
    later (suc k) (q ∷ qs) (here, h) = (here, later k qs h)

-- There is room for one more job where the queue is not full.
free_space-room :
    (job : String) (queue : Queue) (queues : List Queue)
    → full (queue ∷ queues) ≡ false
    → Fits (queue_job job queue ∷ queues)
unfolding full free_space num_busy_workers
free_space-room job queue queues room =
    let longer = length-append queue.inbox (job ∷ []) in
    let some_left : nat_eq (free_space queue) 0 ≡ false = ground arith in
    let fits : suc (num_busy_workers queue + length queue.inbox)
        ≤ queue.num_workers + queue.queue_size =
      ground arith in
    omega (arith, longer, fits)

queue_job-Staffed : (job : String) (queue : Queue) → Staffed queue → Staffed (queue_job job queue)
unfolding num_busy_workers
queue_job-Staffed job queue h = h

push_first-InCapacity :
    (listing : Listing) (job : String) (p : Pipeline)
    → InCapacity p
    → InCapacity (or_unchanged p (push_first listing job p))
unfolding push_first push_job
push_first-InCapacity listing job p h = pushed_to p.queues p.outbox h
  where
    pushed_to :
        (queues : List Queue) (outbox : List String)
        → All Staffed queues × Fits queues
        → InCapacity (
            or_unchanged
              (record { queues = queues; outbox = outbox })
              (push_first listing job (record { queues = queues; outbox = outbox })))
    pushed_to [] outbox h = h
    pushed_to (queue ∷ queues) outbox ((here, rest), f) =
        elim (Bool-cases (full (queue ∷ queues))) [
          | inl none_left ↦ rw none_left ((here, rest), f)
          | inr room ↦ rw room (
            tick-Staffed listing (queue_job job queue ∷ queues)
                (queue_job-Staffed job queue here, rest),
            tick-Fits listing (queue_job job queue ∷ queues)
                (free_space-room job queue queues room),
          )
        ]

stopped-Fits :
    (i : ℕ) (queue : Queue) (queues : List Queue)
    → Fits (queue ∷ queues)
    → Fits ((record queue { workers = stop i queue.workers }) ∷ queues)
unfolding num_busy_workers
stopped-Fits i queue queues h = omega (arith, length-living-stop i queue.workers, h)

stopped-Staffed :
    (i : ℕ) (queue : Queue)
    → Staffed queue
    → Staffed (record queue { workers = stop i queue.workers })
unfolding num_busy_workers
stopped-Staffed i queue h = omega (arith, length-living-stop i queue.workers, h)

step-InCapacity : (e : Change) (p : Pipeline) → InCapacity p → InCapacity (step e p)
unfolding step
step-InCapacity (pushed listing job) p h = push_first-InCapacity listing job p h
step-InCapacity (ticked listing) p (s, f) =
    (tick-Staffed listing p.queues s, tick-Fits listing p.queues f)
step-InCapacity (done k i) p h =
    at_queue-InCapacity k
      (λ queue queues outbox. delivered queue queues outbox (take_out i queue.inprogress)) p.queues
      p.outbox (λ q qs o. delivered-Staffed q qs o (take_out i q.inprogress))
      (λ q qs o. delivered-Fits q qs o (take_out i q.inprogress)) h
step-InCapacity (failing k i) p h =
    at_queue-InCapacity k _ p.queues p.outbox
      (λ q qs o s. (failed-Staffed q (take_out i q.inprogress) s.0, s.1))
      (λ q qs o. failed-Fits q qs (take_out i q.inprogress)) h
step-InCapacity (stopped k i) p h =
    at_queue-InCapacity k _ p.queues p.outbox (λ q qs o s. (stopped-Staffed i q s.0, s.1))
      (λ q qs o. stopped-Fits i q qs) h

-- Queues that nothing was pushed to yet, by their numbers of workers and places.
abbrev pub idle : List (ℕ × ℕ) → List Queue
idle [] = []
idle ((workers, places) ∷ sizes) =
    (record {
      num_workers = workers;
      queue_size = places;
      inbox = [];
      inprogress = [];
      failures = [];
      workers = [];
    })
    ∷ idle sizes

abbrev pub fresh : List (ℕ × ℕ) → Pipeline
fresh sizes = record { queues = idle sizes; outbox = [] }

fresh-InCapacity : (sizes : List (ℕ × ℕ)) → InCapacity (fresh sizes)
unfolding num_busy_workers living
fresh-InCapacity sizes = (staffed sizes, fits sizes)
  where
    staffed : (sizes : List (ℕ × ℕ)) → All Staffed (idle sizes)
    staffed [] = tt
    staffed ((w, n) ∷ sizes) = (omega arith, staffed sizes)

    fits : (sizes : List (ℕ × ℕ)) → Fits (idle sizes)
    fits [] = tt
    fits ((w, n) ∷ sizes) = omega arith

-- Whatever happens to queues that were empty, and in whichever order: no queue has more living
-- workers than it is configured for, and the queue that is pushed to has no more waiting jobs and
-- living workers than it has workers and places together.
pub play-InCapacity :
    (sizes : List (ℕ × ℕ)) (events : List Change) → InCapacity (play events (fresh sizes))
unfolding play
play-InCapacity sizes events = after events (fresh sizes) (fresh-InCapacity sizes)
  where
    after : (events : List Change) (p : Pipeline) → InCapacity p → InCapacity (play events p)
    after [] p h = h
    after (e ∷ es) p h = after es (step e p) (step-InCapacity e p h)
