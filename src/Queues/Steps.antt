-- ===== src/Queues/Steps.antt =====
-- WorkerQueue of cumulusci/utils/parallel/task_worker_queues/parallel_worker_queue.py, and what a TaskWorker of
-- parallel_worker.py does to its folders. A folder is the list of the jobs in it; a tick lists the inbox
-- in any order. A job keeps its name, and no two jobs have one name: a move onto a name that is there
-- would raise. The workers run beside the queues: their moves and their ends are events of their own.
use cumulus_ci.Prelude.{
  ℕ, zero, suc, ◌+◌, ◌-◌, Option, none, some, List, [], ◌∷◌, ◌++◌, Bool, true, false, not, ◌&&◌,
  ◌||◌, nat_eq, String, ◌==◌, if◌then◌else◌, Result, ok, err, ◌>>=◌, length, take,
}
use cumulus_ci.Queues.Listing.{Listing}

pub record Worker : Type 0 where
  pub working_dir : String
  pub is_alive : Bool

pub record Queue : Type 0 where
  pub num_workers : ℕ
  pub queue_size : ℕ
  pub inbox : List String
  pub inprogress : List String
  pub failures : List String
  pub workers : List Worker

-- A queue and those that it feeds, each in turn, with the folder behind the last.
pub record Pipeline : Type 0 where
  pub queues : List Queue
  pub outbox : List String

pub data PushError : Type 0 where
  assertion_error : PushError
  queue_is_full : PushError

abbrev pub keep_if : {A : Type 0} → Bool → A → List A → List A
keep_if true x xs = x ∷ xs
keep_if false x xs = xs

-- [w for w in self.workers if w.is_alive()]
unfoldable pub living : List Worker → List Worker
living [] = []
living (w ∷ ws) = keep_if w.is_alive w (living ws)

unfoldable pub num_busy_workers : Queue → ℕ
unfolding living
num_busy_workers queue = length (living queue.workers)

unfoldable pub num_free_workers : Queue → ℕ
unfolding num_busy_workers
num_free_workers queue = queue.num_workers - num_busy_workers queue

-- max(... , 0)
unfoldable pub free_space : Queue → ℕ
unfolding num_busy_workers
free_space queue =
    queue.num_workers + queue.queue_size - (num_busy_workers queue + length queue.inbox)

unfoldable pub full : List Queue → Bool
unfolding free_space
full [] = false
full (queue ∷ queues) = nat_eq (free_space queue) 0 || full queues

abbrev pub drop : {A : Type 0} → ℕ → List A → List A
drop zero xs = xs
drop (suc k) [] = []
drop (suc k) (x ∷ xs) = drop k xs

abbrev pub started : List String → List Worker
started [] = []
started (job ∷ jobs) = (record { working_dir = job; is_alive = true }) ∷ started jobs

-- `tick` of one queue: the jobs that are listed first, as many as workers are free.
unfoldable pub start_jobs : Listing → Queue → Queue
unfolding living num_free_workers
start_jobs listing queue =
    let free : ℕ = num_free_workers queue in
    let listed : List String = listing.order queue.inbox in
    record queue {
      inbox = drop free listed;
      inprogress = queue.inprogress ++ take free listed;
      workers = living queue.workers ++ started (take free listed);
    }

unfoldable pub tick : Listing → List Queue → List Queue
unfolding start_jobs
tick listing [] = []
tick listing (queue ∷ queues) = start_jobs listing queue ∷ tick listing queues

-- `_queue_job`
abbrev pub queue_job : String → Queue → Queue
queue_job job queue = record queue { inbox = queue.inbox ++ (job ∷ []) }

-- The job that is given: a folder or a name, and not both. An empty one counts as none.
abbrev pub is_given : Option String → Bool
is_given none = false
is_given (some name) = not (name == "")

abbrev pub or_empty : Option String → String
or_empty none = ""
or_empty (some name) = name

unfoldable pub job_of : Option String → Option String → Result PushError String
job_of job_dir name =
    if is_given job_dir && is_given name
    then err assertion_error
    else if not (is_given job_dir || is_given name)
    then err assertion_error
    else ok (or_empty (if is_given job_dir then job_dir else name))

-- `push` on a queue that feeds the others
unfoldable pub push_job : Listing → String → Queue → List Queue → Result PushError (List Queue)
unfolding full tick
push_job listing job queue queues =
    if full (queue ∷ queues)
    then err queue_is_full
    else ok (tick listing (queue_job job queue ∷ queues))

unfoldable pub push :
    Listing → Option String → Option String → Queue → List Queue → Result PushError (List Queue)
unfolding job_of push_job
push listing job_dir name queue queues =
    job_of job_dir name >>= λ job. push_job listing job queue queues

-- A job at a place in a folder, and what is left of it.
abbrev pub put_back : {A : Type 0} → A → Option (A × List A) → Option (A × List A)
put_back x none = none
put_back x (some (y, ys)) = some (y, x ∷ ys)

unfoldable pub take_out : {A : Type 0} → ℕ → List A → Option (A × List A)
take_out i [] = none
take_out zero (x ∷ xs) = some (x, xs)
take_out (suc i) (x ∷ xs) = put_back x (take_out i xs)

-- The folder that a queue's workers move what is done to: the next inbox, or the one behind all.
abbrev pub hand_on : String → List Queue → List String → Pipeline
hand_on job [] outbox = record { queues = []; outbox = outbox ++ (job ∷ []) }
hand_on job (queue ∷ queues) outbox = record {
  queues = queue_job job queue ∷ queues;
  outbox = outbox;
}

abbrev pub before : Queue → Pipeline → Pipeline
before queue p = record { queues = queue ∷ p.queues; outbox = p.outbox }

-- A worker is done with the job at this place.
abbrev pub delivered : Queue → List Queue → List String → Option (String × List String) → Pipeline
delivered queue queues outbox none = record { queues = queue ∷ queues; outbox = outbox }
delivered queue queues outbox (some (job, rest)) =
    before (record queue { inprogress = rest }) (hand_on job queues outbox)

abbrev pub failed : Queue → Option (String × List String) → Queue
failed queue none = queue
failed queue (some (job, rest)) = record queue {
  inprogress = rest;
  failures = queue.failures ++ (job ∷ []);
}

-- The process of a worker has come to its end, in whichever way.
unfoldable pub stop : ℕ → List Worker → List Worker
stop i [] = []
stop zero (w ∷ ws) = (record w { is_alive = false }) ∷ ws
stop (suc i) (w ∷ ws) = w ∷ stop i ws

-- The work on one queue of the chain, with those that it feeds.
unfoldable pub at_queue :
    ℕ → (Queue → List Queue → List String → Pipeline) → List Queue → List String → Pipeline
at_queue k work [] outbox = record { queues = []; outbox = outbox }
at_queue zero work (queue ∷ queues) outbox = work queue queues outbox
at_queue (suc k) work (queue ∷ queues) outbox = before queue (at_queue k work queues outbox)

pub data Change : Type 0 where
  pushed : Listing → String → Change
  ticked : Listing → Change
  done : ℕ → ℕ → Change
  failing : ℕ → ℕ → Change
  stopped : ℕ → ℕ → Change

-- A push that is refused leaves the queues as they are.
abbrev pub or_unchanged : Pipeline → Result PushError (List Queue) → Pipeline
or_unchanged p (err e) = p
or_unchanged p (ok queues) = record p { queues = queues }

unfoldable pub push_first : Listing → String → Pipeline → Result PushError (List Queue)
unfolding push_job
push_first listing job p = elim p.queues [
  | [] ↦ err assertion_error
  | queue ∷ queues ↦ push_job listing job queue queues
]

unfoldable pub step : Change → Pipeline → Pipeline
unfolding push_first tick take_out stop at_queue
step (pushed listing job) p = or_unchanged p (push_first listing job p)
step (ticked listing) p = record p { queues = tick listing p.queues }
step (done k i) p =
    at_queue k (λ queue queues outbox. delivered queue queues outbox (take_out i queue.inprogress))
      p.queues p.outbox
step (failing k i) p =
    at_queue k
      (λ queue queues outbox. record {
        queues = failed queue (take_out i queue.inprogress) ∷ queues;
        outbox = outbox;
      })
      p.queues p.outbox
step (stopped k i) p =
    at_queue k
      (λ queue queues outbox. record {
        queues = (record queue { workers = stop i queue.workers }) ∷ queues;
        outbox = outbox;
      })
      p.queues p.outbox

unfoldable pub play : List Change → Pipeline → Pipeline
unfolding step
play [] p = p
play (e ∷ es) p = play es (step e p)
