-- ===== src/Queues/Conserved.antt =====
-- No job is lost or made twice on its way through the folders.
use mathlib.Core.List.{Perm}
use cumulus_ci.Prelude.{
  ℕ, zero, suc, ◌+◌, ◌≡◌, refl, ap, ◌∙◌, Option, none, some, List, [], ◌∷◌, ◌++◌, Bool-cases, inl,
  inr, String, ◌==◌, if◌then◌else◌, Result, ok, err, arith, take,
}
use cumulus_ci.Queues.Steps.{
  Queue, Pipeline, PushError, num_free_workers, full, drop, start_jobs, tick, queue_job, push_job,
  push_first, put_back, take_out, hand_on, delivered, failed, at_queue, Change, pushed, ticked,
  done, failing, stopped, or_unchanged, step, play,
}
use cumulus_ci.Queues.Capacity.{fresh, idle}
use cumulus_ci.Queues.Listing.{Listing, total-Perm}

abbrev pub one : String → String → ℕ
one j x = if x == j then 1 else 0

-- How often a job is in a list.
unfoldable pub count : String → List String → ℕ
count j [] = 0
count j (x ∷ xs) = one j x + count j xs

pub count-append : (j : String) (xs ys : List String) → count j (xs ++ ys) ≡ count j xs + count j ys
unfolding count
count-append j [] ys = omega arith
count-append j (x ∷ xs) ys = omega (arith, count-append j xs ys)

-- In any order a job is in a folder as often.
count-Perm : (j : String) (xs ys : List String) → Perm xs ys → count j xs ≡ count j ys
unfolding count
count-Perm j = total-Perm (count j) (one j) (λ x xs. refl)

count-take-drop :
    (j : String) (k : ℕ) (xs : List String) → count j (take k xs) + count j (drop k xs) ≡ count j xs
unfolding count
count-take-drop j zero xs = omega arith
count-take-drop j (suc k) [] = omega arith
count-take-drop j (suc k) (x ∷ xs) = omega (arith, count-take-drop j k xs)

-- The job that is taken out, with what is left, is the folder.
abbrev counted : String → ℕ → Option (String × List String) → ℕ
counted j whole none = whole
counted j whole (some (x, rest)) = one j x + count j rest

counted-take_out :
    (j : String) (i : ℕ) (xs : List String) → counted j (count j xs) (take_out i xs) ≡ count j xs
unfolding count take_out
counted-take_out j i [] = refl
counted-take_out j zero (x ∷ xs) = refl
counted-take_out j (suc i) (x ∷ xs) =
    counted-put_back (take_out i xs) ∙ ap (λ k. one j x + k) (counted-take_out j i xs)
  where
    counted-put_back :
        (taken : Option (String × List String))
        → counted j (one j x + count j xs) (put_back x taken)
          ≡ one j x + counted j (count j xs) taken
    counted-put_back none = refl
    counted-put_back (some (y, ys)) = omega arith

zero_add : (m : ℕ) → m ≡ 0 + m
zero_add m = omega arith

-- The jobs in the folders of a queue.
unfoldable pub in_queue : String → Queue → ℕ
unfolding count
in_queue j queue = count j queue.inbox + (count j queue.inprogress + count j queue.failures)

unfoldable pub in_queues : String → List Queue → ℕ
unfolding in_queue
in_queues j [] = 0
in_queues j (queue ∷ queues) = in_queue j queue + in_queues j queues

unfoldable pub in_pipeline : String → Pipeline → ℕ
unfolding in_queues count
in_pipeline j p = in_queues j p.queues + count j p.outbox

start_jobs-in_queue :
    (j : String) (listing : Listing) (queue : Queue)
    → in_queue j (start_jobs listing queue) ≡ in_queue j queue
unfolding in_queue start_jobs
start_jobs-in_queue j listing queue =
    let free : ℕ = num_free_workers queue in
    let listed : List String = listing.order queue.inbox in
    omega (
      arith,
      count-take-drop j free listed,
      count-append j queue.inprogress (take free listed),
      count-Perm j listed queue.inbox (listing.whole queue.inbox),
    )

tick-in_queues :
    (j : String) (listing : Listing) (queues : List Queue)
    → in_queues j (tick listing queues) ≡ in_queues j queues
unfolding in_queues tick
tick-in_queues j listing [] = refl
tick-in_queues j listing (queue ∷ queues) =
    omega (arith, start_jobs-in_queue j listing queue, tick-in_queues j listing queues)

queue_job-in_queue :
    (j job : String) (queue : Queue)
    → in_queue j (queue_job job queue) ≡ one j job + in_queue j queue
unfolding in_queue
queue_job-in_queue j job queue = omega (arith, count-append j queue.inbox (job ∷ []))

hand_on-in_pipeline :
    (j job : String) (queues : List Queue) (outbox : List String)
    → in_pipeline j (hand_on job queues outbox) ≡ one j job + (in_queues j queues + count j outbox)
unfolding in_pipeline
hand_on-in_pipeline j job [] outbox = omega (arith, count-append j outbox (job ∷ []))
hand_on-in_pipeline j job (queue ∷ queues) outbox = omega (arith, queue_job-in_queue j job queue)

delivered-in_pipeline :
    (j : String) (queue : Queue) (queues : List Queue) (outbox : List String)
    (taken : Option (String × List String))
    → counted j (count j queue.inprogress) taken ≡ count j queue.inprogress
    → in_pipeline j (delivered queue queues outbox taken)
      ≡ in_queues j (queue ∷ queues) + count j outbox
unfolding in_pipeline
delivered-in_pipeline j queue queues outbox none h = refl
delivered-in_pipeline j queue queues outbox (some (job, rest)) h =
    omega (arith, hand_on-in_pipeline j job queues outbox, h)

failed-in_queue :
    (j : String) (queue : Queue) (taken : Option (String × List String))
    → counted j (count j queue.inprogress) taken ≡ count j queue.inprogress
    → in_queue j (failed queue taken) ≡ in_queue j queue
unfolding in_queue
failed-in_queue j queue none h = refl
failed-in_queue j queue (some (job, rest)) h =
    omega (arith, count-append j queue.failures (job ∷ []), h)

at_queue-in_pipeline :
    (j : String) (k : ℕ) (work : Queue → List Queue → List String → Pipeline) (queues : List Queue)
    (outbox : List String)
    → ((q : Queue) (qs : List Queue) (o : List String)
        → in_pipeline j (work q qs o) ≡ in_queues j (q ∷ qs) + count j o)
    → in_pipeline j (at_queue k work queues outbox) ≡ in_queues j queues + count j outbox
unfolding in_pipeline at_queue
at_queue-in_pipeline j k work [] outbox keeps = refl
at_queue-in_pipeline j zero work (queue ∷ queues) outbox keeps = keeps queue queues outbox
at_queue-in_pipeline j (suc k) work (queue ∷ queues) outbox keeps =
    omega (arith, at_queue-in_pipeline j k work queues outbox keeps)

-- The job of a push that was not refused.
abbrev pub if_accepted : String → Result PushError (List Queue) → List String
if_accepted job (err e) = []
if_accepted job (ok queues) = job ∷ []

unfoldable pub taken_in : Change → Pipeline → List String
unfolding push_first
taken_in (pushed listing job) p = if_accepted job (push_first listing job p)
taken_in (ticked listing) p = []
taken_in (done k i) p = []
taken_in (failing k i) p = []
taken_in (stopped k i) p = []

-- The jobs that were pushed and not refused.
unfoldable pub accepted : List Change → Pipeline → List String
unfolding taken_in step
accepted [] p = []
accepted (e ∷ es) p = taken_in e p ++ accepted es (step e p)

pushed-in_pipeline :
    (j : String) (listing : Listing) (job : String) (queues : List Queue) (outbox : List String)
    → let p : Pipeline = record { queues = queues; outbox = outbox } in
      in_pipeline j (or_unchanged p (push_first listing job p))
      ≡ count j (if_accepted job (push_first listing job p)) + in_pipeline j p
unfolding push_first push_job in_pipeline
pushed-in_pipeline j listing job [] outbox = zero_add (0 + count j outbox)
pushed-in_pipeline j listing job (queue ∷ queues) outbox =
    elim (Bool-cases (full (queue ∷ queues))) [
      | inl none_left ↦ rw none_left (zero_add (in_queues j (queue ∷ queues) + count j outbox))
      | inr room ↦ rw room (
          omega (
            arith,
            tick-in_queues j listing (queue_job job queue ∷ queues),
            queue_job-in_queue j job queue,
          ))
    ]

step-in_pipeline :
    (j : String) (e : Change) (p : Pipeline)
    → in_pipeline j (step e p) ≡ count j (taken_in e p) + in_pipeline j p
unfolding step taken_in in_pipeline
step-in_pipeline j (pushed listing job) p = pushed-in_pipeline j listing job p.queues p.outbox
step-in_pipeline j (ticked listing) p = omega (arith, tick-in_queues j listing p.queues)
step-in_pipeline j (done k i) p =
    at_queue-in_pipeline j k _ p.queues p.outbox (λ q qs o.
      delivered-in_pipeline j q qs o (take_out i q.inprogress) (counted-take_out j i q.inprogress))
    ∙ zero_add (in_pipeline j p)
step-in_pipeline j (failing k i) p =
    at_queue-in_pipeline j k _ p.queues p.outbox (λ q qs o.
      ap (λ m. m + in_queues j qs + count j o)
        (failed-in_queue j q (take_out i q.inprogress) (counted-take_out j i q.inprogress)))
    ∙ zero_add (in_pipeline j p)
step-in_pipeline j (stopped k i) p =
    at_queue-in_pipeline j k _ p.queues p.outbox (λ q qs o. refl) ∙ zero_add (in_pipeline j p)

idle-in_queues : (j : String) (sizes : List (ℕ × ℕ)) → in_queues j (idle sizes) ≡ 0
unfolding in_queues
idle-in_queues j [] = refl
idle-in_queues j ((w, n) ∷ sizes) = omega (arith, idle-in_queues j sizes)

play-in_pipeline :
    (j : String) (events : List Change) (p : Pipeline)
    → in_pipeline j (play events p) ≡ count j (accepted events p) + in_pipeline j p
unfolding play accepted count
play-in_pipeline j [] p = zero_add (in_pipeline j p)
play-in_pipeline j (e ∷ es) p = omega (
  arith,
  play-in_pipeline j es (step e p),
  step-in_pipeline j e p,
  count-append j (taken_in e p) (accepted es (step e p)),
)

-- Whatever happens to queues that were empty, in whichever order: each job is in the folders, of all the
-- queues and behind the last one, as often as it was pushed and not refused.
pub play-conserves :
    (sizes : List (ℕ × ℕ)) (events : List Change) (j : String)
    → in_pipeline j (play events (fresh sizes)) ≡ count j (accepted events (fresh sizes))
unfolding in_pipeline
play-conserves sizes events j =
    omega (arith, play-in_pipeline j events (fresh sizes), idle-in_queues j sizes)
