-- ===== src/Queues/Drained.antt =====
-- A queue whose workers come to their ends does all its jobs.
use mathlib.Core.List.{Perm}
use mathlib.Core.List.Perm
use cumulus_ci.Prelude.{
  ℕ, zero, suc, ◌-◌, ◌≤◌, ◌≡◌, refl, sym, ap, ◌∙◌, List, [], ◌∷◌, ◌++◌, append_assoc, append-nil,
  false, String, arith, length, take, subst,
}
use cumulus_ci.Queues.Steps.{
  Worker, Queue, Pipeline, living, num_busy_workers, num_free_workers, drop, started, start_jobs,
  tick, take_out, stop, at_queue, Change, ticked, done, stopped, step, play,
}
use cumulus_ci.Queues.Listing.{Listing, length-Perm}
use cumulus_ci.Queues.Workers.{length-take-drop}

abbrev alone : Queue → List String → Pipeline
alone queue outbox = record { queues = queue ∷ []; outbox = outbox }

-- The workers at these places come to their ends.
abbrev stops : List ℕ → List Change
stops [] = []
stops (i ∷ is) = stopped 0 i ∷ stops is

abbrev stop_each : List ℕ → List Worker → List Worker
stop_each [] ws = ws
stop_each (i ∷ is) ws = stop_each is (stop i ws)

abbrev after_first : List ℕ → List ℕ
after_first [] = []
after_first (i ∷ is) = suc i ∷ after_first is

abbrev places : {A : Type 0} → List A → List ℕ
places [] = []
places (x ∷ xs) = 0 ∷ after_first (places xs)

stop_each-after_first :
    (is : List ℕ) (w : Worker) (ws : List Worker)
    → stop_each (after_first is) (w ∷ ws) ≡ w ∷ stop_each is ws
unfolding stop
stop_each-after_first [] w ws = refl
stop_each-after_first (i ∷ is) w ws = stop_each-after_first is w (stop i ws)

living-stop_each : (ws : List Worker) → living (stop_each (places ws) ws) ≡ []
unfolding living stop
living-stop_each [] = refl
living-stop_each (w ∷ ws) =
    ap living (stop_each-after_first (places ws) (record w { is_alive = false }) ws)
    ∙ living-stop_each ws

abbrev deliveries : List String → List Change
deliveries [] = []
deliveries (job ∷ jobs) = done 0 0 ∷ deliveries jobs

play-append : (es fs : List Change) (p : Pipeline) → play (es ++ fs) p ≡ play fs (play es p)
unfolding play
play-append [] fs p = refl
play-append (e ∷ es) fs p = play-append es fs (step e p)

play-stops :
    (is : List ℕ) (queue : Queue) (outbox : List String)
    → play (stops is) (alone queue outbox)
      ≡ alone (record queue { workers = stop_each is queue.workers }) outbox
unfolding play step at_queue
play-stops [] queue outbox = refl
play-stops (i ∷ is) queue outbox =
    play-stops is (record queue { workers = stop i queue.workers }) outbox

play-deliveries :
    (jobs : List String) (queue : Queue) (outbox : List String)
    → play (deliveries jobs) (alone (record queue { inprogress = jobs }) outbox)
      ≡ alone (record queue { inprogress = [] }) (outbox ++ jobs)
unfolding play step at_queue take_out
play-deliveries [] queue outbox =
    ap (alone (record queue { inprogress = [] })) (sym (append-nil outbox))
play-deliveries (job ∷ jobs) queue outbox =
    play-deliveries jobs queue (outbox ++ (job ∷ []))
    ∙ ap (alone (record queue { inprogress = [] })) (append_assoc outbox (job ∷ []) jobs)

-- All the workers deliver their jobs and come to their ends; then the queue ticks.
abbrev pub work_round : Listing → Queue → List Change
work_round listing queue =
    deliveries queue.inprogress ++ (stops (places queue.workers) ++ (ticked listing ∷ []))

-- The queue after such a round.
abbrev pub next : Listing → Queue → Queue
next listing queue = record queue {
  inbox = drop queue.num_workers (listing.order queue.inbox);
  inprogress = take queue.num_workers (listing.order queue.inbox);
  workers = started (take queue.num_workers (listing.order queue.inbox));
}

start_jobs-next :
    (listing : Listing) (queue : Queue)
    → living queue.workers ≡ []
    → start_jobs listing (record queue { inprogress = [] }) ≡ next listing queue
unfolding start_jobs num_free_workers num_busy_workers
start_jobs-next listing queue none_alive =
    let listed : List String = listing.order queue.inbox in
    let made : ℕ → List Worker → Queue = (λ free ws. record queue {
      inbox = drop free listed;
      inprogress = take free listed;
      workers = ws ++ started (take free listed);
    }) in
    let all_free : queue.num_workers - 0 ≡ queue.num_workers = omega arith in
    ap (λ ws. made (queue.num_workers - length ws) ws) none_alive ∙ ap (λ k. made k []) all_free

play-round :
    (listing : Listing) (queue : Queue) (outbox : List String)
    → play (work_round listing queue) (alone queue outbox)
      ≡ alone (next listing queue) (outbox ++ queue.inprogress)
unfolding play step tick
play-round listing queue outbox =
    let ends : List Change = stops (places queue.workers) in
    let emptied : Queue = record queue { inprogress = [] } in
    let ended : Queue = record emptied {
      workers = stop_each (places queue.workers) queue.workers;
    } in
    let out : List String = outbox ++ queue.inprogress in
    play-append (deliveries queue.inprogress) (ends ++ (ticked listing ∷ [])) (alone queue outbox)
    ∙ (ap (play (ends ++ (ticked listing ∷ []))) (play-deliveries queue.inprogress queue outbox)
        ∙ (play-append ends (ticked listing ∷ []) (alone emptied out)
            ∙ (ap (play (ticked listing ∷ [])) (play-stops (places queue.workers) emptied out)
                ∙ ap (λ q. alone q out)
                    (start_jobs-next listing ended (living-stop_each queue.workers)))))

-- So many rounds, each with the order in which the inbox is listed.
abbrev pub rounds : List Listing → Queue → List Change
rounds [] queue = []
rounds (listing ∷ listings) queue = work_round listing queue ++ rounds listings (next listing queue)

take-drop-append : {A : Type 0} (k : ℕ) (xs : List A) → take k xs ++ drop k xs ≡ xs
take-drop-append zero xs = refl
take-drop-append (suc k) [] = refl
take-drop-append (suc k) (x ∷ xs) = ap (λ l. x ∷ l) (take-drop-append k xs)

length-drop-lt :
    {A : Type 0} (k n : ℕ) (xs : List A) → length xs ≤ suc n → length (drop (suc k) xs) ≤ n
length-drop-lt k n [] h = omega arith
length-drop-lt k n (x ∷ xs) h = omega (arith, length-take-drop k xs, h)

-- A queue without jobs, of the same configuration.
abbrev pub IsDrained : Queue → Queue → Type 0
IsDrained queue after =
    (after.inbox ≡ []) × (after.inprogress ≡ []) × (after.failures ≡ queue.failures)

length_zero : {A : Type 0} (xs : List A) → length xs ≤ 0 → xs ≡ []
length_zero [] h = refl
length_zero (x ∷ xs) h = absurd_of h
  where
    absurd_of : suc (length xs) ≤ 0 → x ∷ xs ≡ []
    absurd_of h = ground arith

drop-nil : {A : Type 0} (k : ℕ) → drop {A = A} k [] ≡ []
drop-nil zero = refl
drop-nil (suc k) = refl

take-nil : {A : Type 0} (k : ℕ) → take {A = A} k [] ≡ []
take-nil zero = refl
take-nil (suc k) = refl

-- A round of a queue, and what its later rounds deliver.
later-Perm :
    (listing : Listing) (queue : Queue) (moved : List String)
    → Perm moved ((next listing queue).inprogress ++ (next listing queue).inbox)
    → Perm (queue.inprogress ++ moved) (queue.inprogress ++ queue.inbox)
later-Perm listing queue moved perm =
    let listed : List String = listing.order queue.inbox in
    Perm.append_left queue.inprogress (
      Perm.trans (subst (Perm moved) (take-drop-append queue.num_workers listed) perm)
        (listing.whole queue.inbox))

not_below_zero : (n : ℕ) → suc n ≤ 0 → ⊥
not_below_zero n h = omega (arith, h)

drain :
    (listings : List Listing) (k : ℕ) (queue : Queue) (outbox : List String)
    → queue.num_workers ≡ suc k
    → suc (length queue.inbox) ≤ length listings
    → (after : Queue) × (moved : List String) × (play (rounds listings queue) (alone queue outbox)
        ≡ alone after (outbox ++ moved))
      × Perm moved (queue.inprogress ++ queue.inbox)
      × IsDrained queue after
drain [] k queue outbox workers enough = absurd (not_below_zero (length queue.inbox) enough)
drain (listing ∷ []) k queue outbox workers enough =
    let none_waiting : queue.inbox ≡ [] = length_zero queue.inbox (omega (arith, enough)) in
    let same = length-Perm (listing.order queue.inbox) queue.inbox (listing.whole queue.inbox) in
    let none_listed : listing.order queue.inbox ≡ [] =
      length_zero (listing.order queue.inbox) (omega (arith, enough, same)) in
    let cut = ap (drop queue.num_workers) none_listed ∙ drop-nil queue.num_workers in
    let taken = ap (take queue.num_workers) none_listed ∙ take-nil queue.num_workers in
    let all : queue.inprogress ≡ queue.inprogress ++ queue.inbox =
      sym (append-nil queue.inprogress) ∙ ap (λ l. queue.inprogress ++ l) (sym none_waiting) in
    (
      next listing queue,
      queue.inprogress,
      ap (λ es. play es (alone queue outbox)) (append-nil (work_round listing queue))
          ∙ play-round listing queue outbox,
      subst (Perm queue.inprogress) all (Perm.refl queue.inprogress),
      (cut, taken, refl),
    )
drain (listing ∷ later ∷ listings) k queue outbox workers enough =
    let listed : List String = listing.order queue.inbox in
    let same = length-Perm listed queue.inbox (listing.whole queue.inbox) in
    let fewer : length (next listing queue).inbox ≤ length listings =
      subst (λ w. length (drop w listed) ≤ length listings) (sym workers)
        (length-drop-lt k (length listings) listed (omega (arith, same, enough))) in
    let (after, moved, ran, perm, empty) =
      drain (later ∷ listings) k (next listing queue) (outbox ++ queue.inprogress) workers
        (omega (arith, fewer)) in
    (
      after,
      queue.inprogress ++ moved,
      play-append (work_round listing queue) (rounds (later ∷ listings) (next listing queue))
            (alone queue outbox)
          ∙ (ap (play (rounds (later ∷ listings) (next listing queue)))
                (play-round listing queue outbox)
              ∙ (ran ∙ ap (alone after) (append_assoc outbox queue.inprogress moved))),
      later-Perm listing queue moved perm,
      empty,
    )

-- A queue that feeds no other and has a worker does its jobs, in whichever orders its inbox is
-- listed: when in each round its workers deliver the jobs in progress and come to their ends, and the
-- queue ticks, then after more rounds than jobs were waiting it has none, and the folder behind it has
-- got all of them and those that were in progress, each of them once, and no others.
pub play-drains :
    (listings : List Listing) (queue : Queue) (outbox : List String) (k : ℕ)
    → queue.num_workers ≡ suc k
    → suc (length queue.inbox) ≤ length listings
    → (after : Queue) × (moved : List String) × (play
          (rounds listings queue)
          (record { queues = queue ∷ []; outbox = outbox })
        ≡ record { queues = after ∷ []; outbox = outbox ++ moved })
      × Perm moved (queue.inprogress ++ queue.inbox)
      × IsDrained queue after
play-drains listings queue outbox k workers enough = drain listings k queue outbox workers enough
