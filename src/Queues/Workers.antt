-- ===== src/Queues/Workers.antt =====
-- The workers that are alive, and how many of them there are.
use cumulus_ci.Prelude.{
  ℕ, zero, suc, ◌+◌, ◌-◌, ◌≤◌, ◌≡◌, refl, ap, ◌∙◌, List, [], ◌∷◌, ◌++◌, Bool, true, false, String,
  arith, length, length-append, take,
}
use cumulus_ci.Queues.Steps.{
  Worker, Queue, keep_if, living, num_busy_workers, num_free_workers, drop, started, start_jobs,
  stop,
}
use cumulus_ci.Queues.Listing.{Listing}

module _ {A : Type 0} where
  pub length-take-le : (k : ℕ) (xs : List A) → length (take k xs) ≤ k
  length-take-le zero xs = omega arith
  length-take-le (suc k) [] = omega arith
  length-take-le (suc k) (x ∷ xs) = omega (arith, length-take-le k xs)

  pub length-take-drop : (k : ℕ) (xs : List A) → length (take k xs) + length (drop k xs) ≡ length xs
  length-take-drop zero xs = omega arith
  length-take-drop (suc k) [] = omega arith
  length-take-drop (suc k) (x ∷ xs) = omega (arith, length-take-drop k xs)

keep_if-append :
    {A : Type 0} (b : Bool) (x : A) (xs ys : List A) → keep_if b x (xs ++ ys) ≡ keep_if b x xs ++ ys
keep_if-append true x xs ys = refl
keep_if-append false x xs ys = refl

length-keep_if-le :
    {A : Type 0} (b : Bool) (x : A) (xs : List A) → length xs ≤ length (keep_if b x xs)
length-keep_if-le true x xs = omega arith
length-keep_if-le false x xs = omega arith

length-keep_if_mono :
    {A : Type 0} (b : Bool) (x : A) (xs ys : List A)
    → length xs ≤ length ys
    → length (keep_if b x xs) ≤ length (keep_if b x ys)
length-keep_if_mono true x xs ys h = omega (arith, h)
length-keep_if_mono false x xs ys h = h

pub living-append : (ws vs : List Worker) → living (ws ++ vs) ≡ living ws ++ living vs
unfolding living
living-append [] vs = refl
living-append (w ∷ ws) vs =
    ap (keep_if w.is_alive w) (living-append ws vs)
    ∙ keep_if-append w.is_alive w (living ws) (living vs)

living-keep_if :
    (b : Bool) (w : Worker) (ws : List Worker)
    → w.is_alive ≡ b
    → living (keep_if b w ws) ≡ keep_if b w (living ws)
unfolding living
living-keep_if true w ws alive = ap (λ b. keep_if b w (living ws)) alive
living-keep_if false w ws ended = refl

pub living-living : (ws : List Worker) → living (living ws) ≡ living ws
unfolding living
living-living [] = refl
living-living (w ∷ ws) =
    living-keep_if w.is_alive w (living ws) refl ∙ ap (keep_if w.is_alive w) (living-living ws)

pub living-started : (jobs : List String) → living (started jobs) ≡ started jobs
unfolding living
living-started [] = refl
living-started (job ∷ jobs) =
    ap (λ l. (record { working_dir = job; is_alive = true }) ∷ l) (living-started jobs)

length-started : (jobs : List String) → length (started jobs) ≡ length jobs
length-started [] = refl
length-started (job ∷ jobs) = ap suc (length-started jobs)

-- A tick adds a worker for each job that it starts.
pub num_busy_workers-start_jobs :
    (listing : Listing) (queue : Queue)
    → num_busy_workers (start_jobs listing queue)
      ≡ num_busy_workers queue + length (take (num_free_workers queue) (listing.order queue.inbox))
unfolding num_busy_workers start_jobs
num_busy_workers-start_jobs listing queue =
    let jobs : List String = take (num_free_workers queue) (listing.order queue.inbox) in
    ap length (living-append (living queue.workers) (started jobs))
    ∙ (length-append (living (living queue.workers)) (living (started jobs))
        ∙ (ap (λ l. length l + length (living (started jobs))) (living-living queue.workers)
            ∙ ap (λ k. length (living queue.workers) + k)
                (ap length (living-started jobs) ∙ length-started jobs)))

pub length-living-stop :
    (i : ℕ) (ws : List Worker) → length (living (stop i ws)) ≤ length (living ws)
unfolding living stop
length-living-stop i [] = omega arith
length-living-stop zero (w ∷ ws) = length-keep_if-le w.is_alive w (living ws)
length-living-stop (suc i) (w ∷ ws) =
    length-keep_if_mono w.is_alive w (living (stop i ws)) (living ws) (length-living-stop i ws)

pub num_free_workers-minus :
    (queue : Queue) → num_free_workers queue ≡ queue.num_workers - num_busy_workers queue
unfolding num_free_workers
num_free_workers-minus queue = refl
