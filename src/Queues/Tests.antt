-- ===== src/Queues/Tests.antt =====
-- Two queues that run for a while, for the theorems on queues.
use mathlib.Core.List.{Perm, reverse, reverse_perm}
use mathlib.Core.List.Perm
use cumulus_ci.Prelude.{ℕ, ◌≡◌, refl, some, List, [], ◌∷◌, ◌++◌, arith, true, String, err}
use cumulus_ci.Queues.Listing.{Listing}
use cumulus_ci.Queues.Steps.{
  Queue, assertion_error, push, Change, pushed, ticked, done, failing, stopped, play,
}
use cumulus_ci.Queues.Capacity.{InCapacity, fresh, play-InCapacity}
use cumulus_ci.Queues.Conserved.{count, in_pipeline, accepted, play-conserves}
use cumulus_ci.Queues.Drained.{rounds, IsDrained, play-drains}

-- Folders that are listed in the order in which the jobs came, and in the opposite order.
abbrev as_kept : Listing
as_kept = record { order = λ names. names; whole = Perm.refl }

abbrev reversed : Listing
reversed = record { order = reverse; whole = reverse_perm }

-- A queue that generates data, and one that loads it.
abbrev sizes : List (ℕ × ℕ)
sizes = (1, 1) ∷ (2, 0) ∷ []

abbrev events : List Change
events =
    pushed reversed "a"
    ∷ pushed as_kept "b"
    ∷ pushed as_kept "c"
    ∷ done 0 0
    ∷ stopped 0 0
    ∷ ticked reversed
    ∷ pushed reversed "d"
    ∷ failing 1 0
    ∷ stopped 1 0
    ∷ []

accepted_test : accepted events (fresh sizes) ≡ "a" ∷ "b" ∷ "d" ∷ []
unfolding accepted
accepted_test = refl

inboxes : List Queue → List (List String)
inboxes [] = []
inboxes (queue ∷ queues) = queue.inbox ∷ inboxes queues

inboxes_test : inboxes (play events (fresh sizes)).queues ≡ ("d" ∷ []) ∷ [] ∷ []
unfolding play inboxes
inboxes_test = refl

both_test :
    push as_kept
      (some "folder")
      (some "name")
      (record {
        num_workers = 1;
        queue_size = 0;
        inbox = [];
        inprogress = [];
        failures = [];
        workers = [];
      })
      []
    ≡ err assertion_error
unfolding push
both_test = refl

play-InCapacity_example : InCapacity (play events (fresh sizes))
play-InCapacity_example = play-InCapacity sizes events

play-conserves_example :
    in_pipeline "b" (play events (fresh sizes)) ≡ count "b" (accepted events (fresh sizes))
play-conserves_example = play-conserves sizes events "b"

abbrev loading : Queue
loading = record {
  num_workers = 2;
  queue_size = 3;
  inbox = "b" ∷ "c" ∷ "d" ∷ [];
  inprogress = "a" ∷ [];
  failures = [];
  workers = (record { working_dir = "a"; is_alive = true }) ∷ [];
}

abbrev four_rounds : List Listing
four_rounds = reversed ∷ as_kept ∷ reversed ∷ reversed ∷ []

play-drains_example :
    (after : Queue) × (moved : List String) × (play
        (rounds four_rounds loading)
        (record { queues = loading ∷ []; outbox = [] })
      ≡ record { queues = after ∷ []; outbox = [] ++ moved })
    × Perm moved ("a" ∷ "b" ∷ "c" ∷ "d" ∷ [])
    × IsDrained loading after
play-drains_example = play-drains four_rounds loading [] 1 refl (omega arith)
