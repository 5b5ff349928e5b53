-- ===== src/Tests/Works.antt =====
-- Work: workqueue.c with an empty queue, with two works in it, and in a run of callers and worker.
use lcompat.Base.{ℕ, ◌≡◌, refl, true, false, some, List, [], ◌∷◌, arith, ◌==◌, if◌then◌else◌}
use lcompat.Chain.{ends}
use lcompat.Workqueue.{
  Work, Workqueue, waiting, Event, claiming, linking, taking, advancing, removing, unmarking, run,
}
use lcompat.Chain.Occ.{occ}
use lcompat.Workqueue.Steps.{IsTracked}
use lcompat.Workqueue.Runs.{run-IsTracked}

abbrev idle_work : Work
idle_work = record { queued = false; running = false; has_func = true; wq = 0 }

abbrev marked_work : Work
marked_work = record { queued = true; running = false; has_func = true; wq = 7 }

abbrev empty_queue : Workqueue
empty_queue = record {
  ptr = 7;
  works = λ w. idle_work;
  links = λ w. 0;
  list = ends 0 0;
  active = 0;
  worker = waiting;
  claimed = [];
  unlinked = [];
}

-- The work 10 leads to the work 20.
abbrev two_works : Workqueue
two_works = record empty_queue {
  works = λ w. if w == 10 then marked_work else if w == 20 then marked_work else idle_work;
  links = λ w. if w == 10 then 20 else 0;
  list = ends 10 20;
}

empty_queue-IsTracked : IsTracked empty_queue []
unfolding occ
empty_queue-IsTracked = record {
  queue = record { chain = refl; end = refl };
  null = refl;
  tokens = λ w. refl;
  calls = λ w. refl;
  count = refl;
}

two_works-IsTracked : IsTracked two_works (10 ∷ 20 ∷ [])
unfolding occ
two_works-IsTracked = record {
  queue = record { chain = ground arith; end = refl };
  null = refl;
  tokens = λ w. ground arith;
  calls = λ w. ground arith;
  count = refl;
}

-- Two callers queue a work each, the second one once in vain, the worker serves the first, and the
-- second is cancelled.
abbrev history : List Event
history =
    claiming true 10
    ∷ claiming true 10
    ∷ claiming true 20
    ∷ linking 20
    ∷ linking 10
    ∷ taking
    ∷ advancing
    ∷ removing 10
    ∷ advancing
    ∷ advancing
    ∷ unmarking 10
    ∷ []

run-IsTracked_example :
    (s' : Workqueue) × (xs' : List ℕ) × (run 12 history empty_queue ≡ some s') × IsTracked s' xs'
run-IsTracked_example = run-IsTracked 12 history empty_queue [] empty_queue-IsTracked (omega arith)
