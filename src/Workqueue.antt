-- ===== src/Workqueue.antt =====
-- workqueue.c: one workqueue with its worker, and any number of callers. Each step is one section that
-- runs without interruption: an atomic access of a work's state, or what is done under the lock. Steps of
-- several callers and of the worker interleave; one that is not due changes nothing. Delayed work
-- and the waking of the worker are not modelled. A `struct work_struct` is known by its address, 0 is NULL.
pub mod Steps
pub mod Runs
use lcompat.Base.{
  ℕ, ◌+◌, ◌-◌, ◌||◌, not, Bool, true, false, Option, none, some, List, [], ◌∷◌, ltb, ◌==◌,
  if◌then◌else◌, ◌>>=◌,
}
use lcompat.Chain.{Links, Ends, append, pop, unlink}
use lcompat.Chain.Rep.{has, erase}

-- `struct work_struct`: the two bits of its `state`, whether it has a `func`, and its `wq`.
pub record Work : Type 0 where
  pub queued : Bool
  pub running : Bool
  pub has_func : Bool
  pub wq : ℕ

-- Where `lcompat_workqueue_worker` is, with the work in its hands.
pub data Worker : Type 0 where
  waiting : Worker
  popped calling finishing : ℕ → Worker

-- The works, the queue of `struct workqueue_struct` with its `active`, and where the threads are:
-- `claimed` works are marked as queued by a caller that has not linked them yet, `unlinked` ones are
-- taken out by a caller that has not cleared their mark yet.
pub record Workqueue : Type 0 where
  pub ptr : ℕ
  pub works : ℕ → Work
  pub links : Links
  pub list : Ends
  pub active : ℕ
  pub worker : Worker
  pub claimed : List ℕ
  pub unlinked : List ℕ

-- A write to a work.
unfoldable pub write : (ℕ → Work) → ℕ → Work → ℕ → Work
write works w v p = if p == w then v else works p

-- `lcompat_queue_work` up to its compare-and-exchange; `ready` is what
-- `lcompat_workqueue_ensure_worker` returns. Whether the work is the caller's to link.
unfoldable pub claim : (ready : Bool) → ℕ → Workqueue → Bool × Workqueue
claim ready w s =
    if w == 0 || not (s.works w).has_func || not ready || (s.works w).queued then (false, s) else (
      true,
      record s {
        works = write s.works w (record (s.works w) { queued = true });
        claimed = w ∷ s.claimed;
      },
    )

-- The locked section of `lcompat_queue_work`.
unfoldable pub link : ℕ → Workqueue → Workqueue
link w s =
    if not (has w s.claimed)
    then s
    else (let (links', list') = append w s.links s.list in
        record s {
          works = write s.works w (record (s.works w) { wq = s.ptr });
          links = links';
          list = list';
          claimed = erase w s.claimed;
        })

-- The first section of the worker: `lcompat_workqueue_pop_locked` and `active++`.
unfoldable pub take_work : Workqueue → Workqueue
take_work s = elim s.worker [
  | waiting ↦
      let (w, links', list') = pop s.links s.list in
      if w == 0
      then s
      else record s { links = links'; list = list'; worker = popped w; active = s.active + 1 }
  | popped w ↦ s
  | calling w ↦ s
  | finishing w ↦ s
]

-- The worker's next section: the exchange of QUEUED for RUNNING, the end of the call, and the locked
-- section that lets the work go.
unfoldable pub advance : Workqueue → Workqueue
advance s = elim s.worker [
  | waiting ↦ s
  | popped w ↦
      if (s.works w).queued
      then record s {
        works = write s.works w (record (s.works w) { queued = false; running = true });
        worker = calling w;
      }
      else record s { worker = finishing w }
  | calling w ↦ record s {
    works = write s.works w (record (s.works w) { running = false });
    worker = finishing w;
  }
  | finishing w ↦ record s {
    works = if (s.works w).queued then s.works else write s.works w (record (s.works w) { wq = 0 });
    active = if s.active == 0 then 0 else s.active - 1;
    worker = waiting;
  }
]

-- The locked section of `lcompat_cancel_work_sync`, with fuel for the walk: what it will return.
unfoldable pub remove : (fuel : ℕ) → ℕ → Workqueue → Option (Bool × Workqueue)
remove fuel w s = if w == 0 || not ((s.works w).wq == s.ptr) then some (false, s) else (do
  (found, links', list') ← unlink fuel w s.links s.list
  if not found
      then some (false, s)
      else some (
        true,
        record s {
          works = write s.works w (record (s.works w) { wq = 0 });
          links = links';
          list = list';
          unlinked = w ∷ s.unlinked;
        },
      ))

-- What `lcompat_cancel_work_sync` does to the state of a work that it took out.
unfoldable pub unmark : ℕ → Workqueue → Workqueue
unmark w s = if not (has w s.unlinked) then s else record s {
  works = write s.works w (record (s.works w) { queued = false });
  unlinked = erase w s.unlinked;
}

-- Whether the wait at the end of `lcompat_cancel_work_sync` goes on: the state is exactly RUNNING.
unfoldable pub waits : ℕ → Workqueue → Bool
waits w s = if (s.works w).queued then false else (s.works w).running

pub data Event : Type 0 where
  claiming : (ready : Bool) (w : ℕ) → Event
  linking removing unmarking : ℕ → Event
  taking advancing : Event

unfoldable pub step : (fuel : ℕ) → Event → Workqueue → Option Workqueue
step fuel (claiming ready w) s = some (claim ready w s).1
step fuel (linking w) s = some (link w s)
step fuel taking s = some (take_work s)
step fuel advancing s = some (advance s)
step fuel (removing w) s = do (found, s') ← remove fuel w s; some s'
step fuel (unmarking w) s = some (unmark w s)

unfoldable pub run : (fuel : ℕ) → List Event → Workqueue → Option Workqueue
run fuel [] s = some s
run fuel (e ∷ es) s = do s' ← step fuel e s; run fuel es s'
