-- ===== src/Workqueue/Steps.antt =====
-- Every step of the callers and of the worker keeps track of every work.
use lcompat.Base.{
  ℕ, ◌+◌, ◌<◌, ◌≡◌, ◌≢◌, refl, Bool, true, false, not, ◌||◌, some, List, [], ◌∷◌, ◌++◌, arith, ◌==◌,
  if◌then◌else◌, Bool-cases, inl, inr, length,
}
use lcompat.Chain.Rep.{NotIn, has, erase, IsQueue}
use lcompat.Chain.Laws.{append-IsQueue, pop-IsQueue, pop-empty}
use lcompat.Chain.Unlink.{unlink-Unlinked}
use lcompat.Workqueue.{
  Worker, waiting, popped, calling, finishing, Workqueue, write, claim, link, take_work, advance,
  remove, unmark,
}
use lcompat.Chain.Occ.{occ, occ-append, occ-erase, occ-zero_iff_NotIn, has-occ}

abbrev pub bit : Bool → ℕ
bit b = if b then 1 else 0

-- The work that the worker has taken and not started.
abbrev pub in_hand : ℕ → Worker → ℕ
in_hand w waiting = 0
in_hand w (popped v) = if v == w then 1 else 0
in_hand w (calling v) = 0
in_hand w (finishing v) = 0

-- The work that the worker runs.
abbrev pub in_call : ℕ → Worker → Bool
in_call w waiting = false
in_call w (popped v) = false
in_call w (calling v) = v == w
in_call w (finishing v) = false

abbrev pub busy : Worker → ℕ
busy waiting = 0
busy (popped v) = 1
busy (calling v) = 1
busy (finishing v) = 1

-- The queue holds the works `xs`; a work marked as queued is in exactly one place, once: with a caller
-- that is about to link it, in the queue, with the worker that has just taken it, or with a caller that
-- has taken it out. A work that is not marked is in none. Running is the work that the worker calls.
pub record IsTracked (s : Workqueue) (xs : List ℕ) : Type 0 where
  pub queue : IsQueue s.links s.list xs
  pub null : (s.works 0).queued ≡ false
  pub tokens :
      (w : ℕ)
      → occ w xs + occ w s.claimed + occ w s.unlinked + in_hand w s.worker ≡ bit (s.works w).queued
  pub calls : (w : ℕ) → (s.works w).running ≡ in_call w s.worker
  pub count : s.active ≡ busy s.worker

pub claim-IsTracked :
    (ready : Bool) (v : ℕ) (s : Workqueue) (xs : List ℕ)
    → IsTracked s xs
    → IsTracked (claim ready v s).1 xs
unfolding claim write occ
claim-IsTracked ready v s xs t =
    elim (Bool-cases (v == 0 || not (s.works v).has_func || not ready || (s.works v).queued)) [
      | inl e ↦ rw e t
      | inr e ↦ rw e (record {
        queue = t.queue;
        null = ground (arith, t.null);
        tokens = λ w. ground (arith, t.tokens w);
        calls = λ w. ground (arith, t.calls w);
        count = t.count;
      })
    ]

claimed-facts :
    (v : ℕ) (s : Workqueue) (xs : List ℕ)
    → IsTracked s xs
    → has v s.claimed ≡ true
    → (v ≢ 0) × NotIn v xs
claimed-facts v s xs t h =
    let some_claim : occ v s.claimed ≢ 0 = has-occ v s.claimed h in
    (ground (arith, t.tokens 0, t.null), occ-zero_iff_NotIn v xs (ground (arith, t.tokens v)))

pub link-IsTracked :
    (v : ℕ) (s : Workqueue) (xs : List ℕ)
    → IsTracked s xs
    → IsTracked (link v s) (if has v s.claimed then xs ++ (v ∷ []) else xs)
unfolding link write
link-IsTracked v s xs t = elim (Bool-cases (has v s.claimed)) [
  | inl e ↦
      let (nz, out) = claimed-facts v s xs t e in
      rw e (record {
        queue = append-IsQueue v s.links s.list xs nz out t.queue;
        null = ground (arith, t.null);
        tokens = λ w. ground (arith, t.tokens w, occ-append w v xs, occ-erase w v s.claimed e);
        calls = λ w. ground (arith, t.calls w);
        count = t.count;
      })
  | inr e ↦ rw e t
]

-- The queue after the worker has taken a work, if it was waiting for one.
unfoldable pub after_take : Worker → List ℕ → List ℕ
after_take waiting [] = []
after_take waiting (x ∷ xs) = xs
after_take (popped v) xs = xs
after_take (calling v) xs = xs
after_take (finishing v) xs = xs

pub take_from :
    (s : Workqueue) (x : ℕ) (xs : List ℕ)
    → s.worker ≡ waiting
    → IsTracked s (x ∷ xs)
    → IsTracked (take_work s) xs
unfolding take_work occ
take_from s x xs e t =
    let (at, cleared, q) = pop-IsQueue s.links s.list x xs t.queue in
    let nz : (x == 0) ≡ false = ground (arith, t.queue.chain) in
    rw (e, at, nz)
      (record {
        queue = q;
        null = t.null;
        tokens = λ w. let k = rw e at (t.tokens w) in ground (arith, k);
        calls = λ w. rw e at (t.calls w);
        count = let k = rw e at t.count in omega arith;
      })

at_worker :
    (wk : Worker) (s : Workqueue) (xs : List ℕ)
    → s.worker ≡ wk
    → IsTracked s xs
    → IsTracked (record s { worker = wk }) xs
at_worker wk s xs e t = rw⁻¹ e t

take_at :
    (wk : Worker) (s : Workqueue) (xs : List ℕ)
    → s.worker ≡ wk
    → IsTracked s xs
    → IsTracked (take_work s) (after_take wk xs)
unfolding take_work after_take
take_at waiting s [] e t = rw (e, pop-empty s.links s.list t.queue) (at_worker waiting s [] e t)
take_at waiting s (x ∷ xs) e t = take_from s x xs e t
take_at (popped v) s xs e t = rw e (at_worker (popped v) s xs e t)
take_at (calling v) s xs e t = rw e (at_worker (calling v) s xs e t)
take_at (finishing v) s xs e t = rw e (at_worker (finishing v) s xs e t)

pub take_work-IsTracked :
    (s : Workqueue) (xs : List ℕ)
    → IsTracked s xs
    → IsTracked (take_work s) (after_take s.worker xs)
take_work-IsTracked s xs t = take_at s.worker s xs refl t

advance_at :
    (wk : Worker) (s : Workqueue) (xs : List ℕ)
    → s.worker ≡ wk
    → IsTracked s xs
    → IsTracked (advance s) xs
unfolding advance write
advance_at waiting s xs e t = rw e (at_worker waiting s xs e t)
advance_at (popped v) s xs e t =
    let mark : (s.works v).queued ≡ true = let k = rw e at (t.tokens v) in ground (arith, k) in
    rw (e, mark)
      (record {
        queue = t.queue;
        null = ground (arith, t.null);
        tokens = λ w. let k = rw e at (t.tokens w) in ground (arith, k);
        calls = λ w. let k = rw e at (t.calls w) in ground (arith, k);
        count = let k = rw e at t.count in omega arith;
      })
advance_at (calling v) s xs e t = rw e (record {
  queue = t.queue;
  null = ground (arith, t.null);
  tokens = λ w. let k = rw e at (t.tokens w) in ground (arith, k);
  calls = λ w. let k = rw e at (t.calls w) in ground (arith, k);
  count = let k = rw e at t.count in omega arith;
})
advance_at (finishing v) s xs e t = rw e (record {
  queue = t.queue;
  null = ground (arith, t.null);
  tokens = λ w. let k = rw e at (t.tokens w) in ground (arith, k);
  calls = λ w. let k = rw e at (t.calls w) in ground (arith, k);
  count = let k = rw e at t.count in ground (arith, k);
})

pub advance-IsTracked : (s : Workqueue) (xs : List ℕ) → IsTracked s xs → IsTracked (advance s) xs
advance-IsTracked s xs t = advance_at s.worker s xs refl t

pub unmark-IsTracked :
    (v : ℕ) (s : Workqueue) (xs : List ℕ) → IsTracked s xs → IsTracked (unmark v s) xs
unfolding unmark write
unmark-IsTracked v s xs t = elim (Bool-cases (has v s.unlinked)) [
  | inl e ↦
      let there : occ v s.unlinked ≢ 0 = has-occ v s.unlinked e in
      rw e (record {
        queue = t.queue;
        null = ground (arith, t.null);
        tokens = λ w. ground (arith, t.tokens w, occ-erase w v s.unlinked e);
        calls = λ w. ground (arith, t.calls w);
        count = t.count;
      })
  | inr e ↦ rw e t
]

-- The cancelling caller takes the work out, if it is in this workqueue.
pub remove-IsTracked :
    (fuel v : ℕ) (s : Workqueue) (xs : List ℕ)
    → IsTracked s xs
    → length xs < fuel
    → (found : Bool) × (s' : Workqueue) × (remove fuel v s ≡ some (found, s'))
      × IsTracked s' (if found then erase v xs else xs)
      × (found ≡ true → has v xs ≡ true)
      × (found ≡ false → s' ≡ s)
unfolding remove write occ
remove-IsTracked fuel v s xs t f = elim (Bool-cases (v == 0 || not ((s.works v).wq == s.ptr))) [
  | inl e ↦ (false, s, rw e refl, t, (λ h. ground arith), (λ h. refl))
  | inr e ↦
      let (links', list', eq, u) = unlink-Unlinked fuel v s.links s.list xs t.queue f in
      elim (Bool-cases (has v xs)) [
        | inl h ↦ (
          true,
          record s {
            works = write s.works v (record (s.works v) { wq = 0 });
            links = links';
            list = list';
            unlinked = v ∷ s.unlinked;
          },
          rw (e, eq, h) refl,
          record {
            queue = u.queue;
            null = ground (arith, t.null);
            tokens = λ w. ground (arith, t.tokens w, occ-erase w v xs h);
            calls = λ w. ground (arith, t.calls w);
            count = t.count;
          },
          (λ g. h),
          (λ g. ground arith),
        )
        | inr h ↦ (false, s, rw (e, eq, h) refl, t, (λ g. ground arith), (λ g. refl))
      ]
]
