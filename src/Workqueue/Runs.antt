-- ===== src/Workqueue/Runs.antt =====
-- Any interleaving of the steps, the order of service, and what a cancelling caller sees.
use lcompat.Base.{
  ℕ, ◌+◌, ◌<◌, ◌≤◌, ◌≡◌, ◌≢◌, refl, true, false, some, List, [], ◌∷◌, ◌++◌, arith, ◌==◌,
  if◌then◌else◌, Bool-cases, inl, inr, length, length-append,
}
use lcompat.Chain.Rep.{has, erase}
use lcompat.Chain.Laws.{pop-IsQueue}
use lcompat.Workqueue.{
  Worker, waiting, popped, calling, finishing, Workqueue, Event, claiming, linking, taking,
  advancing, removing, unmarking, claim, link, take_work, advance, remove, unmark, waits, step, run,
}
use lcompat.Chain.Occ.{occ, has-occ}
use lcompat.Workqueue.Steps.{
  IsTracked, after_take, take_from, claim-IsTracked, link-IsTracked, take_work-IsTracked,
  advance-IsTracked, remove-IsTracked, unmark-IsTracked,
}

-- A tracked state whose queue has at most `n` works.
record Tracked (s : Workqueue) (n : ℕ) : Type 0 where
  pub works : List ℕ
  pub tracked : IsTracked s works
  pub short : length works ≤ n

length-erase_le : (w : ℕ) (xs : List ℕ) → length (erase w xs) ≤ length xs
unfolding erase
length-erase_le w [] = omega arith
length-erase_le w (x ∷ xs) = ground (arith, length-erase_le w xs)

length-after_take : (wk : Worker) (xs : List ℕ) → length (after_take wk xs) ≤ length xs
unfolding after_take
length-after_take waiting [] = omega arith
length-after_take waiting (x ∷ xs) = omega arith
length-after_take (popped v) xs = omega arith
length-after_take (calling v) xs = omega arith
length-after_take (finishing v) xs = omega arith

step-Tracked :
    (fuel : ℕ) (e : Event) (s : Workqueue) (n : ℕ)
    → Tracked s n
    → n < fuel
    → (s' : Workqueue) × (step fuel e s ≡ some s') × Tracked s' (n + 1)
unfolding step
step-Tracked fuel (claiming ready w) s n t f = (
  (claim ready w s).1,
  refl,
  record {
    works = t.works;
    tracked = claim-IsTracked ready w s t.works t.tracked;
    short = omega (arith, t.short);
  },
)
step-Tracked fuel (linking w) s n t f = (
  link w s,
  refl,
  record {
    works = if has w s.claimed then t.works ++ (w ∷ []) else t.works;
    tracked = link-IsTracked w s t.works t.tracked;
    short = ground (arith, t.short, length-append t.works (w ∷ []));
  },
)
step-Tracked fuel taking s n t f = (
  take_work s,
  refl,
  record {
    works = after_take s.worker t.works;
    tracked = take_work-IsTracked s t.works t.tracked;
    short = omega (arith, t.short, length-after_take s.worker t.works);
  },
)
step-Tracked fuel advancing s n t f = (
  advance s,
  refl,
  record {
    works = t.works;
    tracked = advance-IsTracked s t.works t.tracked;
    short = omega (arith, t.short);
  },
)
step-Tracked fuel (removing w) s n t f =
    let (found, s', eq, t', here, same) =
      remove-IsTracked fuel w s t.works t.tracked (omega (arith, t.short)) in
    (
      s',
      rw eq refl,
      record {
        works = if found then erase w t.works else t.works;
        tracked = t';
        short = ground (arith, t.short, length-erase_le w t.works);
      },
    )
step-Tracked fuel (unmarking w) s n t f = (
  unmark w s,
  refl,
  record {
    works = t.works;
    tracked = unmark-IsTracked w s t.works t.tracked;
    short = omega (arith, t.short);
  },
)

run-Tracked :
    (fuel : ℕ) (es : List Event) (s : Workqueue) (n : ℕ)
    → Tracked s n
    → n + length es < fuel
    → (s' : Workqueue) × (run fuel es s ≡ some s') × Tracked s' (n + length es)
unfolding run
run-Tracked fuel [] s n t f =
    (s, refl, record { works = t.works; tracked = t.tracked; short = omega (arith, t.short) })
run-Tracked fuel (e ∷ es) s n t f =
    let (s1, eq1, t1) = step-Tracked fuel e s n t (omega arith) in
    let (s2, eq2, t2) = run-Tracked fuel es s1 (n + 1) t1 (omega arith) in
    (
      s2,
      rw eq1 eq2,
      record { works = t2.works; tracked = t2.tracked; short = omega (arith, t2.short) },
    )

-- Every interleaving of callers and worker runs to its end, with fuel for the works in the queue and
-- the steps, and after it every work is tracked again: no mark is lost, and no work is linked twice.
pub run-IsTracked :
    (fuel : ℕ) (es : List Event) (s : Workqueue) (xs : List ℕ)
    → IsTracked s xs
    → length xs + length es < fuel
    → (s' : Workqueue) × (xs' : List ℕ) × (run fuel es s ≡ some s') × IsTracked s' xs'
run-IsTracked fuel es s xs t f =
    let (s', eq, t') =
      run-Tracked fuel es s (length xs) (record { works = xs; tracked = t; short = omega arith })
        f in
    (s', t'.works, eq, t'.tracked)

take_work-first :
    (s : Workqueue) (x : ℕ) (xs : List ℕ)
    → s.worker ≡ waiting
    → IsTracked s (x ∷ xs)
    → (take_work s).worker ≡ popped x
unfolding take_work
take_work-first s x xs e t =
    let (at, cleared, q) = pop-IsQueue s.links s.list x xs t.queue in
    let nz : (x == 0) ≡ false = ground (arith, t.queue.chain) in rw (e, at, nz) refl

popped-queued :
    (s : Workqueue) (v : ℕ) (xs : List ℕ)
    → s.worker ≡ popped v
    → IsTracked s xs
    → (s.works v).queued ≡ true
popped-queued s v xs e t = let k = rw e at (t.tokens v) in ground (arith, k)

advance-calls :
    (s : Workqueue) (v : ℕ) (xs : List ℕ)
    → s.worker ≡ popped v
    → IsTracked s xs
    → (advance s).worker ≡ calling v
unfolding advance
advance-calls s v xs e t = rw (e, popped-queued s v xs e t) refl

-- A waiting worker serves the queue from its head: it takes the first work, calls it in its next
-- section, and the rest of the queue stays as it was.
pub advance-take_work :
    (s : Workqueue) (x : ℕ) (xs : List ℕ)
    → s.worker ≡ waiting
    → IsTracked s (x ∷ xs)
    → ((advance (take_work s)).worker ≡ calling x) × IsTracked (advance (take_work s)) xs
advance-take_work s x xs e t =
    let t' : IsTracked (take_work s) xs = take_from s x xs e t in
    (
      advance-calls (take_work s) x xs (take_work-first s x xs e t) t',
      advance-IsTracked (take_work s) xs t',
    )

popped-absent :
    (s : Workqueue) (v : ℕ) (xs : List ℕ) → s.worker ≡ popped v → IsTracked s xs → has v xs ≢ true
popped-absent s v xs e t h =
    let k = rw e at (t.tokens v) in let here : occ v xs ≢ 0 = has-occ v xs h in ground (arith, k)

-- A work that the worker has just taken escapes `lcompat_cancel_work_sync`: it is not found, the wait
-- ends at once, so the call returns false, and the worker calls the work after that.
remove-popped :
    (fuel : ℕ) (s : Workqueue) (v : ℕ) (xs : List ℕ)
    → s.worker ≡ popped v
    → IsTracked s xs
    → length xs < fuel
    → (s' : Workqueue) × (remove fuel v s ≡ some (false, s'))
      × (waits v s' ≡ false)
      × ((advance s').worker ≡ calling v)
remove-popped fuel s v xs e t f =
    let (found, s', eq, t', here, same) = remove-IsTracked fuel v s xs t f in
    elim (Bool-cases found) [
      | inl g ↦ absurd (popped-absent s v xs e t (here g))
      | inr g ↦
          let mark = popped-queued s v xs e t in
          (s, rw (eq, g, same g) refl, unfold waits in rw mark refl, advance-calls s v xs e t)
    ]
