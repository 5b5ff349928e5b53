-- ===== src/Usb/Events/Runs.antt =====
-- Whatever drivers and host do on an endpoint, in any order.
use lcompat.Base.{
  ℕ, zero, suc, ◌+◌, ◌<◌, ◌≡◌, refl, Bool, true, false, Option, none, some, List, [], ◌∷◌, arith,
  if◌then◌else◌, length,
}
use lcompat.Base.Words.{u32_mod}
use lcompat.Chain.Rep.{has, erase}
use lcompat.Chain.Occ.{has-occ, occ-erase}
use lcompat.Usb.{Codes}
use lcompat.Usb.Urb.{Urb, usb_free_urb}
use lcompat.Usb.Bus.{Thread, Bus, write, Answers}
use lcompat.Usb.Bus.Tokens.{total, refs, brings, turn, moves}
use lcompat.Usb.Bus.Sections.{behind, proceed-IsTracked, freed-IsTracked}
use lcompat.Usb.Bus.Counts.{owners, Counts, Counts-kept, Counts-eq, write_cases, freed-IsCounted}
use lcompat.Usb.Bus.Owners.{proceed-IsCounted}
use lcompat.Usb.Bus.Submits.{Holds, Holds-more, usb_submit_urb-Holds}
use lcompat.Usb.Events.{
  pick, picked, usb_fill_bulk_urb, Event, submitting, filling, killing, dropping, advancing, step,
  run,
}

pub total-pick :
    (f : Thread → ℕ) (i : ℕ) (ts : List Thread) (t : Thread) (r : List Thread)
    → pick i ts ≡ some (t, r)
    → total f ts ≡ f t + total f r
unfolding pick total
total-pick f i [] t r e = absurd (ground arith)
total-pick f zero (t' ∷ ts) t r e = ground arith
total-pick f (suc i) (t' ∷ ts) t r e = at_rest (pick i ts) (λ t1 r1. total-pick f i ts t1 r1) e
  where
    at_rest :
        (p : Option (Thread × List Thread))
        → ((t1 : Thread) (r1 : List Thread) → p ≡ some (t1, r1) → total f ts ≡ f t1 + total f r1)
        → (elim p as (λ _. Option (Thread × List Thread)) [
          | none ↦ none
          | some q ↦ some (q.0, t' ∷ q.1)
        ])
          ≡ some (t, r)
        → f t' + total f ts ≡ f t + total f r
    at_rest none ih k = absurd (ground arith)
    at_rest (some (t1, r1)) ih k = ground (arith, ih t1 r1 refl)

-- The picked thread first: the state with the others.
pick-Holds :
    (i n : ℕ) (s : Bus) (xs : List ℕ) (t : Thread) (r : List Thread)
    → pick i s.threads ≡ some (t, r)
    → Holds s xs n
    → Holds (record s { threads = t ∷ r }) xs n
unfolding total
pick-Holds i n s xs t r e h =
    let all = λ (f : Thread → ℕ). total-pick f i s.threads t r e in
    record {
      tracked = record {
        queue = h.tracked.queue;
        null = h.tracked.null;
        tokens = λ v. omega (arith, h.tracked.tokens v, all (brings v));
        turns = omega (arith, h.tracked.turns, all (turn s.shared));
        stray = λ v g. omega (arith, h.tracked.stray v g, all (moves v));
      };
      counted =
          λ v. Counts-eq (owners v s xs) _ n (s.urbs v) (omega (arith, all (refs v))) (h.counted v);
    }

-- The queue behind a section of the picked thread.
unfoldable pub behind_picked : Option (Thread × List Thread) → Bus → List ℕ → List ℕ
behind_picked none s xs = xs
behind_picked (some (t, r)) s xs = behind t (record s { threads = r }) xs

picked-Holds :
    (c : Codes) (a : Answers) (i n : ℕ) (p : Option (Thread × List Thread)) (s : Bus) (xs : List ℕ)
    → n < u32_mod
    → pick i s.threads ≡ p
    → Holds s xs n
    → Holds (picked c a p s) (behind_picked p s xs) n
unfolding picked behind_picked
picked-Holds c a i n none s xs l e h = h
picked-Holds c a i n (some (t, r)) s xs l e h =
    let w = pick-Holds i n s xs t r e h in
    record {
      tracked = proceed-IsTracked c a t (record s { threads = r }) xs w.tracked;
      counted = proceed-IsCounted c a t (record s { threads = r }) xs n l w.tracked w.counted;
    }

-- A driver's write that concerns no owner.
written-Holds :
    (u n : ℕ) (w : Urb) (s : Bus) (xs : List ℕ)
    → w.submitted ≡ (s.urbs u).submitted
    → w.refcount ≡ (s.urbs u).refcount
    → w.freed ≡ (s.urbs u).freed
    → Holds s xs n
    → Holds (record s { urbs = write s.urbs u w }) xs n
unfolding write
written-Holds u n w s xs es er ef h = record {
  tracked = record {
    queue = h.tracked.queue;
    null = ground (arith, h.tracked.null, es);
    tokens = λ v. ground (arith, h.tracked.tokens v, es);
    turns = h.tracked.turns;
    stray = h.tracked.stray;
  };
  counted =
      write_cases (λ v w'. Counts (owners v s xs) n w') s.urbs u w
        (Counts-kept (owners u s xs) n (s.urbs u) w er ef (h.counted u)) (λ v ne. h.counted v);
}

dropped-Holds :
    (u n : ℕ) (s : Bus) (xs : List ℕ)
    → n < u32_mod
    → has u s.held ≡ true
    → Holds s xs n
    → Holds
        (record s { urbs = write s.urbs u (usb_free_urb (s.urbs u)); held = erase u s.held })
        xs
        n
dropped-Holds u n s xs l own h =
    let f = freed-IsTracked u s xs h.tracked in
    record {
      tracked = record {
        queue = f.queue;
        null = f.null;
        tokens = f.tokens;
        turns = f.turns;
        stray = f.stray;
      };
      counted =
          freed-IsCounted n u s
            (record s { urbs = write s.urbs u (usb_free_urb (s.urbs u)); held = erase u s.held }) xs
            xs l (λ v. ground (arith, occ-erase v u s.held own)) refl h.counted;
    }

Holds-guard :
    (b : Bool) (s s' : Bus) (xs : List ℕ) (n : ℕ)
    → Holds s xs n
    → (b ≡ true → Holds s' xs n)
    → Holds (if b then s' else s) xs n
Holds-guard true s s' xs n h k = k refl
Holds-guard false s s' xs n h k = h

-- The queue behind an event.
unfoldable pub behind_event : Event → Bus → List ℕ → List ℕ
unfolding behind_picked pick
behind_event (submitting u memory lookup) s xs = xs
behind_event (filling u dev pipe buffer len complete) s xs = xs
behind_event (killing u) s xs = xs
behind_event (dropping u) s xs = xs
behind_event (advancing i a) s xs = behind_picked (pick i s.threads) s xs

step-Holds :
    (c : Codes) (e : Event) (s : Bus) (xs : List ℕ) (n : ℕ)
    → n < u32_mod
    → Holds s xs n
    → Holds (step c e s) (behind_event e s xs) (n + 1)
unfolding step behind_event
step-Holds c (submitting u memory lookup) s xs n l h =
    Holds-guard (has u s.held) s _ xs (n + 1) (Holds-more s xs n (n + 1) (omega arith) h)
      λ own. usb_submit_urb-Holds u n memory lookup s xs (has-occ u s.held own) h
step-Holds c (filling u dev pipe buffer len complete) s xs n l h =
    Holds-more _ xs n (n + 1) (omega arith) (
      Holds-guard (has u s.held) s _ xs n h λ own.
        written-Holds u n (usb_fill_bulk_urb (s.urbs u) dev pipe buffer len complete) s xs refl refl
          refl h)
step-Holds c (killing u) s xs n l h = Holds-more _ xs n (n + 1) (omega arith) (
    Holds-guard (has u s.held) s _ xs n h
      λ own. written-Holds u n (record (s.urbs u) { killed = true }) s xs refl refl refl h)
step-Holds c (dropping u) s xs n l h =
    Holds-more _ xs n (n + 1) (omega arith)
      (Holds-guard (has u s.held) s _ xs n h λ own. dropped-Holds u n s xs l own h)
step-Holds c (advancing i a) s xs n l h =
    Holds-more _ (behind_picked (pick i s.threads) s xs) n (n + 1) (omega arith)
      (picked-Holds c a i n (pick i s.threads) s xs l refl h)

-- After any sequence of submissions, completions and other calls, with any answers of the host, while the
-- owners and the events are fewer than 2 ^ 32: a URB that is submitted is in exactly one place, in the
-- queue or with one thread; exactly when the shared pipe is busy, one thread has the turn on it; the
-- reference count of each URB is the number of its owners, and a freed URB has none.
pub run-Holds :
    (c : Codes) (es : List Event) (s : Bus) (xs : List ℕ) (n : ℕ)
    → Holds s xs n
    → n + length es < u32_mod
    → (xs' : List ℕ) × Holds (run c es s) xs' (n + length es)
unfolding run
run-Holds c [] s xs n h l = (xs, Holds-more s xs n (n + 0) (omega arith) h)
run-Holds c (e ∷ es) s xs n h l =
    let (xs', h') =
      run-Holds c es (step c e s) (behind_event e s xs) (n + 1)
        (step-Holds c e s xs n (omega arith) h) (omega arith) in
    (xs', Holds-more (run c es (step c e s)) xs' (n + 1 + length es) _ (omega arith) h')
