-- ===== src/Usb/Events/Silent.antt =====
-- A URB that was killed is completed without a call of its `complete`, but for a completion that was past
-- the test already.
use lcompat.Base.{
  ℕ, ◌+◌, ◌≡◌, ◌≢◌, refl, Bool, true, false, not, ◌&&◌, ◌||◌, Option, none, some, List, [], ◌∷◌,
  arith, ◌==◌, if◌then◌else◌, Bool-cases, inl, inr, Errno,
}
use lcompat.Chain.Rep.{has}
use lcompat.Usb.{Codes}
use lcompat.Usb.Urb.{NativePipe, usb_free_urb}
use lcompat.Usb.Bus.{Thread, Bus, write, enqueue, submit_found, usb_submit_urb, Answers}
use lcompat.Usb.Bus.Tokens.{total}
use lcompat.Usb.Events.{
  pick, picked, usb_fill_bulk_urb, Event, submitting, filling, killing, dropping, advancing, step,
  run,
}
use lcompat.Usb.Events.Runs.{total-pick}
use lcompat.Usb.Events.Calls.{calls_of, passed, IsSettled, proceed-IsSettled}

-- An event that does not submit the URB again.
abbrev pub IsOther : ℕ → Event → Type 0
IsOther u (submitting v memory lookup) = v ≢ u
IsOther u (filling v dev pipe buffer len complete) = Unit {0}
IsOther u (killing v) = Unit {0}
IsOther u (dropping v) = Unit {0}
IsOther u (advancing i a) = Unit {0}

abbrev pub AreOther : ℕ → List Event → Type 0
AreOther u [] = Unit {0}
AreOther u (e ∷ es) = IsOther u e × AreOther u es

module _ (u k : ℕ) where
  enqueue-IsSettled :
      (v : ℕ) (p : Option NativePipe) (s : Bus)
      → v ≢ u
      → IsSettled u k s
      → IsSettled u k (enqueue v p s)
  unfolding enqueue write total
  enqueue-IsSettled v p s ne h = elim (Bool-cases (s.shared v && s.pipe_busy)) [
    | inl e ↦ rw e (record { killed = ground (arith, h.killed); calls = omega (arith, h.calls) })
    | inr e ↦ rw e (record { killed = ground (arith, h.killed); calls = omega (arith, h.calls) })
  ]

  IsSettled-if :
      (b : Bool) (x y : Option Errno × Bus)
      → IsSettled u k x.1
      → IsSettled u k y.1
      → IsSettled u k (if b then x else y).1
  IsSettled-if true x y h h' = h
  IsSettled-if false x y h h' = h'

  submit_found-IsSettled :
      (v : ℕ) (lookup : Option (Option NativePipe)) (s : Bus)
      → v ≢ u
      → IsSettled u k s
      → IsSettled u k (submit_found v lookup s).1
  unfolding submit_found write
  submit_found-IsSettled v none s ne h = record {
    killed = ground (arith, h.killed);
    calls = omega (arith, h.calls);
  }
  submit_found-IsSettled v (some p) s ne h = enqueue-IsSettled v p s ne h

  usb_submit_urb-IsSettled :
      (v : ℕ) (memory : Bool) (lookup : Option (Option NativePipe)) (s : Bus)
      → v ≢ u
      → IsSettled u k s
      → IsSettled u k (usb_submit_urb v memory lookup s).1
  unfolding usb_submit_urb
  usb_submit_urb-IsSettled v memory lookup s ne h =
      IsSettled-if (v == 0 || not (s.urbs v).has_dev) _ _ h (
        IsSettled-if (s.urbs v).submitted _ _ h (
          IsSettled-if (not ((s.urbs v).has_state || memory)) _ _ h
            (submit_found-IsSettled v lookup s ne h)))

  total-picked :
      (i : ℕ) (ts : List Thread) (t : Thread) (r : List Thread)
      → pick i ts ≡ some (t, r)
      → total (passed u) ts ≡ total (passed u) (t ∷ r)
  unfolding total
  total-picked i ts t r e = total-pick (passed u) i ts t r e

  picked-IsSettled :
      (c : Codes) (a : Answers) (i : ℕ) (p : Option (Thread × List Thread)) (s : Bus)
      → pick i s.threads ≡ p
      → IsSettled u k s
      → IsSettled u k (picked c a p s)
  unfolding picked
  picked-IsSettled c a i none s e h = h
  picked-IsSettled c a i (some (t, r)) s e h =
      proceed-IsSettled u k c a t (record s { threads = r })
        (record {
          killed = h.killed;
          calls = omega (arith, h.calls, total-picked i s.threads t r e);
        })

  guarded :
      (b : Bool) (s s' : Bus)
      → IsSettled u k s
      → IsSettled u k s'
      → IsSettled u k (if b then s' else s)
  guarded true s s' h h' = h'
  guarded false s s' h h' = h

  step-IsSettled :
      (c : Codes) (e : Event) (s : Bus) → IsOther u e → IsSettled u k s → IsSettled u k (step c e s)
  unfolding step write usb_fill_bulk_urb usb_free_urb
  step-IsSettled c (submitting v memory lookup) s o h =
      guarded (has v s.held) s _ h (usb_submit_urb-IsSettled v memory lookup s o h)
  step-IsSettled c (filling v dev pipe buffer len complete) s o h =
      guarded (has v s.held) s _ h
        (record { killed = ground (arith, h.killed); calls = omega (arith, h.calls) })
  step-IsSettled c (killing v) s o h =
      guarded (has v s.held) s _ h
        (record { killed = ground (arith, h.killed); calls = omega (arith, h.calls) })
  step-IsSettled c (dropping v) s o h =
      guarded (has v s.held) s _ h
        (record { killed = ground (arith, h.killed); calls = omega (arith, h.calls) })
  step-IsSettled c (advancing i a) s o h = picked-IsSettled c a i (pick i s.threads) s refl h

all_events-IsSettled :
    (c : Codes) (es : List Event) (u k : ℕ) (s : Bus)
    → AreOther u es
    → IsSettled u k s
    → IsSettled u k (run c es s)
unfolding run
all_events-IsSettled c [] u k s o h = h
all_events-IsSettled c (e ∷ es) u k s o h =
    all_events-IsSettled c es u k (step c e s) o.1 (step-IsSettled u k c e s o.0 h)

-- After `usb_kill_urb` has marked a URB, whatever happens but a new submission of this URB, it stays marked,
-- and no completion passes the test of the mark: the calls of its `complete` that were made, together with
-- the threads that have passed the test and are about to call it, stay as many as they were. So where no
-- thread has passed it before, `complete` is not called any more.
pub run-IsSettled :
    (c : Codes) (es : List Event) (u : ℕ) (s : Bus)
    → AreOther u es
    → (s.urbs u).killed ≡ true
    → (((run c es s).urbs u).killed ≡ true)
      × (calls_of u (run c es s).calls + total (passed u) (run c es s).threads
          ≡ calls_of u s.calls + total (passed u) s.threads)
run-IsSettled c es u s o d =
    let k = calls_of u s.calls + total (passed u) s.threads in
    let h = all_events-IsSettled c es u k s o (record { killed = d; calls = refl }) in
    (h.killed, h.calls)
