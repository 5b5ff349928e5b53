-- ===== src/Usb/Bus/Turns.antt =====
-- Every section of an endpoint keeps track of each URB, and of the turn on the pipe.
use lcompat.Base.{
  ℕ, ◌+◌, ◌≡◌, ◌≢◌, Bool, true, false, not, Option, none, some, List, [], ◌∷◌, ◌++◌, arith,
  if◌then◌else◌,
}
use lcompat.Chain.Rep.{NotIn, IsQueue}
use lcompat.Chain.Laws.{append-IsQueue}
use lcompat.Chain.Occ.{occ, occ-append, occ-zero_iff_NotIn}
use lcompat.Usb.{Status, Outcome, ret, bad, Codes}
use lcompat.Usb.Urb.{Urb, capped, after_zlp, usb_free_urb}
use lcompat.Usb.Bus.{
  Thread, appending, starting, in_flight, Bus, write, Answers, started, finish, completed,
  urb_complete, proceed,
}
use lcompat.Usb.Bus.Tokens.{bit, brings, turn, moves, total}
use lcompat.Usb.Bus.Kept.{Kept, after_zlp-Kept}

-- The queue holds the URBs `xs`. A submitted URB is in exactly one place, once: in the queue, or with the
-- thread that brings it to its completion. Exactly when the pipe is busy one thread has the turn. URBs with a pipe
-- of their own never meet the queue.
pub record IsTracked (s : Bus) (xs : List ℕ) : Type 0 where
  pub queue : IsQueue s.links s.list xs
  pub null : (s.urbs 0).submitted ≡ false
  pub tokens : (v : ℕ) → occ v xs + total (brings v) s.threads ≡ bit (s.urbs v).submitted
  pub turns : total (turn s.shared) s.threads ≡ bit s.pipe_busy
  pub stray : (v : ℕ) → s.shared v ≡ false → occ v xs + total (moves v) s.threads ≡ 0

-- The thread `t` has been taken from the list.
abbrev pub With : Thread → Bus → List ℕ → Type 0
With t s xs = IsTracked (record s { threads = t ∷ s.threads }) xs

-- The queue without its first URB.
abbrev pub rest : List ℕ → List ℕ
rest [] = []
rest (x ∷ xs) = xs

pub appending-IsTracked :
    (c : Codes) (a : Answers) (u : ℕ) (s : Bus) (xs : List ℕ)
    → With (appending u) s xs
    → IsTracked (proceed c a (appending u) s) (xs ++ (u ∷ []))
unfolding proceed write total
appending-IsTracked c a u s xs t =
    let nz : u ≢ 0 = ground (arith, t.tokens 0, t.null) in
    let out : NotIn u xs = occ-zero_iff_NotIn u xs (ground (arith, t.tokens u)) in
    record {
      queue = append-IsQueue u s.links s.list xs nz out t.queue;
      null = ground (arith, t.null);
      tokens = λ v. ground (arith, t.tokens v, occ-append v u xs);
      turns = omega (arith, t.turns);
      stray = λ v h. ground (arith, t.stray v h, occ-append v u xs);
    }

pub started-IsTracked :
    (u : ℕ) (r : Outcome ℕ × Urb) (s : Bus) (xs : List ℕ)
    → Kept (s.urbs u) r.1
    → With (starting u) s xs
    → IsTracked (started u r s) xs
unfolding started write total usb_free_urb
started-IsTracked u (ret n, w) s xs k t = record {
  queue = t.queue;
  null = ground (arith, t.null, k.submitted);
  tokens = λ v. ground (arith, t.tokens v, k.submitted);
  turns = t.turns;
  stray = λ v h. omega (arith, t.stray v h);
}
started-IsTracked u (bad e, w) s xs k t = record {
  queue = t.queue;
  null = ground (arith, t.null);
  tokens = λ v. ground (arith, t.tokens v);
  turns = ground (arith, t.turns);
  stray = λ v h. omega (arith, t.stray v h);
}

pub completed-IsTracked :
    (u : ℕ) (r : Option (Status × ℕ) × Urb) (bytes : List ℕ) (s : Bus) (xs : List ℕ)
    → Kept (s.urbs u) r.1
    → With (in_flight u) s xs
    → IsTracked (completed u r bytes s) xs
unfolding completed finish write total
completed-IsTracked u (none, w) bytes s xs k t = record {
  queue = t.queue;
  null = ground (arith, t.null, k.submitted);
  tokens = λ v. ground (arith, t.tokens v, k.submitted);
  turns = t.turns;
  stray = λ v h. omega (arith, t.stray v h);
}
completed-IsTracked u (some r, w) bytes s xs k t = record {
  queue = t.queue;
  null = ground (arith, t.null);
  tokens = λ v. ground (arith, t.tokens v);
  turns = t.turns;
  stray = λ v h. omega (arith, t.stray v h);
}

Tracked-if :
    (b : Bool) (s s' : Bus) (xs : List ℕ)
    → b ≡ true
    → IsTracked s' xs
    → IsTracked (if not b then s else s') xs
Tracked-if true s s' xs e t = t
Tracked-if false s s' xs e t = absurd (ground arith)

pub urb_complete-IsTracked :
    (c : Codes) (a : Answers) (u : ℕ) (s : Bus) (xs : List ℕ)
    → With (in_flight u) s xs
    → IsTracked (urb_complete c a u s) xs
unfolding urb_complete total
urb_complete-IsTracked c a u s xs t =
    let there : (s.urbs u).submitted ≡ true = ground (arith, t.tokens u) in
    let st = capped c (s.urbs u) a.code a.actual in
    Tracked-if (s.urbs u).submitted s _ xs there (
      completed-IsTracked u (after_zlp c (s.urbs u) st a.start.answer) a.bytes s xs
        (after_zlp-Kept c (s.urbs u) st a.start.answer) t)
