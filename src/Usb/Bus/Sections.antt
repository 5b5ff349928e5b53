-- ===== src/Usb/Bus/Sections.antt =====
-- The sections in which a turn on the pipe is passed on, and all sections together.
use lcompat.Base.{
  ℕ, ◌≡◌, true, false, List, [], ◌∷◌, ◌++◌, arith, ◌==◌, if◌then◌else◌, Bool-cases, inl, inr,
}
use lcompat.Chain.Laws.{pop-IsQueue, pop-empty}
use lcompat.Chain.Occ.{occ}
use lcompat.Usb.{Outcome, ret, bad, Codes}
use lcompat.Usb.Urb.{Urb, start_urb, usb_free_urb}
use lcompat.Usb.Bus.{
  testing, calling, past, Thread, appending, starting, in_flight, returned, releasing, handing,
  failing, Bus, write, Answers, next_turn, next_started, proceed,
}
use lcompat.Usb.Bus.Tokens.{total}
use lcompat.Usb.Bus.Turns.{
  IsTracked, With, rest, appending-IsTracked, started-IsTracked, urb_complete-IsTracked,
}
use lcompat.Usb.Bus.Kept.{Kept, start_urb-Kept}

next_turn-own :
    (u : ℕ) (s : Bus) (xs : List ℕ)
    → s.shared u ≡ false
    → With (returned past u) s xs
    → IsTracked (next_turn u s) xs
unfolding next_turn total
next_turn-own u s xs e t =
    rw (next_turn, e)
      (record {
        queue = t.queue;
        null = t.null;
        tokens = λ v. omega (arith, t.tokens v);
        turns = ground (arith, t.turns, e);
        stray = λ v h. omega (arith, t.stray v h);
      })

next_turn-last :
    (u : ℕ) (s : Bus)
    → s.shared u ≡ true
    → With (returned past u) s []
    → IsTracked (next_turn u s) []
unfolding next_turn total
next_turn-last u s e t =
    rw (next_turn, e, pop-empty s.links s.list t.queue)
      (record {
        queue = t.queue;
        null = t.null;
        tokens = λ v. omega (arith, t.tokens v);
        turns = ground (arith, t.turns, e);
        stray = λ v h. omega (arith, t.stray v h);
      })

next_turn-next :
    (u : ℕ) (s : Bus) (x : ℕ) (xs : List ℕ)
    → s.shared u ≡ true
    → With (returned past u) s (x ∷ xs)
    → IsTracked (next_turn u s) xs
unfolding next_turn write total occ
next_turn-next u s x xs e t =
    let (first, cleared, q) = pop-IsQueue s.links s.list x xs t.queue in
    let nz : (x == 0) ≡ false = ground (arith, t.queue.chain) in
    rw (next_turn, e, first, nz)
      (record {
        queue = q;
        null = ground (arith, t.null);
        tokens = λ v. ground (arith, t.tokens v);
        turns = ground (arith, t.turns, e);
        stray = λ v h. ground (arith, t.stray v h);
      })

next_started-IsTracked :
    (n u : ℕ) (r : Outcome ℕ × Urb) (s : Bus) (xs : List ℕ)
    → Kept (s.urbs n) r.1
    → With (handing n u) s xs
    → IsTracked (next_started n u r s) xs
unfolding next_started write total
next_started-IsTracked n u (ret k, w) s xs kept t =
    let sh : s.shared n ≡ true = ground (arith, t.stray n) in
    record {
      queue = t.queue;
      null = ground (arith, t.null, kept.submitted);
      tokens = λ v. ground (arith, t.tokens v, kept.submitted);
      turns = ground (arith, t.turns, sh);
      stray = λ v h. omega (arith, t.stray v h);
    }
next_started-IsTracked n u (bad e, w) s xs kept t = record {
  queue = t.queue;
  null = ground (arith, t.null);
  tokens = λ v. ground (arith, t.tokens v);
  turns = ground (arith, t.turns);
  stray = λ v h. omega (arith, t.stray v h);
}

-- Dropping a reference changes nothing that is tracked.
pub freed-IsTracked :
    (u : ℕ) (s : Bus) (xs : List ℕ)
    → IsTracked s xs
    → IsTracked (record s { urbs = write s.urbs u (usb_free_urb (s.urbs u)) }) xs
unfolding write usb_free_urb
freed-IsTracked u s xs t = record {
  queue = t.queue;
  null = ground (arith, t.null);
  tokens = λ v. ground (arith, t.tokens v);
  turns = t.turns;
  stray = t.stray;
}

-- The queue behind a section.
unfoldable pub behind : Thread → Bus → List ℕ → List ℕ
behind (appending u) s xs = xs ++ (u ∷ [])
behind (starting u) s xs = xs
behind (in_flight u) s xs = xs
behind (returned (testing complete) u) s xs = xs
behind (returned calling u) s xs = xs
behind (returned past u) s xs = if s.shared u then rest xs else xs
behind (releasing u) s xs = xs
behind (handing n u) s xs = xs
behind (failing p n u) s xs = xs

next_turn-IsTracked :
    (u : ℕ) (s : Bus) (xs : List ℕ)
    → With (returned past u) s xs
    → IsTracked (next_turn u s) (if s.shared u then rest xs else xs)
next_turn-IsTracked u s xs t = elim (Bool-cases (s.shared u)) [
  | inr e ↦ rw e (next_turn-own u s xs e t)
  | inl e ↦ rw e (with_queue u s xs e t)
]
  where
    with_queue :
        (u : ℕ) (s : Bus) (xs : List ℕ)
        → s.shared u ≡ true
        → With (returned past u) s xs
        → IsTracked (next_turn u s) (rest xs)
    with_queue u s [] e t = next_turn-last u s e t
    with_queue u s (x ∷ xs) e t = next_turn-next u s x xs e t

pub proceed-IsTracked :
    (c : Codes) (a : Answers) (th : Thread) (s : Bus) (xs : List ℕ)
    → With th s xs
    → IsTracked (proceed c a th s) (behind th s xs)
unfolding proceed behind total
proceed-IsTracked c a (appending u) s xs t = appending-IsTracked c a u s xs t
proceed-IsTracked c a (starting u) s xs t =
    started-IsTracked u (start_urb (s.urbs u) a.start) s xs (start_urb-Kept (s.urbs u) a.start) t
proceed-IsTracked c a (in_flight u) s xs t = urb_complete-IsTracked c a u s xs t
proceed-IsTracked c a (returned (testing complete) u) s xs t = record {
  queue = t.queue;
  null = t.null;
  tokens = t.tokens;
  turns = t.turns;
  stray = t.stray;
}
proceed-IsTracked c a (returned calling u) s xs t = record {
  queue = t.queue;
  null = t.null;
  tokens = t.tokens;
  turns = t.turns;
  stray = t.stray;
}
proceed-IsTracked c a (returned past u) s xs t = next_turn-IsTracked u s xs t
proceed-IsTracked c a (releasing u) s xs t = freed-IsTracked u s xs (record {
  queue = t.queue;
  null = t.null;
  tokens = λ v. omega (arith, t.tokens v);
  turns = omega (arith, t.turns);
  stray = λ v h. omega (arith, t.stray v h);
})
proceed-IsTracked c a (handing n u) s xs t =
    next_started-IsTracked n u (start_urb (s.urbs n) a.start) s xs
      (start_urb-Kept (s.urbs n) a.start) t
proceed-IsTracked c a (failing (testing complete) n u) s xs t = record {
  queue = t.queue;
  null = t.null;
  tokens = t.tokens;
  turns = t.turns;
  stray = t.stray;
}
proceed-IsTracked c a (failing calling n u) s xs t = record {
  queue = t.queue;
  null = t.null;
  tokens = t.tokens;
  turns = t.turns;
  stray = t.stray;
}
proceed-IsTracked c a (failing past n u) s xs t =
    freed-IsTracked n (record s { threads = releasing u ∷ s.threads }) xs
      (record {
        queue = t.queue;
        null = t.null;
        tokens = λ v. omega (arith, t.tokens v);
        turns = omega (arith, t.turns);
        stray = λ v h. omega (arith, t.stray v h);
      })
