-- ===== src/Usb/Events/Stranded.antt =====
-- How URBs are left in the queue of an endpoint that nobody serves.
use lcompat.Base.{
  ℕ, ◌+◌, ◌≤◌, ◌≡◌, ◌⊎◌, inl, inr, refl, sym, ap, subst, ◌∙◌, Bool, not, ◌&&◌, false, List, [], ◌∷◌,
  arith, Bool-cases,
}
use lcompat.Chain.Rep.{IsQueue}
use lcompat.Chain.Occ.{occ}
use lcompat.Usb.{Status, Outcome, ret, bad, Codes}
use lcompat.Usb.Urb.{Urb, start_urb}
use lcompat.Usb.Bus.{
  Phase, testing, calling, past, tested, Thread, appending, starting, in_flight, returned,
  releasing, handing, failing, Bus, Answers, next_started, proceed,
}
use lcompat.Usb.Bus.Tokens.{bit, total}
use lcompat.Usb.Bus.Turns.{IsTracked, With}
use lcompat.Usb.Bus.Sections.{proceed-IsTracked, behind}
use lcompat.Usb.Events.{advancing, pick, picked, step, run}

-- No thread is left, and the pipe is free, but the queue holds URBs, exactly those that are submitted.
pub record IsStranded (s : Bus) (v : ℕ) (vs : List ℕ) : Type 0 where
  pub idle : s.threads ≡ []
  pub free : s.pipe_busy ≡ false
  pub waiting : IsQueue s.links s.list (v ∷ vs)
  pub submitted : (w : ℕ) → occ w (v ∷ vs) ≡ bit (s.urbs w).submitted

idle-IsStranded :
    (s : Bus) (v : ℕ) (vs : List ℕ) → IsTracked s (v ∷ vs) → s.threads ≡ [] → IsStranded s v vs
unfolding total
idle-IsStranded s v vs t e =
    let none = t.turns in
    record {
      idle = e;
      free = let k = rw e at none in ground (arith, k);
      waiting = t.queue;
      submitted = λ w. let one = t.tokens w in let k = rw e at one in omega (arith, k);
    }

single :
    (c : Codes) (a : Answers) (t : Thread) (s : Bus)
    → s.threads ≡ t ∷ []
    → step c (advancing 0 a) s ≡ proceed c a t (record s { threads = [] })
unfolding step picked pick
single c a t s e = rw e refl

only-With :
    (t : Thread) (s : Bus) (xs : List ℕ)
    → s.threads ≡ t ∷ []
    → IsTracked s xs
    → With t (record s { threads = [] }) xs
only-With t s xs e h = record {
  queue = h.queue;
  null = h.null;
  tokens = λ v. let k = h.tokens v in rw e at k;
  turns = let k = h.turns in rw e at k;
  stray = λ v g. let k = h.stray v g in rw e at k;
}

single-IsTracked :
    (c : Codes) (a : Answers) (t : Thread) (s : Bus) (xs : List ℕ)
    → s.threads ≡ t ∷ []
    → IsTracked s xs
    → IsTracked (step c (advancing 0 a) s) (behind t (record s { threads = [] }) xs)
single-IsTracked c a t s xs e h =
    subst (λ (b : Bus). IsTracked b (behind t (record s { threads = [] }) xs))
      (sym (single c a t s e))
      (proceed-IsTracked c a t (record s { threads = [] }) xs (only-With t s xs e h))

-- The sections that are left at most to a thread that only ends; the others count as more.
abbrev to_end : Phase → ℕ
to_end (testing complete) = 4
to_end calling = 3
to_end past = 2

abbrev left : Thread → ℕ
left (appending u) = 9
left (starting u) = 9
left (in_flight u) = 9
left (returned p u) = 9
left (releasing u) = 1
left (handing n u) = 9
left (failing p n u) = to_end p

to_end-tested : (v : Urb) (complete : Bool) → to_end (tested v complete) ≤ 3
unfolding tested
to_end-tested v complete = elim (Bool-cases (not v.killed && complete)) [
  | inl e ↦ rw e (omega arith)
  | inr e ↦ rw e (omega arith)
]

-- An endpoint with no thread, or with one that ends in `m` sections.
record IsEnding (m : ℕ) (s : Bus) (xs : List ℕ) : Type 0 where
  tracked : IsTracked s xs
  only : (s.threads ≡ []) ⊎ ((t : Thread) × (s.threads ≡ t ∷ []) × (left t ≤ m))

section-IsEnding :
    (c : Codes) (a : Answers) (m : ℕ) (t : Thread) (s : Bus) (xs : List ℕ)
    → m ≤ 3
    → s.threads ≡ t ∷ []
    → left t ≤ m + 1
    → IsTracked s xs
    → IsEnding m (step c (advancing 0 a) s) xs
unfolding proceed behind
section-IsEnding c a m (appending u) s xs k e l h = absurd (omega arith)
section-IsEnding c a m (starting u) s xs k e l h = absurd (omega arith)
section-IsEnding c a m (in_flight u) s xs k e l h = absurd (omega arith)
section-IsEnding c a m (returned p u) s xs k e l h = absurd (omega arith)
section-IsEnding c a m (handing n u) s xs k e l h = absurd (omega arith)
section-IsEnding c a m (releasing u) s xs k e l h = record {
  tracked = single-IsTracked c a (releasing u) s xs e h;
  only = inl (ap (λ (b : Bus). b.threads) (single c a (releasing u) s e));
}
section-IsEnding c a m (failing past n u) s xs k e l h = record {
  tracked = single-IsTracked c a (failing past n u) s xs e h;
  only =
      inr
        (releasing u, ap (λ (b : Bus). b.threads) (single c a (failing past n u) s e), omega arith);
}
section-IsEnding c a m (failing calling n u) s xs k e l h = record {
  tracked = single-IsTracked c a (failing calling n u) s xs e h;
  only = inr (
    failing past n u,
    ap (λ (b : Bus). b.threads) (single c a (failing calling n u) s e),
    omega arith,
  );
}
section-IsEnding c a m (failing (testing complete) n u) s xs k e l h = record {
  tracked = single-IsTracked c a (failing (testing complete) n u) s xs e h;
  only = inr (
    failing (tested (s.urbs n) complete) n u,
    ap (λ (b : Bus). b.threads) (single c a (failing (testing complete) n u) s e),
    omega (arith, to_end-tested (s.urbs n) complete),
  );
}

idle-advance : (c : Codes) (a : Answers) (s : Bus) → s.threads ≡ [] → step c (advancing 0 a) s ≡ s
unfolding step picked pick
idle-advance c a s e = rw e refl

step-IsEnding :
    (c : Codes) (a : Answers) (m : ℕ) (s : Bus) (xs : List ℕ)
    → m ≤ 3
    → IsEnding (m + 1) s xs
    → IsEnding m (step c (advancing 0 a) s) xs
step-IsEnding c a m s xs k h = elim h.only [
  | inl e ↦
      subst (λ (b : Bus). IsEnding m b xs) (sym (idle-advance c a s e))
        (record { tracked = h.tracked; only = inl e })
  | inr (t, e, l) ↦ section-IsEnding c a m t s xs k e l h.tracked
]

some_left : (t : Thread) → 1 ≤ left t
some_left (appending u) = omega arith
some_left (starting u) = omega arith
some_left (in_flight u) = omega arith
some_left (returned p u) = omega arith
some_left (releasing u) = omega arith
some_left (handing n u) = omega arith
some_left (failing (testing complete) n u) = omega arith
some_left (failing calling n u) = omega arith
some_left (failing past n u) = omega arith

ended-IsStranded : (s : Bus) (v : ℕ) (vs : List ℕ) → IsEnding 0 s (v ∷ vs) → IsStranded s v vs
ended-IsStranded s v vs h = elim h.only [
  | inl e ↦ idle-IsStranded s v vs h.tracked e
  | inr (t, e, l) ↦ absurd (omega (arith, some_left t))
]

next_started-threads :
    (n u : ℕ) (r : Outcome ℕ × Urb) (s : Bus) (e : Status)
    → r.0 ≡ bad e
    → (next_started n u r s).threads ≡ failing (testing (r.1).has_complete) n u ∷ s.threads
unfolding next_started
next_started-threads n u (ret k, w) s e h = absurd (ground arith)
next_started-threads n u (bad f, w) s e h = refl

-- The section in which the next URB is not started.
handing-IsEnding :
    (c : Codes) (a : Answers) (n u : ℕ) (s : Bus) (xs : List ℕ) (e : Status)
    → IsTracked s xs
    → s.threads ≡ handing n u ∷ []
    → (start_urb (s.urbs n) a.start).0 ≡ bad e
    → IsEnding 4 (step c (advancing 0 a) s) xs
unfolding proceed behind
handing-IsEnding c a n u s xs e h one fails = record {
  tracked = single-IsTracked c a (handing n u) s xs one h;
  only = inr (
    failing (testing (start_urb (s.urbs n) a.start).1.has_complete) n u,
    ap (λ (b : Bus). b.threads) (single c a (handing n u) s one)
        ∙ next_started-threads n u (start_urb (s.urbs n) a.start) (record s { threads = [] }) e
            fails,
    omega arith,
  );
}

-- When the next URB cannot be started and its thread is the only one, the thread goes through its last
-- sections, at most five, and then no thread is left and the pipe is free, though the queue is not empty,
-- and all its URBs, and no others, are still submitted.
pub next_failed_strands :
    (c : Codes) (a0 a1 a2 a3 a4 : Answers) (n u v : ℕ) (vs : List ℕ) (s : Bus) (e : Status)
    → IsTracked s (v ∷ vs)
    → s.threads ≡ handing n u ∷ []
    → (start_urb (s.urbs n) a0.start).0 ≡ bad e
    → IsStranded
        (run c
          (advancing 0 a0 ∷ advancing 0 a1 ∷ advancing 0 a2 ∷ advancing 0 a3 ∷ advancing 0 a4 ∷ [])
          s)
        v
        vs
unfolding run
next_failed_strands c a0 a1 a2 a3 a4 n u v vs s e t one fails =
    let xs = v ∷ vs in
    let h0 = handing-IsEnding c a0 n u s xs e t one fails in
    let h1 = step-IsEnding c a1 3 _ xs (omega arith) h0 in
    let h2 = step-IsEnding c a2 2 _ xs (omega arith) h1 in
    let h3 = step-IsEnding c a3 1 _ xs (omega arith) h2 in
    ended-IsStranded _ v vs (step-IsEnding c a4 0 _ xs (omega arith) h3)
