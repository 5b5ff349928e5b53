-- ===== src/Usb/Bus/Owners.antt =====
-- Every section counts the owners of each URB.
use lcompat.Base.{
  ℕ, ◌<◌, ◌≡◌, refl, true, false, List, [], ◌∷◌, arith, ◌==◌, if◌then◌else◌, Bool-cases, inl, inr,
}
use lcompat.Base.Words.{u32_mod}
use lcompat.Chain.Rep.{IsQueue}
use lcompat.Chain.Laws.{pop-IsQueue, pop-empty}
use lcompat.Chain.Occ.{occ}
use lcompat.Usb.{Codes}
use lcompat.Usb.Urb.{start_urb}
use lcompat.Usb.Bus.{
  testing, calling, past, Thread, appending, starting, in_flight, returned, releasing, handing,
  failing, Bus, write, Answers, next_turn, proceed,
}
use lcompat.Usb.Bus.Tokens.{total}
use lcompat.Usb.Bus.Kept.{start_urb-Kept}
use lcompat.Usb.Bus.Turns.{With, rest}
use lcompat.Usb.Bus.Sections.{behind}
use lcompat.Usb.Bus.Counts.{
  IsCounted, CountedWith, appending-IsCounted, started-IsCounted, same-IsCounted,
  urb_complete-IsCounted, next_started-IsCounted, freed-IsCounted,
}

next_turn-here :
    (u n : ℕ) (s : Bus) (xs : List ℕ)
    → s.shared u ≡ false
    → CountedWith (returned past u) s xs n
    → IsCounted (next_turn u s) xs n
unfolding next_turn total
next_turn-here u n s xs e t = rw (next_turn, e) t

next_turn-IsCounted_shared :
    (u n : ℕ) (s : Bus) (xs : List ℕ)
    → s.shared u ≡ true
    → IsQueue s.links s.list xs
    → CountedWith (returned past u) s xs n
    → IsCounted (next_turn u s) (rest xs) n
unfolding next_turn write total occ
next_turn-IsCounted_shared u n s [] e q t = rw (next_turn, e, pop-empty s.links s.list q) t
next_turn-IsCounted_shared u n s (x ∷ xs) e q t =
    let (first, cleared, q') = pop-IsQueue s.links s.list x xs q in
    let nz : (x == 0) ≡ false = ground (arith, q.chain) in
    let s' : Bus = record s {
      urbs = write s.urbs x (record (s.urbs x) { queued = false });
      threads = handing x u ∷ s.threads;
    } in
    rw (next_turn, e, first, nz)
      (same-IsCounted u n (record s { threads = returned past u ∷ s.threads }) (x ∷ xs) s' xs
        (λ v. omega arith) (λ v. ground arith) (λ v. ground arith) t)

next_turn-IsCounted :
    (u n : ℕ) (s : Bus) (xs : List ℕ)
    → IsQueue s.links s.list xs
    → CountedWith (returned past u) s xs n
    → IsCounted (next_turn u s) (if s.shared u then rest xs else xs) n
next_turn-IsCounted u n s xs q t = elim (Bool-cases (s.shared u)) [
  | inr e ↦ rw e (next_turn-here u n s xs e t)
  | inl e ↦ rw e (next_turn-IsCounted_shared u n s xs e q t)
]

pub proceed-IsCounted :
    (c : Codes) (a : Answers) (th : Thread) (s : Bus) (xs : List ℕ) (n : ℕ)
    → n < u32_mod
    → With th s xs
    → CountedWith th s xs n
    → IsCounted (proceed c a th s) (behind th s xs) n
unfolding proceed behind total
proceed-IsCounted c a (appending u) s xs n l w t = appending-IsCounted u n s xs c a t
proceed-IsCounted c a (starting u) s xs n l w t =
    started-IsCounted u n s xs (start_urb (s.urbs u) a.start) l (start_urb-Kept (s.urbs u) a.start)
      t
proceed-IsCounted c a (in_flight u) s xs n l w t =
    urb_complete-IsCounted n c a u s xs (ground (arith, w.tokens u)) t
proceed-IsCounted c a (returned (testing complete) u) s xs n l w t = t
proceed-IsCounted c a (returned calling u) s xs n l w t = t
proceed-IsCounted c a (returned past u) s xs n l w t = next_turn-IsCounted u n s xs w.queue t
proceed-IsCounted c a (releasing u) s xs n l w t =
    freed-IsCounted n u (record s { threads = releasing u ∷ s.threads })
      (proceed c a (releasing u) s) xs xs l (λ v. omega arith) refl t
proceed-IsCounted c a (handing next u) s xs n l w t =
    next_started-IsCounted n next u (start_urb (s.urbs next) a.start) s xs
      (start_urb-Kept (s.urbs next) a.start) t
proceed-IsCounted c a (failing (testing complete) next u) s xs n l w t = t
proceed-IsCounted c a (failing calling next u) s xs n l w t = t
proceed-IsCounted c a (failing past next u) s xs n l w t =
    freed-IsCounted n next (record s { threads = failing past next u ∷ s.threads })
      (proceed c a (failing past next u) s) xs xs l (λ v. omega arith) refl t
