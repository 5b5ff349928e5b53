-- ===== src/Usb/Bus/Submits.antt =====
-- Taking a URB for a transfer: `usb_submit_urb` keeps track of it and counts its owners.
use lcompat.Base.{
  ℕ, ◌+◌, ◌<◌, ◌≤◌, ◌≡◌, ◌≢◌, refl, Bool, true, false, not, ◌&&◌, ◌||◌, Option, none, some, List,
  arith, ◌==◌, if◌then◌else◌, Bool-cases, inl, inr, Errno,
}
use lcompat.Chain.{update}
use lcompat.Chain.Rep.{NotIn, IsQueue, Chain-update}
use lcompat.Chain.Occ.{occ, occ-zero_iff_NotIn}
use lcompat.Usb.Urb.{NativePipe, Urb}
use lcompat.Usb.Bus.{
  Thread, appending, starting, Bus, write, begun, enqueue, submit_found, usb_submit_urb,
}
use lcompat.Usb.Bus.Tokens.{at, refs, total}
use lcompat.Usb.Bus.Turns.{IsTracked}
use lcompat.Usb.Bus.Counts.{
  owners, Counts, IsCounted, Counts-eq, Counts-kept, Counts-more, write_cases,
}

-- A URB that is not submitted is taken for a new transfer.
enqueue-IsTracked :
    (u : ℕ) (p : Option NativePipe) (s : Bus) (xs : List ℕ)
    → u ≢ 0
    → (s.urbs u).submitted ≡ false
    → IsTracked s xs
    → IsTracked (enqueue u p s) xs
unfolding enqueue begun write total
enqueue-IsTracked u p s xs nz new t =
    let out : NotIn u xs = occ-zero_iff_NotIn u xs (ground (arith, t.tokens u)) in
    let q : IsQueue (update s.links u 0) s.list xs = record {
      chain = Chain-update s.links s.list.head u 0 xs out t.queue.chain;
      end = t.queue.end;
    } in
    elim (Bool-cases (s.shared u)) [
      | inr e ↦ rw e (record {
        queue = q;
        null = ground (arith, t.null);
        tokens = λ v. ground (arith, t.tokens v);
        turns = ground (arith, t.turns, e);
        stray = λ v h. omega (arith, t.stray v h);
      })
      | inl e ↦ elim (Bool-cases s.pipe_busy) [
        | inl b ↦
            rw (e, b)
              (record {
                queue = q;
                null = ground (arith, t.null);
                tokens = λ v. ground (arith, t.tokens v);
                turns = ground (arith, t.turns);
                stray = λ v h. ground (arith, t.stray v h, e);
              })
        | inr b ↦
            rw (e, b)
              (record {
                queue = q;
                null = ground (arith, t.null);
                tokens = λ v. ground (arith, t.tokens v);
                turns = ground (arith, t.turns, e, b);
                stray = λ v h. omega (arith, t.stray v h);
              })
      ]
    ]

begun-Counts :
    (k n : ℕ) (u : Urb) (p : Option NativePipe)
    → 0 < k
    → Counts k n u
    → Counts (k + 1) (n + 1) (begun u p)
unfolding begun
begun-Counts k n u p l c = record {
  count = omega (arith, c.count);
  alive = λ h. let z = c.alive h in absurd (omega arith);
  few = omega (arith, c.few);
}

enqueue-IsCounted :
    (u n : ℕ) (p : Option NativePipe) (s : Bus) (xs : List ℕ)
    → occ u s.held ≢ 0
    → IsCounted s xs n
    → IsCounted (enqueue u p s) xs (n + 1)
unfolding enqueue total
enqueue-IsCounted u n p s xs own t = elim (Bool-cases (s.shared u && s.pipe_busy)) [
  | inl e ↦ rw e (counted (appending u) (λ v. refl))
  | inr e ↦ rw e (counted (starting u) (λ v. refl))
]
  where
    counted :
        (th : Thread)
        → ((v : ℕ) → refs v th ≡ at v u)
        → (v : ℕ)
        → Counts
            (occ v s.held + occ v xs + (refs v th + total (refs v) s.threads))
            (n + 1)
            (write s.urbs u (begun (s.urbs u) p) v)
    counted th e =
        write_cases
          (λ v w.
            Counts (occ v s.held + occ v xs + (refs v th + total (refs v) s.threads)) (n + 1) w)
          s.urbs u (begun (s.urbs u) p)
          (Counts-eq _ _ (n + 1) _ (ground (arith, e u))
            (begun-Counts (owners u s xs) n (s.urbs u) p (omega arith) (t u)))
          (λ v ne.
            Counts-eq _ _ (n + 1) _ (ground (arith, e v))
              (Counts-more _ n (n + 1) _ (omega arith) (t v)))

-- Both invariants, with the queue `xs`.
pub record Holds (s : Bus) (xs : List ℕ) (n : ℕ) : Type 0 where
  pub tracked : IsTracked s xs
  pub counted : IsCounted s xs n

pub Holds-more : (s : Bus) (xs : List ℕ) (m n : ℕ) → m ≤ n → Holds s xs m → Holds s xs n
Holds-more s xs m n l h = record {
  tracked = h.tracked;
  counted = λ v. Counts-more (owners v s xs) m n (s.urbs v) l (h.counted v);
}

Holds-if :
    (b : Bool) (x y : Option Errno × Bus) (xs : List ℕ) (n : ℕ)
    → Holds x.1 xs n
    → (b ≡ false → Holds y.1 xs n)
    → Holds (if b then x else y).1 xs n
Holds-if true x y xs n h k = h
Holds-if false x y xs n h k = k refl

submit_found-Holds :
    (u n : ℕ) (lookup : Option (Option NativePipe)) (s : Bus) (xs : List ℕ)
    → u ≢ 0
    → (s.urbs u).submitted ≡ false
    → occ u s.held ≢ 0
    → Holds s xs n
    → Holds (submit_found u lookup s).1 xs (n + 1)
unfolding submit_found write
submit_found-Holds u n none s xs nz new own h = Holds-more _ xs n (n + 1) (omega arith) (record {
  tracked = record {
    queue = h.tracked.queue;
    null = ground (arith, h.tracked.null);
    tokens = λ v. ground (arith, h.tracked.tokens v);
    turns = h.tracked.turns;
    stray = h.tracked.stray;
  };
  counted =
      write_cases (λ v w. Counts (owners v s xs) n w) s.urbs u
        (record (s.urbs u) { has_state = true })
        (Counts-kept (owners u s xs) n (s.urbs u) _ refl refl (h.counted u)) (λ v ne. h.counted v);
})
submit_found-Holds u n (some p) s xs nz new own h = record {
  tracked = enqueue-IsTracked u p s xs nz new h.tracked;
  counted = enqueue-IsCounted u n p s xs own h.counted;
}

pub usb_submit_urb-Holds :
    (u n : ℕ) (memory : Bool) (lookup : Option (Option NativePipe)) (s : Bus) (xs : List ℕ)
    → occ u s.held ≢ 0
    → Holds s xs n
    → Holds (usb_submit_urb u memory lookup s).1 xs (n + 1)
unfolding usb_submit_urb
usb_submit_urb-Holds u n memory lookup s xs own h =
    let same = Holds-more s xs n (n + 1) (omega arith) h in
    Holds-if (u == 0 || not (s.urbs u).has_dev) _ _ xs (n + 1) same λ e1.
      Holds-if (s.urbs u).submitted _ _ xs (n + 1) same λ e2.
        Holds-if (not ((s.urbs u).has_state || memory)) _ _ xs (n + 1) same
          λ e3. submit_found-Holds u n lookup s xs (ground arith) e2 own h
