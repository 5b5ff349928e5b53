-- ===== src/Usb/Events/Calls.antt =====
-- The calls of `complete`, and the sections that lead to them: a URB that is killed passes no test.
use lcompat.Base.{
  ℕ, ◌+◌, ◌≡◌, refl, ap, ◌∙◌, Bool, true, false, not, ◌&&◌, Option, none, some, List, [], ◌∷◌,
  arith, ◌==◌, if◌then◌else◌, Bool-cases, inl, inr,
}
use lcompat.Chain.{pop}
use lcompat.Usb.{Status, Outcome, ret, bad, Codes}
use lcompat.Usb.Urb.{Urb, start_urb, capped, after_zlp, usb_free_urb}
use lcompat.Usb.Bus.{
  Phase, testing, calling, past, tested, Thread, appending, starting, in_flight, returned,
  releasing, handing, failing, Bus, write, Answers, called, started, finish, completed,
  urb_complete, next_turn, next_started, proceed,
}
use lcompat.Usb.Bus.Tokens.{at, total}
use lcompat.Usb.Bus.Kept.{Kept, start_urb-Kept, after_zlp-Kept, deliver-Kept}

-- How often `complete` was called for a URB.
unfoldable pub calls_of : ℕ → List (ℕ × Status × ℕ) → ℕ
calls_of u [] = 0
calls_of u (c ∷ cs) = (if c.0 == u then 1 else 0) + calls_of u cs

-- Whether a completion of `v` is one of `u` that is about to call `complete`.
abbrev pub about : (u v : ℕ) → Phase → ℕ
about u v (testing complete) = 0
about u v calling = at u v
about u v past = 0

-- Whether a thread has passed the test of `killed` for a URB, and is about to call its `complete`.
abbrev pub passed : ℕ → Thread → ℕ
passed u (appending v) = 0
passed u (starting v) = 0
passed u (in_flight v) = 0
passed u (returned p v) = about u v p
passed u (releasing v) = 0
passed u (handing n v) = 0
passed u (failing p n v) = about u n p

-- The URB is killed; `k` calls of its `complete` were made, or will be by threads that have passed the test.
pub record IsSettled (u k : ℕ) (s : Bus) : Type 0 where
  pub killed : (s.urbs u).killed ≡ true
  pub calls : calls_of u s.calls + total (passed u) s.threads ≡ k

module _ (u k : ℕ) where
  -- The thread `t` has been taken from the list.
  abbrev SettledWith : Thread → Bus → Type 0
  SettledWith t s = IsSettled u k (record s { threads = t ∷ s.threads })

  -- A URB that is killed does not pass.
  about-tested :
      (v : ℕ) (s : Bus) (complete : Bool)
      → (s.urbs u).killed ≡ true
      → about u v (tested (s.urbs v) complete) ≡ 0
  unfolding tested
  about-tested v s complete h = elim (Bool-cases (v == u)) [
    | inl e ↦
        let e' : v ≡ u = ground arith in
        let dead : (s.urbs v).killed ≡ true = ap (λ (i : ℕ). (s.urbs i).killed) e' ∙ h in
        rw dead refl
    | inr e ↦ elim (Bool-cases (not (s.urbs v).killed && complete)) [
      | inl c ↦ rw (c, e) refl
      | inr c ↦ rw c refl
    ]
  ]

  started-IsSettled :
      (v : ℕ) (r : Outcome ℕ × Urb) (s : Bus)
      → Kept (s.urbs v) r.1
      → SettledWith (starting v) s
      → IsSettled u k (started v r s)
  unfolding started write usb_free_urb total
  started-IsSettled v (ret n, w) s kept h = record {
    killed = ground (arith, kept.killed, h.killed);
    calls = omega (arith, h.calls);
  }
  started-IsSettled v (bad e, w) s kept h = record {
    killed = ground (arith, kept.killed, h.killed);
    calls = omega (arith, h.calls);
  }

  completed-IsSettled :
      (v : ℕ) (r : Option (Status × ℕ) × Urb) (bytes : List ℕ) (s : Bus)
      → Kept (s.urbs v) r.1
      → SettledWith (in_flight v) s
      → IsSettled u k (completed v r bytes s)
  unfolding completed finish write total
  completed-IsSettled v (none, w) bytes s kept h = record {
    killed = ground (arith, kept.killed, h.killed);
    calls = omega (arith, h.calls);
  }
  completed-IsSettled v (some r, w) bytes s kept h =
      let dead = (deliver-Kept w r bytes).killed ∙ kept.killed in
      record { killed = ground (arith, dead, h.killed); calls = omega (arith, h.calls) }

  next_turn-IsSettled :
      (v : ℕ) (s : Bus) → SettledWith (returned past v) s → IsSettled u k (next_turn v s)
  unfolding next_turn write total
  next_turn-IsSettled v s h = elim (Bool-cases (s.shared v)) [
    | inr e ↦ rw (next_turn, e) (record { killed = h.killed; calls = omega (arith, h.calls) })
    | inl e ↦ elim (Bool-cases ((pop s.links s.list).0 == 0)) [
      | inl z ↦ rw (next_turn, e, z) (record { killed = h.killed; calls = omega (arith, h.calls) })
      | inr z ↦
          rw (next_turn, e, z)
            (record { killed = ground (arith, h.killed); calls = omega (arith, h.calls) })
    ]
  ]

  next_started-IsSettled :
      (n v : ℕ) (r : Outcome ℕ × Urb) (s : Bus)
      → Kept (s.urbs n) r.1
      → SettledWith (handing n v) s
      → IsSettled u k (next_started n v r s)
  unfolding next_started write total
  next_started-IsSettled n v (ret m, w) s kept h = record {
    killed = ground (arith, kept.killed, h.killed);
    calls = omega (arith, h.calls);
  }
  next_started-IsSettled n v (bad e, w) s kept h = record {
    killed = ground (arith, kept.killed, h.killed);
    calls = omega (arith, h.calls);
  }

  -- A write that leaves `killed` alone, by a thread that calls nobody.
  written-IsSettled :
      (v : ℕ) (w : Urb) (s s' : Bus)
      → w.killed ≡ (s.urbs v).killed
      → s'.urbs ≡ write s.urbs v w
      → calls_of u s'.calls + total (passed u) s'.threads
        ≡ calls_of u s.calls + total (passed u) s.threads
      → IsSettled u k s
      → IsSettled u k s'
  unfolding write
  written-IsSettled v w s s' e eu ec h = record {
    killed = rw eu (ground (arith, e, h.killed));
    calls = ec ∙ h.calls;
  }

  urb_complete-IsSettled :
      (c : Codes) (a : Answers) (v : ℕ) (s : Bus)
      → SettledWith (in_flight v) s
      → IsSettled u k (urb_complete c a v s)
  unfolding urb_complete total
  urb_complete-IsSettled c a v s h = at_test (s.urbs v).submitted _ (
      completed-IsSettled v
        (after_zlp c (s.urbs v) (capped c (s.urbs v) a.code a.actual) a.start.answer) a.bytes s
        (after_zlp-Kept c (s.urbs v) (capped c (s.urbs v) a.code a.actual) a.start.answer) h)
    where
      at_test : (b : Bool) (s' : Bus) → IsSettled u k s' → IsSettled u k (if not b then s else s')
      at_test true s' h' = h'
      at_test false s' h' = record { killed = h.killed; calls = omega (arith, h.calls) }

  -- The call moves from those to come to those that were made.
  called-same :
      (v m : ℕ) (s : Bus)
      → calls_of u (called v (s.urbs v) s.calls) + m ≡ calls_of u s.calls + (at u v + m)
  unfolding called calls_of
  called-same v m s = omega arith

  pub proceed-IsSettled :
      (c : Codes) (a : Answers) (t : Thread) (s : Bus)
      → SettledWith t s
      → IsSettled u k (proceed c a t s)
  unfolding proceed usb_free_urb total
  proceed-IsSettled c a (appending v) s h =
      written-IsSettled v (record (s.urbs v) { queued = true })
        (record s { threads = appending v ∷ s.threads }) _ refl refl (omega arith) h
  proceed-IsSettled c a (starting v) s h =
      started-IsSettled v (start_urb (s.urbs v) a.start) s (start_urb-Kept (s.urbs v) a.start) h
  proceed-IsSettled c a (in_flight v) s h = urb_complete-IsSettled c a v s h
  proceed-IsSettled c a (returned (testing complete) v) s h = record {
    killed = h.killed;
    calls = omega (arith, h.calls, about-tested v s complete h.killed);
  }
  proceed-IsSettled c a (returned calling v) s h = record {
    killed = h.killed;
    calls = omega (arith, called-same v (total (passed u) s.threads) s, h.calls);
  }
  proceed-IsSettled c a (returned past v) s h = next_turn-IsSettled v s h
  proceed-IsSettled c a (releasing v) s h =
      written-IsSettled v (usb_free_urb (s.urbs v)) (record s { threads = releasing v ∷ s.threads })
        _ refl refl (omega arith) h
  proceed-IsSettled c a (handing n v) s h =
      next_started-IsSettled n v (start_urb (s.urbs n) a.start) s
        (start_urb-Kept (s.urbs n) a.start) h
  proceed-IsSettled c a (failing (testing complete) n v) s h = record {
    killed = h.killed;
    calls = omega (arith, h.calls, about-tested n s complete h.killed);
  }
  proceed-IsSettled c a (failing calling n v) s h = record {
    killed = h.killed;
    calls = omega (arith, called-same n (total (passed u) s.threads) s, h.calls);
  }
  proceed-IsSettled c a (failing past n v) s h =
      written-IsSettled n (usb_free_urb (s.urbs n))
        (record s { threads = failing past n v ∷ s.threads }) _ refl refl (omega arith) h
