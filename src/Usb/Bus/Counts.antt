-- ===== src/Usb/Bus/Counts.antt =====
-- The reference count of a URB is the number of its owners, and a URB with an owner is not freed.
use lcompat.Base.{
  ℕ, ◌+◌, ◌%◌, ◌≤◌, ◌<◌, ◌≡◌, ◌≢◌, refl, sym, subst, ◌∙◌, Bool, true, false, not, ◌||◌, Option,
  none, some, List, [], ◌∷◌, ◌++◌, arith, ◌==◌, if_false, Bool-cases, inl, inr,
}
use lcompat.Base.Words.{u32_mod, sub_u32}
use lcompat.Chain.Occ.{occ, occ-append}
use lcompat.Usb.{Status, Outcome, ret, bad, Codes}
use lcompat.Usb.Urb.{Urb, capped, after_zlp, usb_free_urb}
use lcompat.Usb.Bus.{
  testing, Thread, appending, starting, in_flight, returned, releasing, handing, failing, Bus,
  write, Answers, started, finish, completed, urb_complete, next_started, proceed,
}
use lcompat.Usb.Bus.Tokens.{at, refs, total}
use lcompat.Usb.Bus.Kept.{Kept, after_zlp-Kept, deliver-Kept}

-- The owners of a URB: the driver's references, its place in the queue, and the threads.
abbrev pub owners : ℕ → Bus → List ℕ → ℕ
owners v s xs = occ v s.held + occ v xs + total (refs v) s.threads

-- A URB with `k` owners, of at most `n`.
pub record Counts (k n : ℕ) (w : Urb) : Type 0 where
  pub count : w.refcount ≡ k % u32_mod
  pub alive : w.freed ≡ true → k ≡ 0
  pub few : k ≤ n

abbrev pub IsCounted : Bus → List ℕ → ℕ → Type 0
IsCounted s xs n = (v : ℕ) → Counts (owners v s xs) n (s.urbs v)

abbrev pub CountedWith : Thread → Bus → List ℕ → ℕ → Type 0
CountedWith t s xs n = IsCounted (record s { threads = t ∷ s.threads }) xs n

-- The same owners, under another name of their number.
pub Counts-eq : (k l n : ℕ) (w : Urb) → k ≡ l → Counts k n w → Counts l n w
Counts-eq k l n w e c = subst (λ (j : ℕ). Counts j n w) e c

pub Counts-kept :
    (k n : ℕ) (u w : Urb)
    → w.refcount ≡ u.refcount
    → w.freed ≡ u.freed
    → Counts k n u
    → Counts k n w
Counts-kept k n u w er ef c = record {
  count = er ∙ c.count;
  alive = λ h. c.alive (sym ef ∙ h);
  few = c.few;
}

pub Counts-more : (k m n : ℕ) (w : Urb) → m ≤ n → Counts k m w → Counts k n w
Counts-more k m n w l c = record { count = c.count; alive = c.alive; few = omega (arith, c.few) }

-- `usb_free_urb` by one of the owners.
pub free-Counts :
    (k n : ℕ) (w : Urb) → n < u32_mod → Counts (k + 1) n w → Counts k n (usb_free_urb w)
unfolding usb_free_urb
free-Counts k n w l c = record {
  count = omega (arith, c.count);
  alive = λ h. at_zero (sub_u32 w.refcount 1 == 0) refl h;
  few = omega (arith, c.few);
}
  where
    at_zero : (b : Bool) → (sub_u32 w.refcount 1 == 0) ≡ b → (w.freed || b) ≡ true → k ≡ 0
    at_zero true e h =
        let z : sub_u32 w.refcount 1 ≡ 0 = ground arith in omega (arith, c.count, c.few)
    at_zero false e h = let f : w.freed ≡ true = ground arith in let z = c.alive f in omega arith

-- A write to one URB, seen from all.
pub write_cases :
    (P : ℕ → Urb → Type 0) (urbs : ℕ → Urb) (u : ℕ) (w : Urb)
    → P u w
    → ((v : ℕ) → v ≢ u → P v (urbs v))
    → (v : ℕ) → P v (write urbs u w v)
unfolding write
write_cases P urbs u w h hs v = elim (Bool-cases (v == u)) [
  | inl e ↦ let e' : u ≡ v = ground arith in rw e (subst (λ (i : ℕ). P i w) e' h)
  | inr e ↦ rw e (hs v (ground arith))
]

module _ (u n : ℕ) (s : Bus) (xs : List ℕ) where
  pub appending-IsCounted :
      (c : Codes) (a : Answers)
      → CountedWith (appending u) s xs n
      → IsCounted (proceed c a (appending u) s) (xs ++ (u ∷ [])) n
  unfolding proceed total
  appending-IsCounted c a t =
      write_cases
        (λ v w. Counts (occ v s.held + occ v (xs ++ (u ∷ [])) + total (refs v) s.threads) n w)
        s.urbs u (record (s.urbs u) { queued = true })
        (Counts-eq _ _ n _ (omega (arith, occ-append u u xs))
          (Counts-kept _ n (s.urbs u) _ refl refl (t u)))
        (λ v ne. Counts-eq _ _ n _ (omega (arith, occ-append v u xs)) (t v))

  pub started-IsCounted :
      (r : Outcome ℕ × Urb)
      → n < u32_mod
      → Kept (s.urbs u) r.1
      → CountedWith (starting u) s xs n
      → IsCounted (started u r s) xs n
  unfolding started total
  started-IsCounted (ret m, w) l k t =
      write_cases
        (λ v w'. Counts (owners v (record s { threads = in_flight u ∷ s.threads }) xs) n w') s.urbs
        u w (Counts-kept _ n (s.urbs u) w k.refcount k.freed (t u)) (λ v ne. t v)
  started-IsCounted (bad e, w) l k t =
      let w1 = record w { submitted = false } in
      write_cases (λ v w'. Counts (owners v s xs) n w') s.urbs u (usb_free_urb w1)
        (free-Counts (owners u s xs) n w1 l (
          Counts-eq _ _ n _ (ground arith)
            (Counts-kept _ n (s.urbs u) w1 k.refcount k.freed (t u))))
        (λ v ne. Counts-eq _ _ n _ (ground arith) (t v))

  completed-IsCounted :
      (r : Option (Status × ℕ) × Urb) (bytes : List ℕ)
      → Kept (s.urbs u) r.1
      → CountedWith (in_flight u) s xs n
      → IsCounted (completed u r bytes s) xs n
  unfolding completed finish total
  completed-IsCounted (none, w) bytes k t =
      write_cases
        (λ v w'. Counts (owners v (record s { threads = in_flight u ∷ s.threads }) xs) n w') s.urbs
        u w (Counts-kept _ n (s.urbs u) w k.refcount k.freed (t u)) (λ v ne. t v)
  completed-IsCounted (some r, w) bytes k t =
      let d = deliver-Kept w r bytes in
      write_cases
        (λ v w'.
          Counts
            (owners v (record s { threads = returned (testing w.has_complete) u ∷ s.threads }) xs) n
            w')
        s.urbs u _
        (Counts-kept _ n (s.urbs u) _ (d.refcount ∙ k.refcount) (d.freed ∙ k.freed) (t u))
        (λ v ne. t v)

  -- A section that writes nothing that counts, and whose threads hold what they held.
  pub same-IsCounted :
      (s' : Bus) (xs' : List ℕ)
      → ((v : ℕ) → owners v s xs ≡ owners v s' xs')
      → ((v : ℕ) → (s'.urbs v).refcount ≡ (s.urbs v).refcount)
      → ((v : ℕ) → (s'.urbs v).freed ≡ (s.urbs v).freed)
      → IsCounted s xs n
      → IsCounted s' xs' n
  same-IsCounted s' xs' eo er ef t =
      λ v. Counts-eq _ _ n _ (eo v) (Counts-kept _ n (s.urbs v) (s'.urbs v) (er v) (ef v) (t v))

module _ (n : ℕ) where
  pub urb_complete-IsCounted :
      (c : Codes) (a : Answers) (u : ℕ) (s : Bus) (xs : List ℕ)
      → (s.urbs u).submitted ≡ true
      → CountedWith (in_flight u) s xs n
      → IsCounted (urb_complete c a u s) xs n
  unfolding urb_complete
  urb_complete-IsCounted c a u s xs there t =
      let st = capped c (s.urbs u) a.code a.actual in
      subst (λ (b : Bus). IsCounted b xs n)
        (sym (if_false (not (s.urbs u).submitted) _ _ (ground arith)))
        (completed-IsCounted u n s xs (after_zlp c (s.urbs u) st a.start.answer) a.bytes
          (after_zlp-Kept c (s.urbs u) st a.start.answer) t)

  pub next_started-IsCounted :
      (next u : ℕ) (r : Outcome ℕ × Urb) (s : Bus) (xs : List ℕ)
      → Kept (s.urbs next) r.1
      → CountedWith (handing next u) s xs n
      → IsCounted (next_started next u r s) xs n
  unfolding next_started total
  next_started-IsCounted next u (ret m, w) s xs k t =
      write_cases
        (λ v w'.
          Counts (owners v (record s { threads = in_flight next ∷ releasing u ∷ s.threads }) xs) n
            w')
        s.urbs next w
        (Counts-eq _ _ n _ (omega arith)
          (Counts-kept _ n (s.urbs next) w k.refcount k.freed (t next)))
        (λ v ne. Counts-eq _ _ n _ (omega arith) (t v))
  next_started-IsCounted next u (bad e, w) s xs k t =
      write_cases
        (λ v w'.
          Counts
            (owners v (record s { threads = failing (testing w.has_complete) next u ∷ s.threads })
              xs)
            n w')
        s.urbs next _ (Counts-kept _ n (s.urbs next) _ k.refcount k.freed (t next)) (λ v ne. t v)

  pub freed-IsCounted :
      (u : ℕ) (s s' : Bus) (xs xs' : List ℕ)
      → n < u32_mod
      → ((v : ℕ) → owners v s xs ≡ owners v s' xs' + at v u)
      → s'.urbs ≡ write s.urbs u (usb_free_urb (s.urbs u))
      → IsCounted s xs n
      → IsCounted s' xs' n
  freed-IsCounted u s s' xs xs' l eo eu t =
      subst (λ (f : ℕ → Urb). (v : ℕ) → Counts (owners v s' xs') n (f v)) (sym eu)
        (write_cases (λ v w. Counts (owners v s' xs') n w) s.urbs u (usb_free_urb (s.urbs u))
          (free-Counts _ n (s.urbs u) l (Counts-eq _ _ n _ (ground (arith, eo u)) (t u)))
          (λ v ne. Counts-eq _ _ n _ (ground (arith, eo v)) (t v)))
