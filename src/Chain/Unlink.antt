-- ===== src/Chain/Unlink.antt =====
-- Unlinking, as the removal from the sequence of objects.
use lcompat.Base.{
  ℕ, zero, suc, ◌<◌, ◌≡◌, ◌≢◌, refl, inl, inr, true, false, some, List, [], ◌∷◌, arith, ◌==◌,
  if◌then◌else◌, Bool-cases, ap, ◌∙◌, length,
}
use lcompat.Chain.{Links, Ends, update, cut, unlink_loop, unlink}
use lcompat.Chain.Rep.{
  NotIn, has, erase, last, Chain, IsQueue, Chain-update, NotIn-erase, last-ne_NotIn,
}

-- The tail after its object may have been cut off behind `prev`.
tail_after :
    (prev x t : ℕ) (xs : List ℕ)
    → t ≡ last x xs
    → NotIn x xs
    → (if t == x then prev else t) ≡ last prev xs
tail_after prev x t [] e n = ground arith
tail_after prev x t (y ∷ ys) e n =
    let far : x ≢ last y ys = last-ne_NotIn x y ys n.0 n.1 in ground arith

-- The loop behind an object `prev` of the queue: its outcome for the objects `rest` after it.
record Rest (next next' : Links) (e e' : Ends) (prev x : ℕ) (rest : List ℕ) : Type 0 where
  chain : Chain next' (next' prev) (erase x rest)
  head : e'.head ≡ e.head
  tail : e'.tail ≡ last prev (erase x rest)
  same : (q : ℕ) → q ≢ prev → NotIn q rest → next' q ≡ next q
  cleared : has x rest ≡ true → next' x ≡ 0

cut-Rest :
    (prev x : ℕ) (next : Links) (e : Ends) (ys : List ℕ)
    → prev ≢ 0
    → NotIn prev (x ∷ ys)
    → NotIn x ys
    → Chain next (next x) ys
    → e.tail ≡ last x ys
    → let (next', e') = cut prev x next e in Rest next next' e e' prev x (x ∷ ys)
unfolding cut erase update
cut-Rest prev x next e ys nz out n c t =
    let t0 : (prev == 0) ≡ false = ground arith in
    let t1 : (x == x) ≡ true = ground arith in
    let t2 : (prev == x) ≡ false = ground (arith, out.0) in
    let t3 : (prev == prev) ≡ true = ground arith in
    rw t0 (record {
      chain =
          rw (t1, t2, t3)
            (Chain-update (update next prev (next x)) (next x) x 0 ys n
              (Chain-update next (next x) prev (next x) ys out.1 c));
      head = refl;
      tail = rw t1 (tail_after prev x e.tail ys t n);
      same = λ q a b. ground (arith, b.0);
      cleared = λ h. ground arith;
    })

-- An object before the rest keeps what the loop finds behind it.
Rest-cons :
    (next next' : Links) (e e' : Ends) (prev y x : ℕ) (ys : List ℕ)
    → (y == x) ≡ false
    → NotIn prev (y ∷ ys)
    → next prev ≡ y
    → y ≢ 0
    → NotIn y ys
    → Rest next next' e e' y x ys
    → Rest next next' e e' prev x (y ∷ ys)
unfolding erase has
Rest-cons next next' e e' prev y x ys miss out at nz n r = record {
  chain = rw miss (r.same prev out.0 out.1 ∙ at, nz, NotIn-erase y x ys n, r.chain);
  head = r.head;
  tail = rw miss r.tail;
  same = λ q a b. r.same q b.0 b.1;
  cleared = λ h. r.cleared (rw miss at h);
}

unlink_loop-Rest :
    (fuel prev cur x : ℕ) (next : Links) (e : Ends) (rest : List ℕ)
    → prev ≢ 0
    → NotIn prev rest
    → next prev ≡ cur
    → Chain next cur rest
    → e.tail ≡ last prev rest
    → length rest < fuel
    → (next' : Links) × (e' : Ends) × (unlink_loop fuel prev cur x next e
        ≡ some (has x rest, next', e'))
      × Rest next next' e e' prev x rest
unfolding unlink_loop has
unlink_loop-Rest zero prev cur x next e rest nz out at c t f = absurd (omega arith)
unlink_loop-Rest (suc fuel) prev cur x next e [] nz out at c t f = (
  next,
  e,
  ground arith,
  unfold erase in
      record { chain = at ∙ c; head = refl; tail = t; same = λ q a b. refl; cleared = λ h. cc },
)
unlink_loop-Rest (suc fuel) prev cur x next e (y ∷ ys) nz out at c t f =
    let t0 : (y == 0) ≡ false = ground (arith, c.1) in
    elim (Bool-cases (y == x)) [
      | inl hit ↦
          let same : y ≡ x = ground arith in
          let (next', e') = cut prev x next e in
          (
            next',
            e',
            rw (c.0, t0, hit),
            rw same (
                cut-Rest prev x next e ys nz (rw same at out) (rw same at c.2) (rw same at c.3)
                  (rw same at t)),
          )
      | inr miss ↦
          let (next', e', eq, r) =
            unlink_loop-Rest fuel y (next y) x next e ys c.1 c.2 refl c.3 t (omega arith) in
          (
            next',
            e',
            rw (c.0, t0, miss, eq),
            Rest-cons next next' e e' prev y x ys miss out (at ∙ c.0) c.1 c.2 r,
          )
    ]

-- What an unlink of `x` leaves behind.
pub record Unlinked (next next' : Links) (e' : Ends) (x : ℕ) (xs : List ℕ) : Type 0 where
  pub queue : IsQueue next' e' (erase x xs)
  pub cleared : has x xs ≡ true → next' x ≡ 0
  pub same : (q : ℕ) → NotIn q xs → next' q ≡ next q

cut-Unlinked :
    (x : ℕ) (next : Links) (e : Ends) (ys : List ℕ)
    → IsQueue next e (x ∷ ys)
    → let (next', e') = cut 0 x next e in Unlinked next next' e' x (x ∷ ys)
unfolding cut erase update
cut-Unlinked x next e ys q =
    let t1 : (x == x) ≡ true = ground arith in
    record {
      queue = record {
        chain = rw t1 (Chain-update next (next x) x 0 ys q.chain.2 q.chain.3);
        end = rw t1 (tail_after 0 x e.tail ys q.end q.chain.2);
      };
      cleared = λ h. ground arith;
      same = λ p b. ground (arith, b.0);
    }

Rest-Unlinked :
    (next next' : Links) (e e' : Ends) (x y : ℕ) (ys : List ℕ)
    → (y == x) ≡ false
    → IsQueue next e (y ∷ ys)
    → Rest next next' e e' y x ys
    → Unlinked next next' e' x (y ∷ ys)
unfolding erase has
Rest-Unlinked next next' e e' x y ys miss q r = record {
  queue = record {
    chain = rw miss (r.head ∙ q.chain.0, q.chain.1, NotIn-erase y x ys q.chain.2, r.chain);
    end = rw miss r.tail;
  };
  cleared = λ h. r.cleared (rw miss at h);
  same = λ p b. r.same p b.0 b.1;
}

unlink_loop-miss :
    (fuel h x : ℕ) (next : Links) (e : Ends)
    → (h == 0) ≡ false
    → (h == x) ≡ false
    → unlink_loop (suc fuel) 0 h x next e ≡ unlink_loop fuel h (next h) x next e
unfolding unlink_loop
unlink_loop-miss fuel h x next e t0 miss = rw (t0, miss)

unlink-miss :
    (fuel x y : ℕ) (next : Links) (e : Ends)
    → e.head ≡ y
    → (y == 0) ≡ false
    → (y == x) ≡ false
    → unlink (suc fuel) x next e ≡ unlink_loop fuel y (next y) x next e
unfolding unlink
unlink-miss fuel x y next e h t0 miss =
    ap (λ (p : ℕ). unlink_loop (suc fuel) 0 p x next e) h ∙ unlink_loop-miss fuel y x next e t0 miss

has-miss : (x y : ℕ) (ys : List ℕ) → (y == x) ≡ false → has x (y ∷ ys) ≡ has x ys
unfolding has
has-miss x y ys miss = rw miss

-- With fuel for every object, an unlink returns: it says whether `x` was in the queue, takes it out,
-- and leaves the links of foreign objects alone.
pub unlink-Unlinked :
    (fuel x : ℕ) (next : Links) (e : Ends) (xs : List ℕ)
    → IsQueue next e xs
    → length xs < fuel
    → (next' : Links) × (e' : Ends) × (unlink fuel x next e ≡ some (has x xs, next', e'))
      × Unlinked next next' e' x xs
unfolding unlink unlink_loop has
unlink-Unlinked zero x next e xs q f = absurd (omega arith)
unlink-Unlinked (suc fuel) x next e [] q f = (
  next,
  e,
  ground (arith, q.chain),
  unfold erase in record { queue = q; cleared = λ h. cc; same = λ p b. refl },
)
unlink-Unlinked (suc fuel) x next e (y ∷ ys) q f =
    let t0 : (y == 0) ≡ false = ground (arith, q.chain) in
    elim (Bool-cases (y == x)) [
      | inl hit ↦
          let same : y ≡ x = ground arith in
          let (next', e') = cut 0 x next e in
          (next', e', rw (q.chain.0, t0, hit), rw same (cut-Unlinked x next e ys (rw same at q)))
      | inr miss ↦
          let (next', e', eq, r) =
            unlink_loop-Rest fuel y (next y) x next e ys q.chain.1 q.chain.2 refl q.chain.3 q.end
              (omega arith) in
          (
            next',
            e',
            rw (has-miss x y ys miss) (unlink-miss fuel x y next e q.chain.0 t0 miss ∙ eq),
            Rest-Unlinked next next' e e' x y ys miss q r,
          )
    ]
