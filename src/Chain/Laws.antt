-- ===== src/Chain/Laws.antt =====
-- Appending, pushing and popping, as operations on the sequence of objects.
use lcompat.Base.{ℕ, ◌≡◌, ◌≢◌, refl, false, List, [], ◌∷◌, ◌++◌, arith, ◌==◌, if◌then◌else◌, sym}
use lcompat.Chain.{Links, Ends, ends, update, append, push_front, pop}
use lcompat.Chain.Rep.{
  NotIn, last, Chain, IsQueue, Chain-update, NotIn-append, last-append, last-ne_NotIn,
}

-- Linking `x` behind the last object of a chain.
Chain-append :
    (next : Links) (p x y : ℕ) (xs : List ℕ)
    → x ≢ 0
    → NotIn x (y ∷ xs)
    → Chain next p (y ∷ xs)
    → Chain (update (update next x 0) (last y xs) x) p ((y ∷ xs) ++ (x ∷ []))
unfolding update
Chain-append next p x y [] nz out c =
    (c.0, c.1, ((λ e. out.0 (sym e)), tt), (ground arith, nz, tt, ground (arith, out.0)))
Chain-append next p x y (z ∷ zs) nz out c =
    let far : y ≢ last z zs = last-ne_NotIn y z zs c.2.0 c.2.1 in
    let e : update (update next x 0) (last z zs) x y ≡ next y = ground arith in
    (
      c.0,
      c.1,
      NotIn-append y x (z ∷ zs) c.2 (λ h. out.0 (sym h)),
      rw e (Chain-append next (next y) x z zs nz out.1 c.3),
    )

last-ne_zero : (next : Links) (p x : ℕ) (xs : List ℕ) → Chain next p (x ∷ xs) → last x xs ≢ 0
last-ne_zero next p x [] c = c.1
last-ne_zero next p x (y ∷ ys) c = last-ne_zero next (next x) y ys c.3

-- `append` puts an object behind all others.
pub append-IsQueue :
    (x : ℕ) (next : Links) (e : Ends) (xs : List ℕ)
    → x ≢ 0
    → NotIn x xs
    → IsQueue next e xs
    → let (next', e') = append x next e in IsQueue next' e' (xs ++ (x ∷ []))
unfolding append update
append-IsQueue x next e [] nz out q = ground (arith, q.end)
append-IsQueue x next e (y ∷ xs) nz out q =
    let nonempty = last-ne_zero next e.head y xs q.chain in
    let t : (e.tail == 0) ≡ false = ground (arith, q.end) in
    let t' : e.tail ≡ last y xs = q.end in
    rw (t, t')
      (record {
        chain = Chain-append next e.head x y xs nz out q.chain;
        end = sym (last-append y x xs);
      })

-- `push_front` puts an object before all others.
pub push_front-IsQueue :
    (x : ℕ) (next : Links) (e : Ends) (xs : List ℕ)
    → x ≢ 0
    → NotIn x xs
    → IsQueue next e xs
    → let (next', e') = push_front x next e in IsQueue next' e' (x ∷ xs)
unfolding push_front update
push_front-IsQueue x next e [] nz out q = record {
  chain = (refl, nz, tt, ground (arith, q.chain));
  end = ground (arith, q.end);
}
push_front-IsQueue x next e (y ∷ ys) nz out q = record {
  chain = (refl, nz, out, ground (arith, Chain-update next e.head x e.head (y ∷ ys) out q.chain));
  end = ground (arith, q.end, last-ne_zero next e.head y ys q.chain);
}

pop-eq :
    (next : Links) (e : Ends) (x t : ℕ)
    → e.head ≡ x
    → x ≢ 0
    → t ≡ (if next x == 0 then 0 else e.tail)
    → pop next e ≡ (x, update next x 0, ends (next x) t)
unfolding pop
pop-eq next e x t h nz w = let t0 : (x == 0) ≡ false = ground arith in rw (h, t0, w)

-- `pop` takes the first object, and clears its link.
pub pop-IsQueue :
    (next : Links) (e : Ends) (x : ℕ) (xs : List ℕ)
    → IsQueue next e (x ∷ xs)
    → let (y, next', e') = pop next e in (y ≡ x) × (next' x ≡ 0) × IsQueue next' e' xs
unfolding update
pop-IsQueue next e x [] q =
    rw (pop-eq next e x 0 q.chain.0 q.chain.1 (ground (arith, q.chain)))
      (refl, ground arith, record { chain = q.chain.3; end = refl })
pop-IsQueue next e x (y ∷ ys) q =
    rw (pop-eq next e x e.tail q.chain.0 q.chain.1 (ground (arith, q.chain))) (
      refl,
      ground arith,
      record { chain = Chain-update next (next x) x 0 (y ∷ ys) q.chain.2 q.chain.3; end = q.end },
    )

-- On an empty queue `pop` gives NULL and changes nothing.
pub pop-empty : (next : Links) (e : Ends) → IsQueue next e [] → pop next e ≡ (0, next, e)
unfolding pop
pop-empty next e q = ground (arith, q.chain)
