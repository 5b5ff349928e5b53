-- ===== src/PagePool/Refcount.antt =====
-- The references to a page as a number that is 0 once the page is gone.
use lcompat.Base.{
  ℕ, ◌+◌, ◌<◌, ◌≡◌, Option, none, some, arith, ◌==◌, inl, inr, if◌then◌else◌, Option-cases,
}
use lcompat.PagePool.{Page, Pages, find_page, put_page}
use lcompat.PagePool.Invariant.{IsValid}
use lcompat.PagePool.Lists.{find-PageOk}
use lcompat.PagePool.Counts.{put_page-Dropped}

abbrev pub count_of : Option Page → ℕ
count_of none = 0
count_of (some pg) = pg.refcnt

unfoldable pub refcount : ℕ → Pages → ℕ
refcount p k = count_of (find_page p k.live)

-- The page list after one reference to `p` is dropped.
pub record Put (p : ℕ) (k k' : Pages) : Type 0 where
  pub valid : IsValid k'
  pub counts : (q : ℕ) → refcount q k ≡ refcount q k' + (if q == p then 1 else 0)

-- `put_page` of a page with a reference succeeds, and drops one reference to it and none to another.
pub put_page-Put :
    (p : ℕ) (k : Pages)
    → IsValid k
    → 0 < refcount p k
    → (k' : Pages) × (put_page p k ≡ some k') × Put p k k'
unfolding refcount
put_page-Put p k v h = elim (Option-cases (find_page p k.live)) [
  | inl e ↦ absurd (ground (arith, e))
  | inr (pg, e) ↦
      let (k', e', d) = put_page-Dropped p pg k v e in
      (
        k',
        e',
        record {
          valid = d.valid;
          counts = λ q. ground (arith, find-PageOk p k.live pg v.pages e, d.page, d.others q);
        },
      )
]
