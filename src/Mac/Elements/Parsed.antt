-- ===== src/Mac/Elements/Parsed.antt =====
-- The walks over elements find what a sequence of elements has.
use lcompat.Base.{
  ℕ, zero, suc, ◌<◌, ◌≤◌, ◌≡◌, refl, ap, ◌∙◌, Bool, false, ◌||◌, Option, none, some, List, [], ◌∷◌,
  ◌++◌, arith, ltb, ◌==◌, if◌then◌else◌, Bool-cases, inl, inr, length, take, drop, length-append,
  take-append, drop-append, append-take-drop, length-take, length-drop,
}
use mathlib.Core.List.{append_assoc}
use lcompat.Mac.Elements.{find_ie_loop, find_ie, is_wmm, has_wmm_loop, bss_has_wmm}

pub record Element : Type 0 where
  pub id : ℕ
  pub body : List ℕ

unfoldable pub encode : List Element → List ℕ
encode [] = []
encode (e ∷ es) = e.id ∷ length e.body ∷ (e.body ++ encode es)

-- The first element with an identifier.
unfoldable pub first_body : ℕ → List Element → Option (List ℕ)
first_body eid [] = none
first_body eid (e ∷ es) = if e.id == eid then some e.body else first_body eid es

-- Some element is a WMM element.
unfoldable pub some_wmm : List Element → Bool
some_wmm [] = false
some_wmm (e ∷ es) = is_wmm e.id e.body || some_wmm es

-- No whole element starts here: the bytes are too few for a header or for what it announces.
abbrev pub IsCut : List ℕ → Type 0
IsCut [] = Unit {0}
IsCut (id ∷ []) = Unit {0}
IsCut (id ∷ n ∷ rest) = length rest < n

-- The bytes are the elements, then bytes that are no whole element.
pub record Parsed (ies : List ℕ) (es : List Element) (tail : List ℕ) : Type 0 where
  pub split : ies ≡ encode es ++ tail
  pub cut : IsCut tail

find_loop-cut :
    (fuel : ℕ) (tail : List ℕ) (eid : ℕ) → IsCut tail → find_ie_loop fuel tail eid ≡ none
unfolding find_ie_loop
find_loop-cut zero tail eid c = refl
find_loop-cut (suc fuel) [] eid c = refl
find_loop-cut (suc fuel) (id ∷ []) eid c = refl
find_loop-cut (suc fuel) (id ∷ n ∷ rest) eid c = ground arith

wmm_loop-cut : (fuel : ℕ) (tail : List ℕ) → IsCut tail → has_wmm_loop fuel tail ≡ false
unfolding has_wmm_loop
wmm_loop-cut zero tail c = refl
wmm_loop-cut (suc fuel) [] c = refl
wmm_loop-cut (suc fuel) (id ∷ []) c = refl
wmm_loop-cut (suc fuel) (id ∷ n ∷ rest) c = ground arith

find_loop-first :
    (fuel : ℕ) (es : List Element) (tail : List ℕ) (eid : ℕ)
    → IsCut tail
    → length es < fuel
    → find_ie_loop fuel (encode es ++ tail) eid ≡ first_body eid es
unfolding find_ie_loop first_body encode
find_loop-first fuel [] tail eid c h = find_loop-cut fuel tail eid c
find_loop-first zero (e ∷ es) tail eid c h = absurd (omega arith)
find_loop-first (suc fuel) (e ∷ es) tail eid c h =
    rw
      (
        append_assoc e.body (encode es) tail,
        take-append e.body (encode es ++ tail),
        drop-append e.body (encode es ++ tail),
      )
      (ground (
        arith,
        find_loop-first fuel es tail eid c (omega arith),
        length-append e.body (encode es ++ tail),
      ))

wmm_loop-some :
    (fuel : ℕ) (es : List Element) (tail : List ℕ)
    → IsCut tail
    → length es < fuel
    → has_wmm_loop fuel (encode es ++ tail) ≡ some_wmm es
unfolding has_wmm_loop some_wmm encode
wmm_loop-some fuel [] tail c h = wmm_loop-cut fuel tail c
wmm_loop-some zero (e ∷ es) tail c h = absurd (omega arith)
wmm_loop-some (suc fuel) (e ∷ es) tail c h =
    rw
      (
        append_assoc e.body (encode es) tail,
        take-append e.body (encode es ++ tail),
        drop-append e.body (encode es ++ tail),
      )
      (ground (
        arith,
        wmm_loop-some fuel es tail c (omega arith),
        length-append e.body (encode es ++ tail),
      ))

length-encode : (es : List Element) → length es ≤ length (encode es)
unfolding encode
length-encode [] = omega arith
length-encode (e ∷ es) = omega (arith, length-encode es, length-append e.body (encode es))

parse_at :
    (id n : ℕ) (rest tail : List ℕ) (es : List Element)
    → n ≤ length rest
    → Parsed (drop n rest) es tail
    → Parsed (id ∷ n ∷ rest) (record { id = id; body = take n rest } ∷ es) tail
unfolding encode
parse_at id n rest tail es h p = record {
  split =
      rw (length-take n rest h, append_assoc (take n rest) (encode es) tail)
        (rw⁻¹ p.split (rw (append-take-drop n rest) refl));
  cut = p.cut;
}

-- Every block of bytes is a sequence of whole elements and a rest that is none.
pub parse :
    (fuel : ℕ) (ies : List ℕ)
    → length ies < fuel
    → (es : List Element) × (tail : List ℕ) × Parsed ies es tail
unfolding encode
parse zero ies h = absurd (omega arith)
parse (suc fuel) [] h = ([], [], record { split = refl; cut = tt })
parse (suc fuel) (id ∷ []) h = ([], id ∷ [], record { split = refl; cut = tt })
parse (suc fuel) (id ∷ n ∷ rest) h = elim (Bool-cases (ltb (length rest) n)) [
  | inl c ↦ ([], id ∷ n ∷ rest, record { split = refl; cut = ground arith })
  | inr c ↦
      let (es, tail, p) = parse fuel (drop n rest) (omega (arith, length-drop n rest)) in
      (
        record { id = id; body = take n rest } ∷ es,
        tail,
        parse_at id n rest tail es (ground arith) p,
      )
]

-- `lcompat_ieee80211_find_ie` returns the first whole element with the identifier, or NULL if there is
-- none, and `lcompat_ieee80211_bss_has_wmm` tells whether a whole element is a WMM element.
pub find_ie-encode :
    (es : List Element) (tail : List ℕ) (eid : ℕ)
    → IsCut tail
    → (find_ie (encode es ++ tail) eid ≡ first_body eid es)
      × (bss_has_wmm (encode es ++ tail) ≡ some_wmm es)
unfolding find_ie bss_has_wmm
find_ie-encode es tail eid c =
    let short : length es < suc (length (encode es ++ tail)) =
      omega (arith, length-encode es, length-append (encode es) tail) in
    (
      find_loop-first (suc (length (encode es ++ tail))) es tail eid c short,
      wmm_loop-some (suc (length (encode es ++ tail))) es tail c short,
    )

-- Every block of bytes is a sequence of whole elements and a rest that is no whole element, and on it
-- `lcompat_ieee80211_find_ie` returns the first of those elements with the identifier, or NULL if there
-- is none, and `lcompat_ieee80211_bss_has_wmm` tells whether one of them is a WMM element.
pub find_ie-Parsed :
    (ies : List ℕ)
    → (es : List Element) × (tail : List ℕ) × Parsed ies es tail
      × ((eid : ℕ) → find_ie ies eid ≡ first_body eid es)
      × (bss_has_wmm ies ≡ some_wmm es)
find_ie-Parsed ies =
    let (es, tail, p) = parse (suc (length ies)) ies (omega arith) in
    (
      es,
      tail,
      p,
      (λ eid. ap (λ (bs : List ℕ). find_ie bs eid) p.split ∙ (find_ie-encode es tail eid p.cut).0),
      ap bss_has_wmm p.split ∙ (find_ie-encode es tail 0 p.cut).1,
    )
