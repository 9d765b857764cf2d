-- ===== src/Backend/Blocks/Pending.antt =====
-- The pages that wait in memory (src/encrypted_store/backend.rs, `stage_pages`): a map from the
-- number of a page to the page, kept in order.
use clove1db.Prelude.{
  ℕ, zero, suc, ◌+◌, ◌-◌, ◌*◌, ◌≤◌, ◌<◌, ◌≡◌, refl, sym, ◌∙◌, ap, inl, inr, false, List, [], ◌∷◌,
  some, length, length-drop, length-take, drop, All, ltb, ltb→lt, ◌==◌, ==_iff, if◌then◌else◌,
  arith, Bool-cases,
}
use mathlib.Core.Path.{subst}
use clove1db.Geometry.{page}
use clove1db.Backend.Blocks.{page_at, pages_from, insert_page, insert_pages}
use clove1db.Backend.Blocks.Written.{AscendFrom, page_at-below}
use clove1db.Backend.Blocks.Sealed.{shown}

page_at-insert_page :
    (k i : ℕ) (p : List ℕ) (list : List (ℕ × List ℕ))
    → page_at k (insert_page i p list) ≡ (if i == k then some p else page_at k list)
unfolding page_at insert_page
page_at-insert_page k i p [] = refl
page_at-insert_page k i p ((j, q) ∷ rest) = elim (Bool-cases (ltb i j)) [
  | inl less ↦ rw less refl
  | inr more ↦ elim (Bool-cases (i == j)) [
    | inl same ↦ rw (more, same) (replaced ((==_iff i j).0 same))
    | inr other ↦ rw (more, other) (passed other (page_at-insert_page k i p rest))
  ]
]
  where
    replaced :
        i ≡ j
        → (if i == k then some p else page_at k rest)
          ≡ (if i == k then some p else if j == k then some q else page_at k rest)
    replaced e = ground (arith, e)

    passed :
        (i == j) ≡ false
        → page_at k (insert_page i p rest) ≡ (if i == k then some p else page_at k rest)
        → (if j == k then some q else page_at k (insert_page i p rest))
          ≡ (if i == k then some p else if j == k then some q else page_at k rest)
    passed d ih = rw ih (ground (arith, d))

-- A map without a page, and with one put in.
pub page_at-insert_pages :
    (n k : ℕ) (pages pending : List (ℕ × List ℕ))
    → AscendFrom n pages
    → page_at k (insert_pages pages pending) ≡ shown (page_at k pages) (page_at k pending)
unfolding page_at insert_pages AscendFrom
page_at-insert_pages n k [] pending a = refl
page_at-insert_pages n k ((i, p) ∷ pages) pending a =
    page_at-insert_pages (suc i) k pages (insert_page i p pending) a.1
    ∙ ap (shown (page_at k pages)) (page_at-insert_page k i p pending)
    ∙ last
  where
    last :
        shown (page_at k pages) (if i == k then some p else page_at k pending)
        ≡ shown (if i == k then some p else page_at k pages) (page_at k pending)
    last = elim (Bool-cases (i == k)) [
      | inl s ↦
          let e : k < suc i = omega (arith, (==_iff i k).0 s) in
          rw (s, page_at-below (suc i) k pages a.1 e) refl
      | inr d ↦ rw d refl
    ]

AscendFrom-insert_page :
    (n i : ℕ) (p : List ℕ) (list : List (ℕ × List ℕ))
    → n ≤ i
    → AscendFrom n list
    → AscendFrom n (insert_page i p list)
unfolding AscendFrom insert_page
AscendFrom-insert_page n i p [] l a = (l, tt)
AscendFrom-insert_page n i p ((j, q) ∷ rest) l a = elim (Bool-cases (ltb i j)) [
  | inl less ↦ rw less (l, (ltb→lt i j less, a.1))
  | inr more ↦ elim (Bool-cases (i == j)) [
    | inl same ↦
        rw (more, same) (l, subst (λ m. AscendFrom (suc m) rest) (sym ((==_iff i j).0 same)) a.1)
    | inr other ↦
        rw (more, other) (a.0, AscendFrom-insert_page (suc j) i p rest (between more other) a.1)
  ]
]
  where
    between : ltb i j ≡ false → (i == j) ≡ false → suc j ≤ i
    between more other = ground arith

pub AscendFrom-insert_pages :
    (n : ℕ) (pages pending : List (ℕ × List ℕ))
    → AscendFrom n pages
    → AscendFrom 0 pending
    → AscendFrom 0 (insert_pages pages pending)
unfolding AscendFrom insert_pages
AscendFrom-insert_pages n [] pending a h = h
AscendFrom-insert_pages n ((i, p) ∷ pages) pending a h =
    AscendFrom-insert_pages (suc i) pages (insert_page i p pending) a.1
      (AscendFrom-insert_page 0 i p pending (omega arith) h)

All-insert_page :
    (P : ℕ × List ℕ → Type 0) (i : ℕ) (p : List ℕ) (list : List (ℕ × List ℕ))
    → P (i, p)
    → All P list
    → All P (insert_page i p list)
unfolding insert_page
All-insert_page P i p [] h a = (h, tt)
All-insert_page P i p ((j, q) ∷ rest) h a = elim (Bool-cases (ltb i j)) [
  | inl less ↦ rw less (h, a)
  | inr more ↦ elim (Bool-cases (i == j)) [
    | inl same ↦ rw (more, same) (h, a.1)
    | inr other ↦ rw (more, other) (a.0, All-insert_page P i p rest h a.1)
  ]
]

pub All-insert_pages :
    (P : ℕ × List ℕ → Type 0) (pages pending : List (ℕ × List ℕ))
    → All P pages
    → All P pending
    → All P (insert_pages pages pending)
unfolding insert_pages
All-insert_pages P [] pending h a = a
All-insert_pages P ((i, p) ∷ pages) pending h a =
    All-insert_pages P pages (insert_page i p pending) h.1 (All-insert_page P i p pending h.0 a)

-- The pages of a write.
pub pages_from-AscendFrom :
    (first count : ℕ) (plain : List ℕ) → AscendFrom first (pages_from first count plain)
unfolding AscendFrom pages_from
pages_from-AscendFrom first zero plain = tt
pages_from-AscendFrom first (suc count) plain =
    (omega arith, pages_from-AscendFrom (suc first) count (drop page plain))

pub pages_from-All :
    (first count bound : ℕ) (plain : List ℕ)
    → first + count ≤ bound
    → All (λ e. e.0 < bound) (pages_from first count plain)
unfolding pages_from
pages_from-All first zero bound plain h = tt
pages_from-All first (suc count) bound plain h =
    (omega (arith, h), pages_from-All (suc first) count bound (drop page plain) (omega (arith, h)))

pub length-pages_from :
    (first count : ℕ) (plain : List ℕ)
    → count * page ≤ length plain
    → All (λ e. length e.1 ≡ page) (pages_from first count plain)
unfolding pages_from
length-pages_from first zero plain h = tt
length-pages_from first (suc count) plain h = (
  length-take page plain (omega (arith, h)),
  length-pages_from (suc first) count (drop page plain) (fewer (length-drop page plain)),
)
  where
    fewer : {n : ℕ} → n ≡ length plain - page → count * page ≤ n
    fewer e = omega (arith, h)
