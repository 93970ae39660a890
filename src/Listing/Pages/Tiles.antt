-- ===== src/Listing/Pages/Tiles.antt =====
-- The pages of a list beside the list.
use steve.Common.{
  ℕ, zero, suc, ◌+◌, ◌-◌, ◌*◌, ◌%◌, ◌^◌, ◌≤◌, ◌<◌, ◌≡◌, refl, List, [], ◌++◌, length, ltb, eqb,
  false, arith, ap, ◌∙◌, sym, Bool-cases, inl, inr,
}
use native.Mathlib.Nat.{div-add-mod, mod-lt}
use steve.Common.Numbers.{pos, int64}
use steve.Common.Indices.{take, drop, take_all, drop_all, drop-drop, length-drop, take-add}
use steve.Listing.Pages.{cut, crash, number_of_pages, slice, from_offset, paginate_list}

int64-small : (n : ℕ) → n < 2 ^ 63 → int64 n ≡ pos n
int64-small n h = ground arith

-- The pages hold the list, and the last one is not past it.
pages_cover :
    (size n : ℕ)
    → 0 < size
    → (n ≤ size * number_of_pages n size) × (size * number_of_pages n size < n + size)
pages_cover size n h = elim (Bool-cases (eqb (n % size) 0)) [
  | inl even ↦ rw even (grind (arith, div-add-mod n size, even))
  | inr odd ↦ rw odd (grind (arith, div-add-mod n size, mod-lt n h))
]

module _ {ℓ} {A : Type ℓ} where
  take-nil : (n : ℕ) → take {A = A} n [] ≡ []
  unfolding take
  take-nil zero = refl
  take-nil (suc n) = refl

  slice_page :
      (list : List A) (offset size pages : ℕ)
      → offset ≤ length list
      → slice list offset (pos (offset + size)) pages ≡ cut (take size (drop offset list)) pages
  unfolding slice
  slice_page list offset size pages h =
      let short : length list < offset + size → take size (drop offset list) ≡ drop offset list =
        λ past. take_all size (drop offset list) (omega (arith, length-drop offset list)) in
      let count : offset + size - offset ≡ size = omega arith in
      elim (Bool-cases (ltb (length list) (offset + size))) [
        | inl past ↦ rw past (ap (λ l. cut l pages) (sym (short (ground arith))))
        | inr inside ↦
            let forward : ltb (offset + size) offset ≡ false = ground arith in
            rw (inside, forward, count) refl
      ]

  from_offset_page :
      (list : List A) (offset size pages : ℕ)
      → offset + size < 2 ^ 63
      → from_offset list size (pos offset) pages ≡ cut (take size (drop offset list)) pages
  unfolding from_offset
  from_offset_page list offset size pages small = elim (Bool-cases (ltb (length list) offset)) [
    | inl past ↦ rw (past, drop_all offset list (ground arith), take-nil size) refl
    | inr inside ↦
        rw (inside, int64-small (offset + size) small)
          (slice_page list offset size pages (ground arith))
  ]

  -- A page whose end is in range is the part of the list behind the pages before it.
  pub paginate_page :
      (list : List A) (size k : ℕ)
      → 0 < size
      → size * k + size < 2 ^ 63
      → paginate_list list (record { page_size = pos size; page = pos (suc k) })
        ≡ cut (take size (drop (size * k) list)) (number_of_pages (length list) size)
  unfolding paginate_list
  paginate_page list size k some_size small = rw (int64-small (size * k) (omega arith)) (
      ground
        (arith, from_offset_page list (size * k) size (number_of_pages (length list) size) small))

  -- The pages from one on, so many of them, one behind the other; an empty list stands for a crash.
  unfoldable pub pages_from : ℕ → ℕ → ℕ → List A → List A
  pages_from zero k size list = []
  pages_from (suc n) k size list =
      (elim (paginate_list list (record { page_size = pos size; page = pos (suc k) })) [
        | cut part pages ↦ part
        | crash ↦ []
      ])
      ++ pages_from n (suc k) size list

  pages_from_lem :
      (n k size : ℕ) (list : List A)
      → 0 < size
      → size * k + size * n < 2 ^ 63
      → pages_from n k size list ≡ take (size * n) (drop (size * k) list)
  unfolding pages_from
  pages_from_lem zero k size list some_size small =
      let e : size * 0 ≡ 0 = omega arith in rw e (unfold take in refl)
  pages_from_lem (suc n) k size list some_size small =
      let e : size * suc n ≡ size + size * n = omega arith in
      let f : size * suc k ≡ size * k + size = omega arith in
      rw
        (
          e,
          paginate_page list size k some_size (omega arith),
          pages_from_lem n (suc k) size list some_size (omega arith),
          f,
          ← drop-drop size (size * k) list,
          take-add size (size * n) (drop (size * k) list),
        )
        refl

  -- For a page size above zero that with the length of the list stays below 2 ^ 63, the pages that
  -- PaginateList counts, in order, are the list.
  pub pages_from_all :
      (size : ℕ) (list : List A)
      → 0 < size
      → length list + size < 2 ^ 63
      → pages_from (number_of_pages (length list) size) 0 size list ≡ list
  pages_from_all size list some_size small =
      let pages = number_of_pages (length list) size in
      let e : size * 0 ≡ 0 = omega arith in
      pages_from_lem pages 0 size list some_size
        (omega (arith, pages_cover size (length list) some_size))
      ∙ rw e (
          unfold drop in
          take_all (size * pages) list (omega (arith, pages_cover size (length list) some_size)))
