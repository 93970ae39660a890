-- ===== src/Listing/Pages.antt =====
-- PaginateList of pkg/stores/partition/listprocessor/processor.go.
pub mod Tiles
use steve.Common.{
  ℕ, zero, suc, ◌+◌, ◌-◌, ◌*◌, ◌/◌, ◌%◌, ◌^◌, List, [], ◌∷◌, length, ltb, eqb, if◌then◌else◌, Bool,
  true, false, arith,
}
use steve.Common.Numbers.{ℤ, pos, negsuc, int64}
use steve.Common.Indices.{take, drop}

pub record Pagination : Type 0 where
  pub page_size : ℤ
  pub page : ℤ

-- The part of the list with the number of pages; `crash` is a slice out of range.
pub data Cut {ℓ} (A : Type ℓ) : Type ℓ where
  cut : List A → ℕ → Cut A
  crash : Cut A

-- The page, counted from zero.
abbrev pub page_index : ℤ → ℕ
page_index (negsuc n) = 0
page_index (pos zero) = 0
page_index (pos (suc n)) = n

abbrev pub number_of_pages : ℕ → ℕ → ℕ
number_of_pages size page_size = size / page_size + (if eqb (size % page_size) 0 then 0 else 1)

module _ {ℓ} {A : Type ℓ} where
  -- list[offset:end], where the test found that the end is no greater than the length.
  unfoldable pub slice : List A → ℕ → ℤ → ℕ → Cut A
  slice list offset (negsuc n) pages = crash
  slice list offset (pos end) pages =
      if ltb (length list) end
      then cut (drop offset list) pages
      else if ltb end offset
      then crash
      else cut (take (end - offset) (drop offset list)) pages

  unfoldable pub from_offset : List A → ℕ → ℤ → ℕ → Cut A
  from_offset list page_size (negsuc n) pages = crash
  from_offset list page_size (pos offset) pages =
      if ltb (length list) offset
      then cut [] pages
      else slice list offset (int64 (offset + page_size)) pages

  unfoldable pub paginate_list : List A → Pagination → Cut A
  unfolding slice from_offset
  paginate_list list p = elim p.page_size [
    | negsuc n ↦ cut list 0
    | pos page_size ↦
        if eqb page_size 0
        then cut list 0
        else from_offset list page_size (int64 (page_size * page_index p.page))
            (number_of_pages (length list) page_size)
  ]
