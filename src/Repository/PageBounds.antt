-- ===== src/Repository/PageBounds.antt =====
-- The numbers of a page of repository/page.go.
use ais_pkg.Prelude.{
  ℕ, ◌+◌, ◌-◌, ◌*◌, ◌%◌, ◌^◌, ◌<◌, ◌≤◌, ◌≡◌, ◌⊎◌, inl, inr, Bool-cases, ap, arith, Bool, true,
  false, ltb, if◌then◌else◌,
}
use ais_pkg.Prelude.Int.{ℤ, pos, negsuc}
use ais_pkg.Repository.FloatBounds.{float64-small, ceil_quotient-exact}
use ais_pkg.Repository.Pages.{
  max_page_size, page_of, limit_size, page_size_of, int64, offset_of, pages_of,
}

page_positive : (p : ℤ) → 1 ≤ page_of p
page_positive (negsuc n) = omega arith
page_positive (pos n) = ground arith

limited : (n : ℕ) → 1 ≤ n → (1 ≤ limit_size n) × (limit_size n ≤ max_page_size)
limited n h = (ground arith, ground arith)

size_limited : (s : ℤ) → (1 ≤ page_size_of s) × (page_size_of s ≤ max_page_size)
size_limited (negsuc n) = (omega arith, omega arith)
size_limited (pos n) = limited (if ltb n 1 then 10 else n) (ground arith)

same_remainder : (n : ℕ) → n < 2 ^ 63 → n % 2 ^ 64 ≡ n
same_remainder n h = omega arith

chosen : (b : Bool) (m k : ℕ) (x : ℤ) → b ≡ true → m ≡ k → (if b then pos m else x) ≡ pos k
chosen true m k x e h = ap pos h
chosen false m k x e h = absurd (cc)

int64_small : (n : ℕ) → n < 2 ^ 63 → int64 n ≡ pos n
int64_small n h =
    chosen (ltb (n % 2 ^ 64) (2 ^ 63)) (n % 2 ^ 64) n _ (below (n % 2 ^ 64) (same_remainder n h))
      (same_remainder n h)
  where
    below : (m : ℕ) → m ≡ n → ltb m (2 ^ 63) ≡ true
    below m e = ground arith

pages_enough :
    (total size : ℕ)
    → 1 ≤ size
    → size ≤ max_page_size
    → total < 2 ^ 46
    → (total ≤ size * pages_of total size) × (size * pages_of total size < total + size)
unfolding pages_of
pages_enough total size positive limit small =
    rw (positive_test size positive, float64-small total (omega arith))
      (ceil_quotient-exact total size positive limit small)
  where
    positive_test : (n : ℕ) → 1 ≤ n → ltb 0 n ≡ true
    positive_test n h = ground arith

offset_exact : (n : ℕ) → (2 ^ 63 ≤ n) ⊎ (int64 n ≡ pos n)
offset_exact n = elim (Bool-cases (ltb n (2 ^ 63))) [
  | inl e ↦ inr (int64_small n (ground arith))
  | inr e ↦ inl (ground arith)
]

-- For a total below 2^46, whatever page and size a client asks for: the page is at least 1, its size
-- between 1 and 100, as many pages of this size as the float64 division gives hold all the records
-- with less than one page to spare, and the offset is (page - 1) * size unless this is 2^63 or more.
pub page_bounds :
    (page size : ℤ) (total : ℕ)
    → total < 2 ^ 46
    → (1 ≤ page_of page)
      × (1 ≤ page_size_of size)
      × (page_size_of size ≤ max_page_size)
      × (total ≤ page_size_of size * pages_of total (page_size_of size))
      × (page_size_of size * pages_of total (page_size_of size) < total + page_size_of size)
      × ((2 ^ 63 ≤ (page_of page - 1) * page_size_of size)
          ⊎ (offset_of (page_of page) (page_size_of size)
              ≡ pos ((page_of page - 1) * page_size_of size)))
page_bounds page size total few =
    let (positive, small) = size_limited size in
    let (enough, spare) = pages_enough total (page_size_of size) positive small few in
    (
      page_positive page,
      positive,
      small,
      enough,
      spare,
      offset_exact ((page_of page - 1) * page_size_of size),
    )
