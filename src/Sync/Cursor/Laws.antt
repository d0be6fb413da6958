-- ===== src/Sync/Cursor/Laws.antt =====
-- What the page counter of src/sync/page-counter-cursor.ts guarantees.
use github_for_jira.Base.{
  ℕ, ◌+◌, ◌-◌, ◌*◌, ◌/◌, ◌≤◌, ◌<◌, ◌≡◌, refl, inl, inr, arith, ◌==◌, Bool-cases, ==_iff,
}
use native.Mathlib.Nat.{div-add-mod', mod-lt}
use github_for_jira.Sync.Cursor.{
  PageSizeAwareCounterCursor, new_cursor, scale, copy_with_page_no, serialise,
}

-- The number of items before the page that the cursor points to.
abbrev pub processed : PageSizeAwareCounterCursor → ℕ
processed c = (c.page_no - 1) * c.per_page

floor_bounds : (x n : ℕ) → 0 < n → ((x / n + 1 - 1) * n ≤ x) × (x < (x / n + 1 - 1) * n + n)
floor_bounds x n h =
    let e : x / n + 1 - 1 ≡ x / n = omega arith in
    let d = div-add-mod' x n in
    let m = mod-lt x h in rw e (omega (arith, d, m), omega (arith, d, m))

-- Scaling a cursor to a new page size skips no item and repeats less than one new page: the items
-- before the new page are all processed ones, and the new page ends behind the last of them. The
-- cursor has the new page size and points to page 1 or later.
pub scale-keeps_place :
    (c : PageSizeAwareCounterCursor) (new_per_page : ℕ)
    → 0 < new_per_page
    → 0 < c.page_no
    → (processed (scale new_per_page c) ≤ processed c)
      × (processed c < processed (scale new_per_page c) + new_per_page)
      × ((scale new_per_page c).per_page ≡ new_per_page)
      × (0 < (scale new_per_page c).page_no)
unfolding scale
scale-keeps_place c n h k = elim (Bool-cases (c.per_page == n)) [
  | inl same ↦ rw same (omega arith, omega (arith, h), (==_iff c.per_page n).0 same, k)
  | inr other ↦
      let (low, high) = floor_bounds (processed c) n h in rw other (low, high, refl, omega arith)
]

-- A cursor that is stored and read back, at a new page size, is scaled as if it had been kept.
pub new_cursor-serialise :
    (c : PageSizeAwareCounterCursor) (n page_no : ℕ)
    → scale n (new_cursor (serialise (copy_with_page_no page_no c)))
      ≡ scale n (record c { page_no = page_no })
unfolding new_cursor serialise copy_with_page_no
new_cursor-serialise c n page_no = refl

-- Scaling twice to one page size is scaling once.
pub scale_idem : (c : PageSizeAwareCounterCursor) (n : ℕ) → scale n (scale n c) ≡ scale n c
unfolding scale
scale_idem c n = ground arith
