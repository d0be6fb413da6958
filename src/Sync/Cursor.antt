-- ===== src/Sync/Cursor.antt =====
-- src/sync/page-counter-cursor.ts: the cursor of the counter-based pagination, which keeps its
-- place when the page size changes.
pub mod Laws
use github_for_jira.Base.{ℕ, ◌+◌, ◌-◌, ◌*◌, ◌/◌, ◌<◌, ◌==◌, if◌then◌else◌}

abbrev pub legacy_page_size : ℕ
legacy_page_size = 20

pub record PageSizeAwareCounterCursor : Type 0 where
  pub per_page : ℕ
  pub page_no : ℕ

-- The text that the constructor is given, read: missing or empty, a number other than 0, or the
-- JSON of a cursor. (The texts "0" and other JSON, which `serialise` never writes, are left out.)
pub data SerialisedCursor : Type 0 where
  missing : SerialisedCursor
  number : (n : ℕ) → 0 < n → SerialisedCursor
  json : ℕ → ℕ → SerialisedCursor

unfoldable pub new_cursor : SerialisedCursor → PageSizeAwareCounterCursor
new_cursor missing = record { per_page = legacy_page_size; page_no = 1 }
new_cursor (number n h) = record { per_page = legacy_page_size; page_no = n }
new_cursor (json per_page page_no) = record { per_page = per_page; page_no = page_no }

unfoldable pub scale : ℕ → PageSizeAwareCounterCursor → PageSizeAwareCounterCursor
scale new_per_page c =
    if c.per_page == new_per_page
    then c
    else let processed_pages = (c.page_no - 1) * c.per_page in
      let fully_processed_scaled_pages = processed_pages / new_per_page in
      record { per_page = new_per_page; page_no = fully_processed_scaled_pages + 1 }

unfoldable pub copy_with_page_no : ℕ → PageSizeAwareCounterCursor → PageSizeAwareCounterCursor
copy_with_page_no page_no c = record { per_page = c.per_page; page_no = page_no }

unfoldable pub serialise : PageSizeAwareCounterCursor → SerialisedCursor
serialise c = json c.per_page c.page_no
