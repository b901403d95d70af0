-- ===== src/Listing.antt =====
-- Paginated listings, as the chat and moderation services answer them (`ChatMessageListMeta`,
-- `PaginationMeta`), and what a client reads from them.
use di_wei_wei_nano_market.Prelude.{
  ℕ, ◌+◌, ◌-◌, ◌/◌, ◌<◌, ◌≡◌, ◌∙◌, ap, refl, zero, suc, Bool, List, [], ◌++◌, map, ltb,
  if◌then◌else◌, length, arith,
}
use di_wei_wei_nano_market.Prelude.Pages.{page_of, first_pages, first_pages_all}

pub record Listing (A : Type 0) : Type 0 where
  pub items : List A
  pub total_results : ℕ
  pub current_page : ℕ
  pub page_size : ℕ
  pub total_pages : ℕ
  pub has_next_page : Bool
  pub has_prev_page : Bool

-- `(total_results + limit - 1) // limit if limit > 0 else 1`
abbrev pub total_pages_of : ℕ → ℕ → ℕ
total_pages_of total limit = if ltb 0 limit then (total + limit - 1) / limit else 1

unfoldable pub listing : {A B : Type 0} → (A → B) → List A → ℕ → ℕ → Listing B
listing to_item rows page limit = record {
  items = map to_item (page_of page limit rows);
  total_results = length rows;
  current_page = page;
  page_size = limit;
  total_pages = total_pages_of (length rows) limit;
  has_next_page = ltb page (total_pages_of (length rows) limit);
  has_prev_page = ltb 1 page;
}

-- The items of the first `n` pages, one after the other.
abbrev pub read_pages : {A : Type 0} → (ℕ → List A) → ℕ → List A
read_pages page zero = []
read_pages page (suc n) = read_pages page n ++ page (suc n)

read_pages-first_pages :
    {A : Type 0} (page : ℕ → List A) (limit : ℕ) (rows : List A) (n : ℕ)
    → ((k : ℕ) → page k ≡ page_of k limit rows)
    → read_pages page n ≡ first_pages n limit rows
unfolding first_pages
read_pages-first_pages page limit rows zero h = refl
read_pages-first_pages page limit rows (suc n) h =
    rw (read_pages-first_pages page limit rows n h, h (suc n)) refl

-- Whoever reads as many pages as a listing tells has read all its rows, once and in order.
pub read_pages_all :
    {A : Type 0} (page : ℕ → List A) (limit : ℕ) (rows : List A)
    → 0 < limit
    → ((k : ℕ) → page k ≡ page_of k limit rows)
    → read_pages page (total_pages_of (length rows) limit) ≡ rows
read_pages_all page limit rows pos h =
    let total : total_pages_of (length rows) limit ≡ (length rows + limit - 1) / limit =
      ground arith in
    read_pages-first_pages page limit rows (total_pages_of (length rows) limit) h
    ∙ ap (λ n. first_pages n limit rows) total
    ∙ first_pages_all limit rows pos
