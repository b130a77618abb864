-- ===== src/HttpClient/Paging.antt =====
-- `Paginate` hands on the rows of all pages.
use mathlib.Core.List.{append_assoc, append-nil}
use network_digital_twin_pla.Prelude.{
  ℕ, zero, suc, ◌<◌, ◌≡◌, ◌≢◌, refl, ◌∙◌, ap, sym, String, true, false, ◌<>◌, List, [], ◌∷◌, ◌++◌,
  Option, none, some, ok, err, length, arith, ◌==◌, String-discrete,
}
use network_digital_twin_pla.Value.{Props}
use network_digital_twin_pla.Text.{decimal}
use network_digital_twin_pla.HttpClient.Pages.{
  PageResult, Web, Ended, finished, get_page, call_back, page_loop, paginate,
}

abbrev pub rows_of : List PageResult → List Props
rows_of [] = []
rows_of (page ∷ pages) = page.results ++ rows_of pages

module _ {E : Type 0} (web : Web E) (base_url : String) where
  -- The pages that lead from a URL by their field `next`, up to one that names no further page, or
  -- to a URL whose page cannot be had.
  pub data Chain : String → List PageResult → Ended E → Type 0 where
    over : Chain "" [] finished
    broken :
        {url : String} {e : Ended E} → url ≢ "" → get_page web base_url url ≡ err e → Chain url [] e
    link :
        {url : String} {page : PageResult} {pages : List PageResult} {e : Ended E}
        → url ≢ ""
        → get_page web base_url url ≡ ok page
        → Chain page.next pages e
        → Chain url (page ∷ pages) e

differs : (s : String) → s ≢ "" → (s == "") ≡ false
differs s ne = ground arith

same : ("" == "") ≡ true
unfolding String-discrete
same = refl

module _ {E : Type 0} (web : Web E) (base_url : String)
    (callback : List Props → List Props → Option E × List Props)
    (collects : (rows s : List Props) → callback rows s ≡ (none, s ++ rows)) where
  call_back-collects :
      (rows s : List Props) → call_back web base_url callback rows s ≡ (none, s ++ rows)
  unfolding call_back
  call_back-collects [] s = ap (λ l. (none, l)) (sym (append-nil s))
  call_back-collects (row ∷ rows) s = collects (row ∷ rows) s

  page_loop-Chain :
      (fuel : ℕ) (url : String) (pages : List PageResult) (e : Ended E) (s : List Props)
      → Chain web base_url url pages e
      → length pages < fuel
      → page_loop web base_url callback fuel url s ≡ some (e, s ++ rows_of pages)
  unfolding page_loop
  page_loop-Chain zero url pages e s c enough = absurd (omega arith)
  page_loop-Chain (suc fuel) url [] e s over enough =
      rw (page_loop, same) (ap (λ l. some (finished, l)) (sym (append-nil s)))
  page_loop-Chain (suc fuel) url [] e s (broken some_url fails) enough =
      rw (differs url some_url, fails) (ap (λ l. some (e, l)) (sym (append-nil s)))
  page_loop-Chain (suc fuel) url (page ∷ pages) e s (link some_url found more) enough =
      let kept = call_back-collects page.results s in
      let later = page_loop-Chain fuel page.next pages e (s ++ page.results) more (omega arith) in
      rw (differs url some_url, found, kept, ap (λ (x : Option E × List Props). x.1) kept)
        (later ∙ ap (λ l. some (e, l)) (append_assoc s page.results (rows_of pages)))

  -- Where the callback collects what it gets, `Paginate`, with a fuel above the number of pages,
  -- hands on all rows of the pages in their order, and ends as their chain does: with success after a
  -- page that names no further one, or else with the error that kept the next page away.
  pub paginate-Chain :
      (fuel : ℕ) (path : String) (page_size : ℕ) (pages : List PageResult) (e : Ended E)
      (s : List Props)
      → Chain web base_url (path <> "?limit=" <> decimal page_size) pages e
      → length pages < fuel
      → paginate web base_url callback fuel path page_size s ≡ some (e, s ++ rows_of pages)
  unfolding paginate
  paginate-Chain fuel path page_size pages e s c enough = page_loop-Chain fuel _ pages e s c enough
