-- ===== src/Tests/Pages.antt =====
-- Tests of `Paginate`: two pages, of which the second is refused with a status that the loop does
-- not look at.
use network_digital_twin_pla.Prelude.{
  ◌≡◌, refl, String, ◌<>◌, true, false, List, [], ◌∷◌, ◌++◌, Option, none, some, ok, arith, ◌==◌,
  String-discrete, if◌then◌else◌,
}
use network_digital_twin_pla.Text.{decimal}
use network_digital_twin_pla.Value.{Props, str}
use network_digital_twin_pla.HttpClient.{
  Network, do_request, back_off, judge, try_once, attempts, max_retries,
}
use network_digital_twin_pla.HttpClient.Pages.{
  PageResult, Web, finished, get_page, read_page, resolve_url, paginate,
}
use network_digital_twin_pla.HttpClient.Paging.{Chain, over, link, paginate-Chain}
use network_digital_twin_pla.Tests.{ne_of_test}

abbrev first_page : PageResult
first_page = record {
  results = (("name", str "core-1") ∷ []) ∷ [];
  next = "http://box/devices?offset=1";
  count = 2;
}

-- What the decoder makes of an object that has none of the fields.
abbrev no_page : PageResult
no_page = record { results = []; next = ""; count = 0 }

abbrev box : String → Network String
box url = record {
  done = λ attempt delay. none;
  wait = λ attempt. none;
  send = λ attempt.
      if url == "http://box/devices?limit=1"
      then ok (record { status_code = 200; body = "first" })
      else ok (record { status_code = 403; body = "{\"detail\": \"token expired\"}" });
  is_context_error = λ e. false;
}

abbrev web : Web String
web = record {
  is_url = λ url. true;
  new_request = λ url. none;
  network = box;
  decode = λ body. some (if body == "first" then first_page else no_page);
}

abbrev collect : List Props → List Props → Option String × List Props
collect rows s = (none, s ++ rows)

first_found : get_page web "http://box" "/devices?limit=1" ≡ ok first_page
unfolding get_page read_page resolve_url do_request attempts try_once judge back_off max_retries
    String-discrete
first_found = refl

second_found : get_page web "http://box" "http://box/devices?offset=1" ≡ ok no_page
unfolding get_page read_page resolve_url do_request attempts try_once judge back_off max_retries
    String-discrete
second_found = refl

box-Chain :
    Chain web "http://box"
      ("/devices" <> "?limit=" <> decimal 1)
      (first_page ∷ no_page ∷ [])
      finished
unfolding decimal String-discrete
box-Chain = link (ne_of_test _ "" refl) first_found (link (ne_of_test _ "" refl) second_found over)

-- The refused page ends the list with success.
paginate-Chain_example :
    paginate web "http://box" collect 3 "/devices" 1 []
    ≡ some (finished, (("name", str "core-1") ∷ []) ∷ [])
paginate-Chain_example =
    paginate-Chain web "http://box" collect (λ rows s. refl) 3 "/devices" 1
      (first_page ∷ no_page ∷ []) finished [] box-Chain (omega arith)

-- A text of three bytes that parses as a URL panics.
resolve_url_test : resolve_url (λ url. true) "http://box" "/vm" ≡ none
unfolding resolve_url String-discrete
resolve_url_test = refl
