-- ===== src/HttpClient/Pages.antt =====
-- `resolveURL` and `Paginate` of internal/connector/httpclient.go. What is outside is a parameter:
-- the parser of URLs, the request that the library makes of one, the network, and the decoder of
-- JSON. The full URL has a host, so that `Do` takes it as it is.
use Prim.Native.String.{len}
use text.Mathlib.Text.{starts_with}
use network_digital_twin_pla.Prelude.{
  ℕ, zero, suc, Bool, not, ◌&&◌, String, ◌<>◌, List, [], ◌∷◌, Option, none, some, Result, ok, err,
  leb, if◌then◌else◌, ◌==◌,
}
use network_digital_twin_pla.Value.{Props}
use network_digital_twin_pla.Text.{decimal}
use network_digital_twin_pla.HttpClient.{
  Returned, response, failure, nothing, HttpError, Network, do_request,
}

-- `none` is a panic: the slice of the first four bytes of a shorter text.
unfoldable pub resolve_url : (String → Bool) → String → String → Option String
resolve_url is_url base_url raw_url =
    if base_url == ""
    then some raw_url
    else if is_url raw_url && not (raw_url == "")
    then if leb 4 (len raw_url)
      then some (if starts_with raw_url "http" then raw_url else base_url <> raw_url)
      else none
    else some (base_url <> raw_url)

pub record PageResult : Type 0 where
  pub results : List Props
  pub next : String
  pub count : ℕ

pub record Web (E : Type 0) : Type 0 where
  pub is_url : String → Bool
  pub new_request : String → Option E
  pub network : String → Network E
  pub decode : String → Option PageResult

pub data Ended (E : Type 0) : Type 0 where
  finished panicked : Ended E
  request_error : E → Ended E
  page_error : HttpError E → Ended E
  decode_error : String → Ended E
  callback_error : E → Ended E

module _ {E : Type 0} (web : Web E) (base_url : String) where
  -- `json.NewDecoder(resp.Body).Decode`, of whatever `Do` returned.
  unfoldable pub read_page : String → Returned E → Result (Ended E) PageResult
  read_page full_url (response resp) = elim (web.decode resp.body) [
    | none ↦ err (decode_error full_url)
    | some page ↦ ok page
  ]
  read_page full_url (failure e) = err (page_error e)
  read_page full_url nothing = err panicked

  -- The page at a URL.
  unfoldable pub get_page : String → Result (Ended E) PageResult
  get_page next_url = elim (resolve_url web.is_url base_url next_url) [
    | none ↦ err panicked
    | some full_url ↦ elim (web.new_request full_url) [
      | some e ↦ err (request_error e)
      | none ↦ read_page full_url (do_request (web.network full_url))
    ]
  ]

module _ {E S : Type 0} (web : Web E) (base_url : String)
    (callback : List Props → S → Option E × S) where
  -- The callback sees no empty page.
  unfoldable pub call_back : List Props → S → Option E × S
  call_back [] s = (none, s)
  call_back (row ∷ rows) s = callback (row ∷ rows) s

  -- The loop; `none` is out of fuel.
  unfoldable pub page_loop : ℕ → String → S → Option (Ended E × S)
  page_loop zero next_url s = none
  page_loop (suc fuel) next_url s =
      if next_url == "" then some (finished, s) else (elim (get_page web base_url next_url) [
        | err e ↦ some (e, s)
        | ok page ↦
            let (failed, t) = call_back page.results s in
            elim failed [ some e ↦ some (callback_error e, t) | none ↦ page_loop fuel page.next t ]
      ])

  unfoldable pub paginate : ℕ → String → ℕ → S → Option (Ended E × S)
  paginate fuel path page_size s = page_loop fuel (path <> "?limit=" <> decimal page_size) s
