-- ===== src/Controller/Client/Vpns.antt =====
-- `paginateVPN` reads all pages of a list of VPNs.
use mathlib.Core.List.{append_assoc, append-nil}
use mathlib.Core.Path.{subst}
use network_digital_twin_pla.Prelude.{
  ℕ, zero, suc, ◌+◌, ◌-◌, ◌<◌, ◌≡◌, ◌∙◌, sym, ap, true, false, String, List, [], ◌++◌, Option, some,
  ok, length, leb, eqb, arith,
}
use network_digital_twin_pla.Value.{Props, Fields}
use network_digital_twin_pla.HttpClient.{Returned}
use network_digital_twin_pla.Controller.Client.{VpnPage, vpn_page, paginate_vpn, flatten_vpn_items}

module _ (contents : ℕ → List Props) where
  -- The items of the pages from `index` on, `n` of them.
  abbrev pub items_from : ℕ → ℕ → List Fields
  items_from zero index = []
  items_from (suc n) index = flatten_vpn_items (contents index) ++ items_from n (suc index)

module _ {E : Type 0} (get : String → Returned E) (decode : String → Option VpnPage)
    (base_url : String) (contents : ℕ → List Props) (total : ℕ) where
  -- The pages are those of one list: the pages before `total` are there and not empty.
  pub record IsListed : Type 0 where
    pub page :
        (index : ℕ)
        → index < total
        → vpn_page get decode base_url index
          ≡ ok (record { total_pages = total; content = contents index })
    pub not_empty : (index : ℕ) → index < total → 0 < length (contents index)

  paginate_vpn-items :
      (n index : ℕ) (all_items : List Fields)
      → IsListed
      → index + suc n ≡ total
      → paginate_vpn get decode (suc n) base_url index all_items
        ≡ some (ok (all_items ++ items_from contents (suc n) index))
  unfolding paginate_vpn
  paginate_vpn-items zero index all_items h e =
      let done : leb total (suc index) ≡ true = ground arith in
      rw (paginate_vpn, h.page index (omega arith), done)
        (ap (λ l. some (ok (all_items ++ l)))
          (sym (append-nil (flatten_vpn_items (contents index)))))
  paginate_vpn-items (suc n) index all_items h e =
      let more : leb total (suc index) ≡ false = ground arith in
      let some_content : eqb (length (contents index)) 0 ≡ false =
        ground (arith, h.not_empty index (omega arith)) in
      let items = flatten_vpn_items (contents index) in
      rw (paginate_vpn, h.page index (omega arith), more, some_content)
        (paginate_vpn-items n (suc index) (all_items ++ items) h (omega arith)
          ∙ ap (λ l. some (ok l))
              (append_assoc all_items items (items_from contents (suc n) (suc index))))

  -- Where the pages are those of one list of at least one page, none of them empty, and the fuel is their
  -- number, the loop ends with the services of all pages in their order.
  pub paginate_vpn-IsListed :
      IsListed
      → 0 < total
      → paginate_vpn get decode total base_url 0 [] ≡ some (ok (items_from contents total 0))
  paginate_vpn-IsListed h positive =
      let e : total ≡ suc (total - 1) = omega arith in
      subst
        (λ fuel.
          paginate_vpn get decode fuel base_url 0 [] ≡ some (ok (items_from contents fuel 0)))
        (sym e) (paginate_vpn-items (total - 1) 0 [] h (omega arith))
