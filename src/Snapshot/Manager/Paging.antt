-- ===== src/Snapshot/Manager/Paging.antt =====
-- The loops of `Create` over the pages of a query take in all of its rows.
use network_digital_twin_pla.Prelude.{
  ℕ, zero, suc, ◌+◌, ◌*◌, ◌<◌, ◌≤◌, ◌≡◌, refl, ◌∙◌, inl, inr, true, false, List, [], ◌∷◌, ◌++◌,
  some, Result, ok, length, take, drop, length-take, length-drop, drop-drop, ltb, arith, Bool-cases,
  ap, sym,
}
use network_digital_twin_pla.Value.{Props}
use network_digital_twin_pla.Snapshot.Manager.{page_size, pages}

take-short {ℓ} : {A : Type ℓ} (n : ℕ) (xs : List A) → length xs < n → take n xs ≡ xs
take-short zero xs h = absurd (omega arith)
take-short (suc n) [] h = refl
take-short (suc n) (x ∷ xs) h = ap (λ l. x ∷ l) (take-short n xs (omega arith))

take-drop {ℓ} : {A : Type ℓ} (n : ℕ) (xs : List A) → take n xs ++ drop n xs ≡ xs
take-drop zero xs = refl
take-drop (suc n) [] = refl
take-drop (suc n) (x ∷ xs) = ap (λ l. x ∷ l) (take-drop n xs)

less_of : (a b : ℕ) → ltb a b ≡ true → a < b
less_of a b h = ground arith

not_less_of : (a b : ℕ) → ltb a b ≡ false → b ≤ a
not_less_of a b h = ground arith

module _ {ℓ} {E : Type 0} {A : Type ℓ} (fetch : ℕ → Result E (List Props))
    (keep : List Props → List A) (rows : List Props) where
  -- Where the pages are those of one list of rows, and `keep` may be applied piece by piece, the
  -- loop ends, once its fuel is more than the pages that are full, with what `keep` makes of all
  -- rows.
  pub pages-all :
      ((skip : ℕ) → fetch skip ≡ ok (take page_size (drop skip rows)))
      → ((xs ys : List Props) → keep (xs ++ ys) ≡ keep xs ++ keep ys)
      → (f skip : ℕ) → length (drop skip rows) < f * page_size
      → pages fetch keep f skip ≡ some (ok (keep (drop skip rows)))
  unfolding pages
  pages-all paged split zero skip fuel = absurd (omega arith)
  pages-all paged split (suc f) skip fuel =
      elim (Bool-cases (ltb (length (drop skip rows)) page_size)) [
        | inl short ↦
            let all : take page_size (drop skip rows) ≡ drop skip rows =
              take-short page_size (drop skip rows)
                (less_of (length (drop skip rows)) page_size short) in
            rw (paged skip, all, short, pages) refl
        | inr full ↦
            let big : page_size ≤ length (drop skip rows) =
              not_less_of (length (drop skip rows)) page_size full in
            let size : length (take page_size (drop skip rows)) ≡ page_size =
              length-take page_size (drop skip rows) big in
            let more : ltb (length (take page_size (drop skip rows))) page_size ≡ false =
              rw size refl in
            let next : length (drop (skip + page_size) rows) < f * page_size =
              omega
                (arith, length-drop skip rows, length-drop (skip + page_size) rows, big, fuel) in
            let rest = pages-all paged split f (skip + page_size) next in
            let turn : page_size + skip ≡ skip + page_size = omega arith in
            let whole : take page_size (drop skip rows) ++ drop (skip + page_size) rows
                ≡ drop skip rows =
              ap (λ l. take page_size (drop skip rows) ++ l)
                (sym (drop-drop page_size skip rows ∙ ap (λ n. drop n rows) turn))
              ∙ take-drop page_size (drop skip rows) in
            rw (paged skip, more, rest, pages)
              (ap (λ l. some (ok l))
                (sym (split (take page_size (drop skip rows)) (drop (skip + page_size) rows))
                  ∙ ap keep whole))
      ]
