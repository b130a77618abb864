-- ===== src/Controller/Client/Padding.antt =====
-- The padding can be taken off again, as the controller does it.
use network_digital_twin_pla.Prelude.{
  ℕ, zero, suc, ◌+◌, ◌-◌, ◌%◌, ◌≤◌, ◌<◌, ◌≡◌, refl, ◌∙◌, ap, List, [], ◌∷◌, ◌++◌, length,
  length-append, take, arith,
}
use network_digital_twin_pla.Controller.Client.{repeat_byte, pad}

-- The last byte, 0 for none.
abbrev last_byte : List ℕ → ℕ
last_byte [] = 0
last_byte (b ∷ []) = b
last_byte (b ∷ c ∷ bytes) = last_byte (c ∷ bytes)

-- As many bytes are dropped as the last one says.
abbrev pub unpad : List ℕ → List ℕ
unpad bytes = take (length bytes - last_byte bytes) bytes

length-repeat_byte : (n b : ℕ) → length (repeat_byte n b) ≡ n
unfolding repeat_byte
length-repeat_byte zero b = refl
length-repeat_byte (suc n) b = ap suc (length-repeat_byte n b)

last_byte-repeat_byte : (n b c : ℕ) → last_byte (c ∷ repeat_byte (suc n) b) ≡ b
unfolding repeat_byte
last_byte-repeat_byte zero b c = refl
last_byte-repeat_byte (suc n) b c = last_byte-repeat_byte n b b

last_byte-append : (bytes : List ℕ) (n b : ℕ) → last_byte (bytes ++ repeat_byte (suc n) b) ≡ b
unfolding repeat_byte
last_byte-append [] zero b = refl
last_byte-append [] (suc n) b = last_byte-repeat_byte n b b
last_byte-append (x ∷ []) n b = last_byte-repeat_byte n b x
last_byte-append (x ∷ y ∷ bytes) n b = last_byte-append (y ∷ bytes) n b

take-append : (xs ys : List ℕ) → take (length xs) (xs ++ ys) ≡ xs
take-append [] ys = refl
take-append (x ∷ xs) ys = ap (λ l. x ∷ l) (take-append xs ys)

unpad-append : (bytes : List ℕ) (n : ℕ) → unpad (bytes ++ repeat_byte (suc n) (suc n)) ≡ bytes
unpad-append bytes n =
    let padding = repeat_byte (suc n) (suc n) in
    let size : length (bytes ++ padding) - last_byte (bytes ++ padding) ≡ length bytes = omega (
      arith,
      length-append bytes padding,
      length-repeat_byte (suc n) (suc n),
      last_byte-append bytes n (suc n),
    ) in
    ap (λ k. take k (bytes ++ padding)) size ∙ take-append bytes padding

-- The padded text is a whole number of blocks of eight bytes, longer than the text by one to eight
-- bytes, and gives the text back once as many bytes are dropped as its last one says.
pub unpad-pad :
    (bytes : List ℕ)
    → (unpad (pad bytes) ≡ bytes)
      × (length (pad bytes) % 8 ≡ 0)
      × (length bytes < length (pad bytes))
      × (length (pad bytes) ≤ length bytes + 8)
unfolding pad
unpad-pad bytes =
    let n = 8 - length bytes % 8 in
    let positive : n ≡ suc (n - 1) = omega arith in
    let size : length (pad bytes) ≡ length bytes + n =
      omega (arith, length-append bytes (repeat_byte n n), length-repeat_byte n n) in
    (
      ap (λ k. unpad (bytes ++ repeat_byte k k)) positive ∙ unpad-append bytes (n - 1),
      omega arith,
      omega arith,
      omega arith,
    )
