-- ===== src/Text.antt =====
-- The functions of Go's `strings`, `strconv` and `sort` packages that the program calls.
pub mod Scan
pub mod Sort
pub mod Url
use Prim.Native.Char.{Char}
use Prim.Native.String.{count}
use text.Mathlib.Text.{starts_with}
use text.Mathlib.TextLemmas.{append-ne-nil_of_right_ne-nil, cons-ne-nil}
use network_digital_twin_pla.Prelude.{
  ℕ, zero, suc, ◌+◌, ◌-◌, ◌/◌, ◌%◌, ◌<◌, ◌≡◌, refl, String, ◌<>◌, List, [], ◌∷◌, arith, ltb, eqb,
  if◌then◌else◌, ◌==◌, Bool, String-discrete, ◌≢◌, Bool-cases, inl, inr,
}

-- The characters left to drop, of a match that has been replaced, come first.
replace_from : String → String → ℕ → String → String
replace_from old new skip String.[] = ""
replace_from old new zero (String.◌∷◌ c s) =
    let hit = starts_with (String.◌∷◌ c s) old in
    let rest = replace_from old new (if hit then count old - 1 else 0) s in
    if hit then new <> rest else String.◌∷◌ c rest
replace_from old new (suc k) (String.◌∷◌ c s) = replace_from old new k s

-- An empty pattern matches before each character and at the end.
replace_empty : String → String → String
replace_empty new String.[] = new
replace_empty new (String.◌∷◌ c s) = new <> String.◌∷◌ c (replace_empty new s)

-- `strings.ReplaceAll`
unfoldable pub replace_all : String → String → String → String
unfolding replace_from replace_empty
replace_all s old new = if old == "" then replace_empty new s else replace_from old new 0 s

-- `strings.Join`
unfoldable pub join : List String → String → String
join [] sep = ""
join (x ∷ []) sep = x
join (x ∷ y ∷ ys) sep = x <> sep <> join (y ∷ ys) sep

abbrev digit : ℕ → String
digit zero = "0"
digit (suc zero) = "1"
digit (suc (suc zero)) = "2"
digit (suc (suc (suc zero))) = "3"
digit (suc (suc (suc (suc zero)))) = "4"
digit (suc (suc (suc (suc (suc zero))))) = "5"
digit (suc (suc (suc (suc (suc (suc zero)))))) = "6"
digit (suc (suc (suc (suc (suc (suc (suc zero))))))) = "7"
digit (suc (suc (suc (suc (suc (suc (suc (suc zero)))))))) = "8"
digit _ = "9"

digits_of : ℕ → ℕ → String
digits_of zero n = ""
digits_of (suc f) n =
    let more = digits_of f (n / 10) <> digit (n % 10) in if ltb n 10 then digit n else more

-- `strconv.Itoa` of a number that is not negative. Each round divides by ten, so that the number
-- itself bounds the rounds.
unfoldable pub decimal : ℕ → String
unfolding digits_of
decimal n = digits_of (suc n) n

digits_of-enough : (f g n : ℕ) → n < f → n < g → digits_of f n ≡ digits_of g n
unfolding digits_of
digits_of-enough zero g n h k = elim h [ ]
digits_of-enough (suc f) zero n h k = elim k [ ]
digits_of-enough (suc f) (suc g) n h k = ground (arith, digits_of-enough f g (n / 10))

-- The digits of a number of two digits or more are those of its tenth and its last one.
pub decimal_step : (n : ℕ) → ltb n 10 ≡ Bool.false → decimal n ≡ decimal (n / 10) <> digit (n % 10)
unfolding decimal digits_of
decimal_step n h = ground (arith, digits_of-enough n (suc (n / 10)) (n / 10))

digit-ne-nil : (n : ℕ) → digit n ≢ ""
digit-ne-nil zero = λ e. cons-ne-nil _ _ e
digit-ne-nil (suc zero) = λ e. cons-ne-nil _ _ e
digit-ne-nil (suc (suc zero)) = λ e. cons-ne-nil _ _ e
digit-ne-nil (suc (suc (suc zero))) = λ e. cons-ne-nil _ _ e
digit-ne-nil (suc (suc (suc (suc zero)))) = λ e. cons-ne-nil _ _ e
digit-ne-nil (suc (suc (suc (suc (suc zero))))) = λ e. cons-ne-nil _ _ e
digit-ne-nil (suc (suc (suc (suc (suc (suc zero)))))) = λ e. cons-ne-nil _ _ e
digit-ne-nil (suc (suc (suc (suc (suc (suc (suc zero))))))) = λ e. cons-ne-nil _ _ e
digit-ne-nil (suc (suc (suc (suc (suc (suc (suc (suc zero)))))))) = λ e. cons-ne-nil _ _ e
digit-ne-nil _ = λ e. cons-ne-nil _ _ e

-- A number has a digit.
pub decimal-ne-nil : (n : ℕ) → decimal n ≢ ""
unfolding decimal digits_of
decimal-ne-nil n = elim (Bool-cases (ltb n 10)) [
  | inl one ↦ rw one (digit-ne-nil n)
  | inr more ↦
      rw more (append-ne-nil_of_right_ne-nil (digits_of n (n / 10)) (digit-ne-nil (n % 10)))
]

replace_all_example : replace_all "device:{sn}-{sn}" "{sn}" "A1" ≡ "device:A1-A1"
unfolding replace_all String-discrete
replace_all_example = refl

decimal_example : decimal 1207 ≡ "1207"
unfolding decimal
decimal_example = refl
