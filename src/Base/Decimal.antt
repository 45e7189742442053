-- ===== src/Base/Decimal.antt =====
-- Python's `str` of an int and `int` of a text, for ASCII digits.
use Prim.Native.Nat.{ℕ, zero, suc, ◌+◌, ◌-◌, ◌*◌, ◌/◌, ◌%◌, ◌<◌}
use Prim.Native.Char.{Char, code}
use Prim.Native.String.{String}
use mathlib.Core.Path.{◌≡◌, refl, ap, ◌∙◌}
use mathlib.Core.Logic.{inl, inr}
use mathlib.Core.Bool.{Bool, true, false, ◌&&◌}
use mathlib.Core.Option.{Option, none, some}
use native.Mathlib.Omega.{arith}
use agenyx.Base.Tests.{leb, ltb, nat_beq, if◌then◌else◌, Bool-cases}
use agenyx.Base.Int.{ℤ, pos, negsuc}
use agenyx.Base.Text.{is_space, lstrip, rstrip, strip}

digit : ℕ → Char
digit zero = "0"
digit (suc zero) = "1"
digit (suc (suc zero)) = "2"
digit (suc (suc (suc zero))) = "3"
digit (suc (suc (suc (suc zero)))) = "4"
digit (suc (suc (suc (suc (suc zero))))) = "5"
digit (suc (suc (suc (suc (suc (suc zero)))))) = "6"
digit (suc (suc (suc (suc (suc (suc (suc zero))))))) = "7"
digit (suc (suc (suc (suc (suc (suc (suc (suc zero)))))))) = "8"
digit _ = "9"

-- The digits of `n` before `rest`: `n + 1` rounds are enough, since each divides by ten.
write : ℕ → ℕ → String → String
unfolding digit
write zero n rest = rest
write (suc f) n rest =
    let others = write f (n / 10) (String.◌∷◌ (digit (n % 10)) rest) in
    if ltb n 10 then String.◌∷◌ (digit n) rest else others

-- `str(n)`
unfoldable pub str_of : ℤ → String
unfolding write
str_of (pos n) = write (suc n) n ""
str_of (negsuc n) = String.◌∷◌ "-" (write (suc (suc n)) (suc n) "")

-- The digits of a text, after `acc`; an underscore stands between two digits.
read : Bool → ℕ → String → Option ℕ
read after_digit acc String.[] = if after_digit then some acc else none
read after_digit acc (String.◌∷◌ c s) =
    let digits = read true (acc * 10 + (code c - 48)) s in
    let gap = read false acc s in
    if leb 48 (code c) && leb (code c) 57
    then digits
    else if nat_beq (code c) 95 && after_digit
    then gap
    else none

abbrev negated : ℕ → ℤ
negated zero = pos 0
negated (suc n) = negsuc n

abbrev as_pos : Option ℕ → Option ℤ
as_pos none = none
as_pos (some n) = some (pos n)

abbrev as_neg : Option ℕ → Option ℤ
as_neg none = none
as_neg (some n) = some (negated n)

signed : String → Option ℤ
unfolding read
signed String.[] = none
signed (String.◌∷◌ c s) =
    if nat_beq (code c) 45
    then as_neg (read false 0 s)
    else if nat_beq (code c) 43
    then as_pos (read false 0 s)
    else as_pos (read false 0 (String.◌∷◌ c s))

-- `int(s)`, or nothing where it raises ValueError
unfoldable pub int_of : String → Option ℤ
unfolding signed strip
int_of s = signed (strip s)

digit_code : (d : ℕ) → d < 10 → code (digit d) ≡ d + 48
unfolding digit
digit_code zero h = refl
digit_code (suc zero) h = refl
digit_code (suc (suc zero)) h = refl
digit_code (suc (suc (suc zero))) h = refl
digit_code (suc (suc (suc (suc zero)))) h = refl
digit_code (suc (suc (suc (suc (suc zero))))) h = refl
digit_code (suc (suc (suc (suc (suc (suc zero)))))) h = refl
digit_code (suc (suc (suc (suc (suc (suc (suc zero))))))) h = refl
digit_code (suc (suc (suc (suc (suc (suc (suc (suc zero)))))))) h = refl
digit_code (suc (suc (suc (suc (suc (suc (suc (suc (suc zero))))))))) h = refl
digit_code (suc (suc (suc (suc (suc (suc (suc (suc (suc (suc d)))))))))) h = ground arith

is_digit_code : (d : ℕ) → d < 10 → (leb 48 (d + 48) && leb (d + 48) 57) ≡ true
is_digit_code d h = ground arith

read-digit :
    (d acc : ℕ) (b : Bool) (rest : String)
    → d < 10
    → read b acc (String.◌∷◌ (digit d) rest) ≡ read true (acc * 10 + d) rest
unfolding read
read-digit d acc b rest h =
    let exact : d + 48 - 48 ≡ d = omega arith in rw (digit_code d h, is_digit_code d h, exact) refl

rejoined : (n : ℕ) → (n / 10) * 10 + n % 10 ≡ n
rejoined n = omega arith

read-write :
    (f n : ℕ) (b : Bool) (rest : String) → n < f → read b 0 (write f n rest) ≡ read true n rest
unfolding write
read-write zero n b rest h = ground arith
read-write (suc f) n b rest h = elim (Bool-cases (ltb n 10)) [
  | inl small ↦
      rw small (read-digit n 0 b rest (ground arith) ∙ ap (λ k. read true k rest) (omega arith))
  | inr large ↦ rw large (
      read-write f (n / 10) b (String.◌∷◌ (digit (n % 10)) rest) (ground arith)
      ∙ (read-digit (n % 10) (n / 10) true rest (omega arith) ∙ rw (rejoined n) refl))
]

-- no character is space
abbrev IsClean : String → Type 0
IsClean String.[] = Unit
IsClean (String.◌∷◌ c s) = (is_space (code c) ≡ false) × IsClean s

digit_clean : (d : ℕ) → is_space (code (digit d)) ≡ false
unfolding digit
digit_clean zero = refl
digit_clean (suc zero) = refl
digit_clean (suc (suc zero)) = refl
digit_clean (suc (suc (suc zero))) = refl
digit_clean (suc (suc (suc (suc zero)))) = refl
digit_clean (suc (suc (suc (suc (suc zero))))) = refl
digit_clean (suc (suc (suc (suc (suc (suc zero)))))) = refl
digit_clean (suc (suc (suc (suc (suc (suc (suc zero))))))) = refl
digit_clean (suc (suc (suc (suc (suc (suc (suc (suc zero)))))))) = refl
digit_clean (suc (suc (suc (suc (suc (suc (suc (suc (suc d))))))))) = refl

write-IsClean : (f n : ℕ) (rest : String) → IsClean rest → IsClean (write f n rest)
unfolding write
write-IsClean zero n rest h = h
write-IsClean (suc f) n rest h = elim (Bool-cases (ltb n 10)) [
  | inl small ↦ rw small (digit_clean n, h)
  | inr large ↦
      rw large
        (write-IsClean f (n / 10) (String.◌∷◌ (digit (n % 10)) rest) (digit_clean (n % 10), h))
]

rstrip_lem : (s : String) → IsClean s → rstrip s ≡ s
unfolding rstrip
rstrip_lem String.[] h = refl
rstrip_lem (String.◌∷◌ c s) h = rw (h.0, rstrip_lem s h.1) refl

strip_lem : (s : String) → IsClean s → strip s ≡ s
unfolding strip lstrip rstrip
strip_lem String.[] h = refl
strip_lem (String.◌∷◌ c s) h = rw h.0 (rstrip_lem (String.◌∷◌ c s) h)

unsigned : (d : ℕ) → d < 10 → (nat_beq (d + 48) 45 ≡ false) × (nat_beq (d + 48) 43 ≡ false)
unsigned d h = (ground arith, ground arith)

signed-write :
    (f n : ℕ) (rest : String)
    → n < f
    → signed (write f n rest) ≡ as_pos (read false 0 (write f n rest))
unfolding signed write
signed-write zero n rest h = ground arith
signed-write (suc f) n rest h = elim (Bool-cases (ltb n 10)) [
  | inl small ↦
      let (minus, plus) = unsigned n (ground arith) in
      rw (small, digit_code n (ground arith), minus, plus) refl
  | inr large ↦ rw large (signed-write f (n / 10) (String.◌∷◌ (digit (n % 10)) rest) (ground arith))
]

-- A number reads back from its text.
pub int_of-str_of : (n : ℤ) → int_of (str_of n) ≡ some n
unfolding int_of str_of read signed
int_of-str_of (pos n) = rw (strip_lem (write (suc n) n "") (write-IsClean (suc n) n "" tt)) (
    signed-write (suc n) n "" (omega arith) ∙ rw (read-write (suc n) n false "" (omega arith)) refl)
int_of-str_of (negsuc n) =
    let digits = write-IsClean (suc (suc n)) (suc n) "" tt in
    ap signed (strip_lem (String.◌∷◌ "-" (write (suc (suc n)) (suc n) "")) (refl, digits))
    ∙ rw (read-write (suc (suc n)) (suc n) false "" (omega arith)) refl
