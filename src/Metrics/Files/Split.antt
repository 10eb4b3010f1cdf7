-- ===== src/Metrics/Files/Split.antt =====
-- A text cut at a byte, as a reader of comma-separated values cuts it.
use real_time_system_project.Common.{
  ℕ, ◌≡◌, refl, ap, ◌∙◌, Bool, true, false, List, [], ◌∷◌, ◌++◌, Text, All, arith, ◌==◌, ◌||◌,
  if◌then◌else◌,
}
use real_time_system_project.Decimal.{is_digit, decimal}
use real_time_system_project.Decimal.Value.{decimal-digits}

-- The parts of a text between the bytes `c`.
abbrev pub push_byte : ℕ → List Text → List Text
push_byte x [] = (x ∷ []) ∷ []
push_byte x (field ∷ fields) = (x ∷ field) ∷ fields

abbrev pub split_on : ℕ → Text → List Text
split_on c [] = [] ∷ []
split_on c (x ∷ s) = let rest = split_on c s in if x == c then [] ∷ rest else push_byte x rest

abbrev pub all_but_last : List Text → List Text
all_but_last [] = []
all_but_last (x ∷ []) = []
all_but_last (x ∷ y ∷ xs) = x ∷ all_but_last (y ∷ xs)

-- The lines up to the last line end.
abbrev pub lines_of : Text → List Text
lines_of s = all_but_last (split_on 10 s)

-- Whether a byte is in a text.
abbrev pub has_byte : ℕ → Text → Bool
has_byte c [] = false
has_byte c (x ∷ s) = (x == c) || has_byte c s

pub split_on-field :
    (c : ℕ) (field s : Text)
    → has_byte c field ≡ false
    → split_on c (field ++ (c ∷ s)) ≡ field ∷ split_on c s
split_on-field c [] s h = ground arith
split_on-field c (x ∷ field) s h = ground (arith, split_on-field c field s)

pub split_on-last :
    (c : ℕ) (field : Text) → has_byte c field ≡ false → split_on c field ≡ field ∷ []
split_on-last c [] h = refl
split_on-last c (x ∷ field) h = ground (arith, split_on-last c field)

pub has_byte-digits :
    (c : ℕ) (s : Text) → is_digit c ≡ false → All (λ x. is_digit x ≡ true) s → has_byte c s ≡ false
has_byte-digits c [] d h = refl
has_byte-digits c (x ∷ s) d h = ground (arith, has_byte-digits c s d h.1, h.0)

pub has_byte-decimal : (c n : ℕ) → is_digit c ≡ false → has_byte c (decimal n) ≡ false
has_byte-decimal c n d = has_byte-digits c (decimal n) d (decimal-digits n)

pub has_byte-joined :
    (c x : ℕ) (a b : Text)
    → (x == c) ≡ false
    → has_byte c a ≡ false
    → has_byte c b ≡ false
    → has_byte c (a ++ (x ∷ b)) ≡ false
has_byte-joined c x [] b h k l = ground (arith, h, l)
has_byte-joined c x (y ∷ a) b h k l = ground (arith, has_byte-joined c x a b h)

all_but_last-cons :
    (x : Text) (c : ℕ) (s : Text)
    → all_but_last (x ∷ split_on c s) ≡ x ∷ all_but_last (split_on c s)
all_but_last-cons x c [] = refl
all_but_last-cons x c (y ∷ s) = at_byte (y == c) (split_on c s)
  where
    at_byte :
        (b : Bool) (rest : List Text)
        → all_but_last (x ∷ (if b then [] ∷ rest else push_byte y rest))
          ≡ x ∷ all_but_last (if b then [] ∷ rest else push_byte y rest)
    at_byte true rest = refl
    at_byte false [] = refl
    at_byte false (field ∷ fields) = refl

pub lines_of-line :
    (line s : Text) → has_byte 10 line ≡ false → lines_of (line ++ (10 ∷ s)) ≡ line ∷ lines_of s
lines_of-line line s h = ap all_but_last (split_on-field 10 line s h) ∙ all_but_last-cons line 10 s
