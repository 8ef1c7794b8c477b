-- ===== src/Env/Float.antt =====
-- float64 without NaN and with its two zeros as one value. The laws are those of IEEE 754 on which
-- the scheduling policies rely: the order is total, integers up to 2^53 are exact, and a sum or
-- quotient is rounded monotonically.
use distributed_task_queue_s.Prelude.{
  ◌≤◌, ◌≡◌, ◌⊎◌, Bool, true, false, Option, some, Text, ℤ, pos, pos_part, neg_part, ltb_ℤ, ◌+ℤ◌,
  ◌*ℤ◌,
}

-- An integer that float64 represents exactly.
abbrev pub IsExact : ℤ → Type 0
IsExact a = (pos_part a ≤ 9007199254740992) × (neg_part a ≤ 9007199254740992)

pub record Float64 : Type 1 where
  pub F : Type 0
  pub ltf : F → F → Bool
  -- `float64(n)` of an integer.
  pub of_int : ℤ → F
  pub addf : F → F → F
  pub subf : F → F → F
  pub mulf : F → F → F
  pub divf : F → F → F
  -- `strconv.FormatFloat(x, 'g', 17, 64)` and `strconv.ParseFloat`.
  pub format_float : F → Text
  pub parse_float : Text → Option F
  pub ltf_irrefl : (x : F) → ltf x x ≡ false
  pub ltf_trans : (x y z : F) → ltf x y ≡ true → ltf y z ≡ true → ltf x z ≡ true
  pub ltf_total : (x y : F) → (ltf x y ≡ true) ⊎ ((x ≡ y) ⊎ (ltf y x ≡ true))
  pub ltf-of_int : (a b : ℤ) → IsExact a → IsExact b → ltf (of_int a) (of_int b) ≡ ltb_ℤ a b
  pub addf-of_int :
      (a b : ℤ)
      → IsExact a
      → IsExact b
      → IsExact (a +ℤ b)
      → addf (of_int a) (of_int b) ≡ of_int (a +ℤ b)
  pub mulf-of_int :
      (a b : ℤ)
      → IsExact a
      → IsExact b
      → IsExact (a *ℤ b)
      → mulf (of_int a) (of_int b) ≡ of_int (a *ℤ b)
  -- Adding or dividing by what is not negative.
  pub addf_nonneg :
      (x y : F)
      → ltf x (of_int (pos 0)) ≡ false
      → ltf y (of_int (pos 0)) ≡ false
      → ltf (addf x y) x ≡ false
  pub divf_nonneg :
      (x y : F)
      → ltf x (of_int (pos 0)) ≡ false
      → ltf (of_int (pos 0)) y ≡ true
      → ltf (divf x y) (of_int (pos 0)) ≡ false
  pub mulf_nonneg :
      (x y : F)
      → ltf x (of_int (pos 0)) ≡ false
      → ltf y (of_int (pos 0)) ≡ false
      → ltf (mulf x y) (of_int (pos 0)) ≡ false
  -- Seventeen digits give a float64 back.
  pub parse-format : (x : F) → parse_float (format_float x) ≡ some x
