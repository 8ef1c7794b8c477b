-- ===== src/Tests/Numbers.antt =====
-- The integers satisfy the laws of Env/Float.antt.
use distributed_task_queue_s.Prelude.{
  zero, suc, ◌/◌, ◌≡◌, refl, ◌⊎◌, true, false, Option, none, some, [], ◌∷◌, Text, ℤ, pos, negsuc,
  ltb_ℤ, leb_ℤ, ◌+ℤ◌, ◌-ℤ◌, ◌*ℤ◌, if◌then◌else◌, arith,
}
use distributed_task_queue_s.Env.Float.{Float64}

-- Division of what is not negative, rounded down; the rest is not needed.
abbrev pub quotient : ℤ → ℤ → ℤ
quotient (pos a) (pos b) = pos (a / b)
quotient _ _ = pos 0

abbrev pub show : ℤ → Text
show (pos n) = b'+' ∷ n ∷ []
show (negsuc n) = b'-' ∷ n ∷ []

abbrev pub read : Text → Option ℤ
read [] = none
read (c ∷ []) = none
read (zero ∷ n ∷ s) = none
read (suc c ∷ n ∷ []) = some (if leb_ℤ (pos c) (pos 42) then pos n else negsuc n)
read (suc c ∷ n ∷ m ∷ s) = none

pub read-show : (x : ℤ) → read (show x) ≡ some x
read-show (pos n) = refl
read-show (negsuc n) = refl

pub ltb_ℤ_irrefl : (x : ℤ) → ltb_ℤ x x ≡ false
ltb_ℤ_irrefl x = ground arith

pub ltb_ℤ_trans : (x y z : ℤ) → ltb_ℤ x y ≡ true → ltb_ℤ y z ≡ true → ltb_ℤ x z ≡ true
ltb_ℤ_trans x y z p q = ground arith

pub ltb_ℤ_total : (x y : ℤ) → (ltb_ℤ x y ≡ true) ⊎ ((x ≡ y) ⊎ (ltb_ℤ y x ≡ true))
ltb_ℤ_total x y = ground arith

pub add_nonneg :
    (x y : ℤ) → ltb_ℤ x (pos 0) ≡ false → ltb_ℤ y (pos 0) ≡ false → ltb_ℤ (x +ℤ y) x ≡ false
unfolding ◌+ℤ◌
add_nonneg x y p q = ground arith

pub quotient_nonneg :
    (x y : ℤ)
    → ltb_ℤ x (pos 0) ≡ false
    → ltb_ℤ (pos 0) y ≡ true
    → ltb_ℤ (quotient x y) (pos 0) ≡ false
quotient_nonneg (pos a) (pos b) p q = ground arith
quotient_nonneg (pos a) (negsuc b) p q = refl
quotient_nonneg (negsuc a) y p q = refl

pub mul_nonneg :
    (x y : ℤ) → ltb_ℤ x (pos 0) ≡ false → ltb_ℤ y (pos 0) ≡ false → ltb_ℤ (x *ℤ y) (pos 0) ≡ false
unfolding ◌*ℤ◌
mul_nonneg (pos a) (pos b) p q = ground arith
mul_nonneg (pos a) (negsuc b) p q = ground arith
mul_nonneg (negsuc a) y p q = ground arith

instance abbrev pub integers : Float64
integers = record {
  F = ℤ;
  ltf = ltb_ℤ;
  of_int = λ n. n;
  addf = ◌+ℤ◌;
  subf = ◌-ℤ◌;
  mulf = ◌*ℤ◌;
  divf = quotient;
  format_float = show;
  parse_float = read;
  ltf_irrefl = ltb_ℤ_irrefl;
  ltf_trans = ltb_ℤ_trans;
  ltf_total = ltb_ℤ_total;
  ltf-of_int = λ a b p q. refl;
  addf-of_int = λ a b p q r. refl;
  mulf-of_int = λ a b p q r. refl;
  addf_nonneg = add_nonneg;
  divf_nonneg = quotient_nonneg;
  mulf_nonneg = mul_nonneg;
  parse-format = read-show;
}
