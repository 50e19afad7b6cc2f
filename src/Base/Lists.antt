-- ===== src/Base/Lists.antt =====
-- Lists measured and indexed by native numbers, under the library's names.
use Prim.Native.Nat.{ℕ, zero, suc, ◌+◌}
use mathlib.Core.Path.{◌≡◌, refl, ap, subst}
use mathlib.Core.Logic.{inl, inr}
use mathlib.Core.Bool.{Bool, true, false, ◌||◌}
use mathlib.Core.List.{List, [], ◌∷◌, ◌++◌}
use mathlib.Core.Option.{Option, none, some}
use native.Mathlib.Omega.{arith}
use tuya_daemon.Base.Tests.{◌==◌, if◌then◌else◌, Bool-cases}

module _ {ℓ} {A : Type ℓ} where
  abbrev pub length : List A → ℕ
  length [] = 0
  length (x ∷ xs) = suc (length xs)

  abbrev pub get_elem? : List A → ℕ → Option A
  get_elem? [] i = none
  get_elem? (x ∷ xs) zero = some x
  get_elem? (x ∷ xs) (suc i) = get_elem? xs i

  pub length-append : (xs ys : List A) → length (xs ++ ys) ≡ length xs + length ys
  length-append [] ys = omega arith
  length-append (x ∷ xs) ys = omega (arith, length-append xs ys)

  -- How many elements pass a test.
  abbrev pub count_if : (A → Bool) → List A → ℕ
  count_if p [] = 0
  count_if p (x ∷ xs) = if p x then suc (count_if p xs) else count_if p xs

-- Sets of addresses.
abbrev pub member : ℕ → List ℕ → Bool
member a [] = false
member a (x ∷ xs) = (a == x) || member a xs

abbrev pub remove : ℕ → List ℕ → List ℕ
remove a [] = []
remove a (x ∷ xs) = if a == x then xs else x ∷ remove a xs

pub remove-length : (a : ℕ) (l : List ℕ) → member a l ≡ true → length (remove a l) + 1 ≡ length l
remove-length a [] h = absurd (cc)
remove-length a (x ∷ xs) h = elim (Bool-cases (a == x)) [
  | inl same ↦ rw same (omega arith)
  | inr other ↦
      rw other (
        omega (arith, remove-length a xs (subst (λ (b : Bool). (b || member a xs) ≡ true) other h)))
]

pub member-remove : (a b : ℕ) (l : List ℕ) → (b == a) ≡ false → member b (remove a l) ≡ member b l
member-remove a b [] apart = refl
member-remove a b (x ∷ xs) apart = elim (Bool-cases (a == x)) [
  | inl same ↦ rw same (ground arith)
  | inr other ↦ rw other (ap (λ (c : Bool). (b == x) || c) (member-remove a b xs apart))
]
