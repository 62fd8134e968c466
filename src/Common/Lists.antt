-- ===== src/Common/Lists.antt =====
-- Lists measured by native numbers, filtered by Boolean tests, with untruncated membership.
use Prim.Native.Nat.{ℕ, zero, suc, ◌+◌, ◌-◌, ◌≤◌, min}
use mathlib.Core.Path.{◌≡◌, refl, ap, sym, subst, ◌∙◌}
use mathlib.Core.Logic.{◌⊎◌, inl, inr}
use mathlib.Core.Bool.{Bool, true, false, ◌||◌}
use mathlib.Core.List.{List, [], ◌∷◌, ◌++◌, map, Memᴰ}
use native.Mathlib.Omega.{arith}
use app_cortex_stt.Common.Tests.{if◌then◌else◌, Bool-cases}

module _ {ℓ} {A : Type ℓ} where
  abbrev pub length : List A → ℕ
  length [] = 0
  length (x ∷ xs) = suc (length xs)

  pub length-append : (xs ys : List A) → length (xs ++ ys) ≡ length xs + length ys
  length-append [] ys = omega arith
  length-append (x ∷ xs) ys = omega (arith, length-append xs ys)

  abbrev pub take : ℕ → List A → List A
  take zero xs = []
  take (suc n) [] = []
  take (suc n) (x ∷ xs) = x ∷ take n xs

  abbrev pub drop : ℕ → List A → List A
  drop zero xs = xs
  drop (suc n) [] = []
  drop (suc n) (x ∷ xs) = drop n xs

  pub length-take : (n : ℕ) (xs : List A) → length (take n xs) ≡ min n (length xs)
  length-take zero xs = omega arith
  length-take (suc n) [] = omega arith
  length-take (suc n) (x ∷ xs) = omega (arith, length-take n xs)

  pub take-append-drop : (n : ℕ) (xs : List A) → take n xs ++ drop n xs ≡ xs
  take-append-drop zero xs = refl
  take-append-drop (suc n) [] = refl
  take-append-drop (suc n) (x ∷ xs) = ap (◌∷◌ x) (take-append-drop n xs)

  pub length-drop : (n : ℕ) (xs : List A) → length (drop n xs) ≡ length xs - n
  length-drop zero xs = omega arith
  length-drop (suc n) [] = omega arith
  length-drop (suc n) (x ∷ xs) = omega (arith, length-drop n xs)

  -- The elements that pass a test, in order.
  abbrev pub filter : (A → Bool) → List A → List A
  filter p [] = []
  filter p (x ∷ xs) = let rest = filter p xs in if p x then x ∷ rest else rest

  pub length-filter-le : (p : A → Bool) (xs : List A) → length (filter p xs) ≤ length xs
  length-filter-le p [] = omega arith
  length-filter-le p (x ∷ xs) = ground (arith, length-filter-le p xs)

  abbrev pub is_empty : List A → Bool
  is_empty [] = true
  is_empty (x ∷ xs) = false

  abbrev pub any : (A → Bool) → List A → Bool
  any p [] = false
  any p (x ∷ xs) = p x || any p xs

  abbrev pub All {κ} : (A → Type κ) → List A → Type κ
  All P [] = Unit
  All P (x ∷ xs) = P x × All P xs

module _ {ℓ κ} {A : Type ℓ} {B : Type κ} where
  pub length-map : (f : A → B) (xs : List A) → length (map f xs) ≡ length xs
  length-map f [] = refl
  length-map f (x ∷ xs) = ap suc (length-map f xs)

module _ {ℓ} {A : Type ℓ} where
  pub All-mem {κ} : (P : A → Type κ) (xs : List A) {a : A} → All P xs → Memᴰ a xs → P a
  All-mem P [] h m = elim m [ ]
  All-mem P (x ∷ xs) h (Memᴰ.head e) = subst P (sym e) h.0
  All-mem P (x ∷ xs) h (Memᴰ.tail m) = All-mem P xs h.1 m

  pub mem_cases : {x a : A} {xs : List A} → Memᴰ a (x ∷ xs) → (a ≡ x) ⊎ Memᴰ a xs
  mem_cases (Memᴰ.head e) = inl e
  mem_cases (Memᴰ.tail m) = inr m

  pub not_mem_nil : {a : A} → ¬ Memᴰ a []
  not_mem_nil m = elim m [ ]

  pub mem_take-or_drop :
      (n : ℕ) (xs : List A) {a : A} → Memᴰ a xs → Memᴰ a (take n xs) ⊎ Memᴰ a (drop n xs)
  mem_take-or_drop zero [] m = elim m [ ]
  mem_take-or_drop (suc n) [] m = elim m [ ]
  mem_take-or_drop zero (x ∷ xs) m = inr m
  mem_take-or_drop (suc n) (x ∷ xs) (Memᴰ.head e) = inl (Memᴰ.head e)
  mem_take-or_drop (suc n) (x ∷ xs) (Memᴰ.tail m) = elim (mem_take-or_drop n xs m) [
    | inl t ↦ inl (Memᴰ.tail t)
    | inr d ↦ inr d
  ]

  pub mem-of_take : (n : ℕ) (xs : List A) {a : A} → Memᴰ a (take n xs) → Memᴰ a xs
  mem-of_take zero xs m = elim m [ ]
  mem-of_take (suc n) [] m = elim m [ ]
  mem-of_take (suc n) (x ∷ xs) (Memᴰ.head e) = Memᴰ.head e
  mem-of_take (suc n) (x ∷ xs) (Memᴰ.tail m) = Memᴰ.tail (mem-of_take n xs m)

  pub mem-of_drop : (n : ℕ) (xs : List A) {a : A} → Memᴰ a (drop n xs) → Memᴰ a xs
  mem-of_drop zero xs m = m
  mem-of_drop (suc n) [] m = elim m [ ]
  mem-of_drop (suc n) (x ∷ xs) m = Memᴰ.tail (mem-of_drop n xs m)

  pub mem-filter :
      (p : A → Bool) (xs : List A) {a : A} → Memᴰ a xs → p a ≡ true → Memᴰ a (filter p xs)
  mem-filter p [] m h = elim m [ ]
  mem-filter p (x ∷ xs) (Memᴰ.head e) h = rw (ap p (sym e) ∙ h) (Memᴰ.head e)
  mem-filter p (x ∷ xs) (Memᴰ.tail m) h = elim (Bool-cases (p x)) [
    | inl t ↦ rw t (Memᴰ.tail (mem-filter p xs m h))
    | inr f ↦ rw f (mem-filter p xs m h)
  ]

  pub mem_of_mem-filter :
      (p : A → Bool) (xs : List A) {a : A} → Memᴰ a (filter p xs) → Memᴰ a xs × (p a ≡ true)
  mem_of_mem-filter p [] m = elim m [ ]
  mem_of_mem-filter p (x ∷ xs) {a} m = elim (Bool-cases (p x)) [
    | inl t ↦ elim (mem_cases (subst (Memᴰ a) (rw t) m)) [
      | inl e ↦ (Memᴰ.head e, ap p e ∙ t)
      | inr n ↦ let (k, q) = mem_of_mem-filter p xs n in (Memᴰ.tail k, q)
    ]
    | inr f ↦ let (n, q) = mem_of_mem-filter p xs (subst (Memᴰ a) (rw f) m) in (Memᴰ.tail n, q)
  ]

module _ {ℓ κ} {A : Type ℓ} {B : Type κ} (f : A → B) where
  pub mem-map : (xs : List A) {a : A} → Memᴰ a xs → Memᴰ (f a) (map f xs)
  mem-map [] m = elim m [ ]
  mem-map (x ∷ xs) (Memᴰ.head e) = Memᴰ.head (ap f e)
  mem-map (x ∷ xs) (Memᴰ.tail m) = Memᴰ.tail (mem-map xs m)

  pub mem_of_mem-map : (xs : List A) {b : B} → Memᴰ b (map f xs) → (a : A) × Memᴰ a xs × (b ≡ f a)
  mem_of_mem-map [] m = elim m [ ]
  mem_of_mem-map (x ∷ xs) (Memᴰ.head e) = (x, Memᴰ.head refl, e)
  mem_of_mem-map (x ∷ xs) (Memᴰ.tail m) = let (a, n, e) = mem_of_mem-map xs m in (a, Memᴰ.tail n, e)
