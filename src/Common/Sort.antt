-- ===== src/Common/Sort.antt =====
-- Stable sort (`sort_by`, `sort_by_key`): insertion from the right, before the first element
-- that may stand behind.
use Prim.Native.Nat.{ℕ, zero, suc}
use mathlib.Core.Path.{◌≡◌, refl, sym, subst, ap}
use mathlib.Core.Logic.{◌⊎◌, ◌≢◌, inl, inr}
use mathlib.Core.List.{List, [], ◌∷◌, Memᴰ, Perm}
use mathlib.Core.List.Perm
use mathlib.Core.Option.{none}
use native.Mathlib.Omega.{arith}
use mathlib.Core.Bool.{Bool, true, false}
use app_cortex_stt.Common.Tests.{if◌then◌else◌, Bool-cases, leb}
use app_cortex_stt.Common.Maps.{Key, KeyMap, lookup, UniqueKeys, not_mem_of_absent}
use app_cortex_stt.Common.Lists.{length, take, drop, All, All-mem, mem-of_drop, mem_cases}

-- What the order of a sort must satisfy: it is total and transitive.
pub record IsOrder {ℓ} {A : Type ℓ} (le : A → A → Bool) : Type ℓ where
  pub total : (a b : A) → le a b ≡ false → le b a ≡ true
  pub trans : (a b c : A) → le a b ≡ true → le b c ≡ true → le a c ≡ true

module _ {ℓ} {A : Type ℓ} (le : A → A → Bool) where
  unfoldable pub sort_insert : A → List A → List A
  sort_insert x [] = x ∷ []
  sort_insert x (y ∷ ys) = let rest = sort_insert x ys in if le x y then x ∷ y ∷ ys else y ∷ rest

  unfoldable pub sort_by : List A → List A
  unfolding sort_insert
  sort_by [] = []
  sort_by (x ∷ xs) = sort_insert x (sort_by xs)

  -- Each element stands before the later ones.
  abbrev pub IsSorted : List A → Type 0
  IsSorted [] = Unit
  IsSorted (x ∷ xs) = All (λ y. le x y ≡ true) xs × IsSorted xs

  module _ (o : IsOrder le) where
    All-le_trans :
        (a b : A) (xs : List A)
        → le a b ≡ true
        → All (λ y. le b y ≡ true) xs
        → All (λ y. le a y ≡ true) xs
    All-le_trans a b [] h all = tt
    All-le_trans a b (x ∷ xs) h all = (o.trans a b x h all.0, All-le_trans a b xs h all.1)

    All-sort_insert :
        (a x : A) (xs : List A)
        → le a x ≡ true
        → All (λ y. le a y ≡ true) xs
        → All (λ y. le a y ≡ true) (sort_insert x xs)
    unfolding sort_insert
    All-sort_insert a x [] h all = (h, tt)
    All-sort_insert a x (y ∷ ys) h all = elim (Bool-cases (le x y)) [
      | inl t ↦ rw t ((h, all))
      | inr f ↦ rw f ((all.0, All-sort_insert a x ys h all.1))
    ]

    sort_insert-IsSorted : (x : A) (xs : List A) → IsSorted xs → IsSorted (sort_insert x xs)
    unfolding sort_insert
    sort_insert-IsSorted x [] s = (tt, tt)
    sort_insert-IsSorted x (y ∷ ys) s = elim (Bool-cases (le x y)) [
      | inl t ↦ rw t (((t, All-le_trans x y ys t s.0), s))
      | inr f ↦ rw f ((All-sort_insert y x ys (o.total x y f) s.0, sort_insert-IsSorted x ys s.1))
    ]

    pub sort_by-IsSorted : (xs : List A) → IsSorted (sort_by xs)
    unfolding sort_by
    sort_by-IsSorted [] = tt
    sort_by-IsSorted (x ∷ xs) = sort_insert-IsSorted x (sort_by xs) (sort_by-IsSorted xs)

  sort_insert-perm : (x : A) (xs : List A) → Perm (sort_insert x xs) (x ∷ xs)
  unfolding sort_insert
  sort_insert-perm x [] = Perm.refl (x ∷ [])
  sort_insert-perm x (y ∷ ys) = elim (Bool-cases (le x y)) [
    | inl t ↦ rw t (Perm.refl (x ∷ y ∷ ys))
    | inr gt ↦ rw gt (Perm.trans (Perm.cons y (sort_insert-perm x ys)) (Perm.swap x y ys))
  ]

  pub sort_by-perm : (xs : List A) → Perm (sort_by xs) xs
  unfolding sort_by
  sort_by-perm [] = Perm.refl []
  sort_by-perm (x ∷ xs) =
      Perm.trans (sort_insert-perm x (sort_by xs)) (Perm.cons x (sort_by-perm xs))

  mem-sort_insert_self : (x : A) (xs : List A) → Memᴰ x (sort_insert x xs)
  unfolding sort_insert
  mem-sort_insert_self x [] = Memᴰ.head refl
  mem-sort_insert_self x (y ∷ ys) = elim (Bool-cases (le x y)) [
    | inl t ↦ rw t (Memᴰ.head refl)
    | inr gt ↦ rw gt (Memᴰ.tail (mem-sort_insert_self x ys))
  ]

  mem-sort_insert : (x : A) (xs : List A) {a : A} → Memᴰ a xs → Memᴰ a (sort_insert x xs)
  unfolding sort_insert
  mem-sort_insert x [] m = elim m [ ]
  mem-sort_insert x (y ∷ ys) (Memᴰ.head e) = elim (Bool-cases (le x y)) [
    | inl t ↦ rw t (Memᴰ.tail (Memᴰ.head e))
    | inr gt ↦ rw gt (Memᴰ.head e)
  ]
  mem-sort_insert x (y ∷ ys) (Memᴰ.tail m) = elim (Bool-cases (le x y)) [
    | inl t ↦ rw t (Memᴰ.tail (Memᴰ.tail m))
    | inr gt ↦ rw gt (Memᴰ.tail (mem-sort_insert x ys m))
  ]

  -- The sort keeps every element.
  pub mem-sort_by : (xs : List A) {a : A} → Memᴰ a xs → Memᴰ a (sort_by xs)
  unfolding sort_by
  mem-sort_by [] m = elim m [ ]
  mem-sort_by (x ∷ xs) {a} (Memᴰ.head e) =
      subst (λ y. Memᴰ y (sort_insert x (sort_by xs))) (sym e) (mem-sort_insert_self x (sort_by xs))
  mem-sort_by (x ∷ xs) (Memᴰ.tail m) = mem-sort_insert x (sort_by xs) (mem-sort_by xs m)

  mem_of_mem-sort_insert :
      (x : A) (xs : List A) {a : A} → Memᴰ a (sort_insert x xs) → (a ≡ x) ⊎ Memᴰ a xs
  unfolding sort_insert
  mem_of_mem-sort_insert x [] (Memᴰ.head e) = inl e
  mem_of_mem-sort_insert x [] (Memᴰ.tail m) = elim m [ ]
  mem_of_mem-sort_insert x (y ∷ ys) {a} m = elim (Bool-cases (le x y)) [
    | inl t ↦ mem_cases (subst (Memᴰ a) (rw t) m)
    | inr gt ↦ elim (mem_cases (subst (Memᴰ a) (rw gt) m)) [
      | inl e ↦ inr (Memᴰ.head e)
      | inr n ↦ elim (mem_of_mem-sort_insert x ys n) [ inl e ↦ inl e | inr k ↦ inr (Memᴰ.tail k) ]
    ]
  ]

  -- The sort adds nothing.
  pub mem_of_mem-sort_by : (xs : List A) {a : A} → Memᴰ a (sort_by xs) → Memᴰ a xs
  unfolding sort_by
  mem_of_mem-sort_by [] m = m
  mem_of_mem-sort_by (x ∷ xs) m = elim (mem_of_mem-sort_insert x (sort_by xs) m) [
    | inl e ↦ Memᴰ.head e
    | inr n ↦ Memᴰ.tail (mem_of_mem-sort_by xs n)
  ]

  length-sort_insert : (x : A) (xs : List A) → length (sort_insert x xs) ≡ suc (length xs)
  unfolding sort_insert
  length-sort_insert x [] = refl
  length-sort_insert x (y ∷ ys) = ground (arith, length-sort_insert x ys)

  pub length-sort_by : (xs : List A) → length (sort_by xs) ≡ length xs
  unfolding sort_by
  length-sort_by [] = refl
  length-sort_by (x ∷ xs) = omega (arith, length-sort_insert x (sort_by xs), length-sort_by xs)

  -- In a sorted list, what `take` keeps comes no later than what `drop` leaves.
  pub take-le-drop :
      (n : ℕ) (xs : List A) {a b : A}
      → IsSorted xs
      → Memᴰ a (take n xs)
      → Memᴰ b (drop n xs)
      → le a b ≡ true
  take-le-drop zero xs s ma mb = elim ma [ ]
  take-le-drop (suc n) [] s ma mb = elim ma [ ]
  take-le-drop (suc n) (x ∷ xs) {b = b} s (Memᴰ.head e) mb =
      rw e (All-mem (λ y. le x y ≡ true) xs s.0 (mem-of_drop n xs mb))
  take-le-drop (suc n) (x ∷ xs) s (Memᴰ.tail ma) mb = take-le-drop n xs s.1 ma mb

-- A sorted map has the same keys, each once.
module _ {ℓ} {K V : Type ℓ} ⦃key : Key K⦄ (le : K × V → K × V → Bool) where
  lookup-sort_insert-none :
      (k : K) (x : K × V) (m : KeyMap K V)
      → x.0 ≢ k
      → lookup k m ≡ none
      → lookup k (sort_insert le x m) ≡ none
  unfolding lookup sort_insert
  lookup-sort_insert-none k x [] d h = ground arith
  lookup-sort_insert-none k x (y ∷ m) d h = ground (arith, lookup-sort_insert-none k x m d)

  sort_insert-UniqueKeys :
      (x : K × V) (m : KeyMap K V)
      → lookup x.0 m ≡ none
      → UniqueKeys m
      → UniqueKeys (sort_insert le x m)
  unfolding lookup sort_insert
  sort_insert-UniqueKeys x [] h u = (refl, tt)
  sort_insert-UniqueKeys x (y ∷ m) h u =
      ground (arith, lookup-sort_insert-none y.0 x m, sort_insert-UniqueKeys x m)

  lookup-sort_by-none :
      (k : K) (m : KeyMap K V) → lookup k m ≡ none → lookup k (sort_by le m) ≡ none
  unfolding lookup sort_by
  lookup-sort_by-none k [] h = refl
  lookup-sort_by-none k (x ∷ m) h =
      ground (arith, lookup-sort_by-none k m, lookup-sort_insert-none k x (sort_by le m))

  pub sort_by-UniqueKeys : (m : KeyMap K V) → UniqueKeys m → UniqueKeys (sort_by le m)
  unfolding sort_by
  sort_by-UniqueKeys [] u = tt
  sort_by-UniqueKeys (x ∷ m) u =
      sort_insert-UniqueKeys x (sort_by le m) (lookup-sort_by-none x.0 m u.0)
        (sort_by-UniqueKeys m u.1)

module _ {ℓ} {K V : Type ℓ} ⦃key : Key K⦄ where
  lookup-take-none :
      (k : K) (n : ℕ) (m : KeyMap K V) → lookup k m ≡ none → lookup k (take n m) ≡ none
  unfolding lookup
  lookup-take-none k zero m h = refl
  lookup-take-none k (suc n) [] h = refl
  lookup-take-none k (suc n) (x ∷ m) h = ground (arith, lookup-take-none k n m)

  pub take-UniqueKeys : (n : ℕ) (m : KeyMap K V) → UniqueKeys m → UniqueKeys (take n m)
  take-UniqueKeys zero m u = tt
  take-UniqueKeys (suc n) [] u = tt
  take-UniqueKeys (suc n) (x ∷ m) u = (lookup-take-none x.0 n m u.0, take-UniqueKeys n m u.1)

  -- With no key twice, no key stands both in a prefix and in what follows it.
  pub take-drop_disjoint :
      (n : ℕ) (m : KeyMap K V) {k : K} {v w : V}
      → UniqueKeys m
      → Memᴰ (k, v) (take n m)
      → ¬ Memᴰ (k, w) (drop n m)
  take-drop_disjoint zero m u t d = elim t [ ]
  take-drop_disjoint (suc n) [] u t d = elim t [ ]
  take-drop_disjoint (suc n) (x ∷ m) {w = w} u (Memᴰ.head e) d =
      not_mem_of_absent x.0 m u.0 (subst (λ i. Memᴰ (i, w) m) (ap (λ p. p.0) e) (mem-of_drop n m d))
  take-drop_disjoint (suc n) (x ∷ m) u (Memᴰ.tail t) d = take-drop_disjoint n m u.1 t d

-- The order of a numeric key.
pub leb-IsOrder {ℓ} : {A : Type ℓ} (by : A → ℕ) → IsOrder (λ a b. leb (by a) (by b))
leb-IsOrder by = record { total = λ a b h. ground arith; trans = λ a b c h k. ground arith }
