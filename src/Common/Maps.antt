-- ===== src/Common/Maps.antt =====
-- Keyed maps as association lists, over any type of keys with decidable equality. A `HashMap` of
-- the source is such a list with no key twice; its iteration order is the list's, which no
-- lemma fixes.
use Prim.Native.Nat.{ℕ, suc, ◌≤◌}
use Prim.Native.String.{String}
use mathlib.Core.Path.{◌≡◌, refl, sym, subst, ap, ◌∙◌}
use mathlib.Core.Logic.{◌≢◌, ◌⊎◌, inl, inr, ite, if_pos, if_neg}
use mathlib.Core.Bool.{Bool, true, false, false≢true}
use mathlib.Core.List.{List, [], ◌∷◌, Memᴰ}
use mathlib.Core.Option.{Option, none, some}
use native.Mathlib.Decide.{ℕ_discrete}
use native.Mathlib.Omega.{arith}
use text.Mathlib.Text.{◌==◌ as str_eq}
use text.Mathlib.TextEquality.{eq_iff}
use app_cortex_stt.Common.Tests.{if◌then◌else◌, is_some, Bool-cases, Option-cases}
use app_cortex_stt.Common.Lists.{length}

-- What a map asks of its keys.
pub record Key {ℓ} (K : Type ℓ) : Type ℓ where
  pub dec_eq : Discrete K

string_dec : Discrete String
unfolding Bool-cases
string_dec s t = elim (Bool-cases (str_eq s t)) [
  | inl e ↦ yes ((eq_iff s t).0 e)
  | inr e ↦ no (λ p. cc ((eq_iff s t).1 p))
]

-- Two texts that compare unequal, as literals do by computation.
pub str_ne : (s t : String) → str_eq s t ≡ false → s ≢ t
str_ne s t h e = false≢true (sym h ∙ (eq_iff s t).1 e)

instance unfoldable pub string_key : Key String
unfolding string_dec
string_key = record { dec_eq = string_dec }

instance unfoldable pub nat_key : Key ℕ
unfolding ℕ_discrete
nat_key = record { dec_eq = ℕ_discrete }

abbrev pub KeyMap {ℓ} : Type ℓ → Type ℓ → Type ℓ
KeyMap K V = List (K × V)

module _ {ℓ} {K V : Type ℓ} ⦃key : Key K⦄ where
  unfoldable pub lookup : K → KeyMap K V → Option V
  lookup k [] = none
  lookup k ((j, v) ∷ m) = ite (key.dec_eq j k) (some v) (lookup k m)

  unfoldable pub remove : K → KeyMap K V → KeyMap K V
  remove k [] = []
  remove k ((j, v) ∷ m) = let rest = remove k m in ite (key.dec_eq j k) rest ((j, v) ∷ rest)

  unfoldable pub insert : K → V → KeyMap K V → KeyMap K V
  insert k v m = (k, v) ∷ remove k m

  -- Keeps the entries that pass a test.
  unfoldable pub retain : (K → V → Bool) → KeyMap K V → KeyMap K V
  retain p [] = []
  retain p ((j, v) ∷ m) = let rest = retain p m in if p j v then (j, v) ∷ rest else rest

  abbrev pub UniqueKeys : KeyMap K V → Type ℓ
  UniqueKeys [] = Unit
  UniqueKeys ((k, v) ∷ m) = (lookup k m ≡ none) × UniqueKeys m

  pub lookup_head : (k : K) (v : V) (m : KeyMap K V) → lookup k ((k, v) ∷ m) ≡ some v
  unfolding lookup
  lookup_head k v m = ground arith

  pub lookup_tail : (k j : K) (v : V) (m : KeyMap K V) → k ≢ j → lookup j ((k, v) ∷ m) ≡ lookup j m
  unfolding lookup
  lookup_tail k j v m d = ground arith

  pub lookup-remove_self : (k : K) (m : KeyMap K V) → lookup k (remove k m) ≡ none
  unfolding lookup remove
  lookup-remove_self k [] = refl
  lookup-remove_self k ((j, v) ∷ m) = ground (arith, lookup-remove_self k m)

  pub lookup-remove_ne : (k j : K) (m : KeyMap K V) → k ≢ j → lookup j (remove k m) ≡ lookup j m
  unfolding lookup remove
  lookup-remove_ne k j [] h = refl
  lookup-remove_ne k j ((i, v) ∷ m) h = ground (arith, lookup-remove_ne k j m h)

  pub lookup-insert_self : (k : K) (v : V) (m : KeyMap K V) → lookup k (insert k v m) ≡ some v
  unfolding lookup insert
  lookup-insert_self k v m = ground arith

  pub lookup-insert_ne :
      (k j : K) (v : V) (m : KeyMap K V) → k ≢ j → lookup j (insert k v m) ≡ lookup j m
  unfolding lookup insert
  lookup-insert_ne k j v m h = ground (arith, lookup-remove_ne k j m h)

  pub lookup-retain-none :
      (p : K → V → Bool) (k : K) (m : KeyMap K V) → lookup k m ≡ none → lookup k (retain p m) ≡ none
  unfolding lookup retain
  lookup-retain-none p k [] h = refl
  lookup-retain-none p k ((j, v) ∷ m) h = ground (arith, lookup-retain-none p k m)

  -- In a map with no key twice, `retain` judges each entry on its own.
  pub lookup-retain :
      (p : K → V → Bool) (k : K) (m : KeyMap K V) (v : V)
      → UniqueKeys m
      → lookup k m ≡ some v
      → lookup k (retain p m) ≡ (if p k v then some v else none)
  unfolding lookup retain
  lookup-retain p k [] v u h = cc
  lookup-retain p k ((j, w) ∷ m) v u h = elim (key.dec_eq j k) [
    | yes e ↦ ground (arith, lookup-retain-none p k m)
    | no d ↦ ground (arith, lookup-retain p k m v u.1)
  ]

  pub lookup-remove-none :
      (k j : K) (m : KeyMap K V) → lookup k m ≡ none → lookup k (remove j m) ≡ none
  unfolding lookup remove
  lookup-remove-none k j [] h = refl
  lookup-remove-none k j ((i, v) ∷ m) h = ground (arith, lookup-remove-none k j m)

  pub remove-UniqueKeys : (k : K) (m : KeyMap K V) → UniqueKeys m → UniqueKeys (remove k m)
  unfolding remove
  remove-UniqueKeys k [] u = tt
  remove-UniqueKeys k ((j, v) ∷ m) u =
      ground (arith, lookup-remove-none j k m u.0, remove-UniqueKeys k m u.1)

  pub insert-UniqueKeys :
      (k : K) (v : V) (m : KeyMap K V) → UniqueKeys m → UniqueKeys (insert k v m)
  unfolding insert
  insert-UniqueKeys k v m u = (lookup-remove_self k m, remove-UniqueKeys k m u)

  pub retain-UniqueKeys :
      (p : K → V → Bool) (m : KeyMap K V) → UniqueKeys m → UniqueKeys (retain p m)
  unfolding retain
  retain-UniqueKeys p [] u = tt
  retain-UniqueKeys p ((j, v) ∷ m) u =
      ground (arith, lookup-retain-none p j m u.0, retain-UniqueKeys p m u.1)

  pub remove_absent : (k : K) (m : KeyMap K V) → lookup k m ≡ none → remove k m ≡ m
  unfolding lookup remove
  remove_absent k [] h = refl
  remove_absent k ((j, v) ∷ m) h = ground (arith, remove_absent k m)

  pub length-remove_le : (k : K) (m : KeyMap K V) → length (remove k m) ≤ length m
  unfolding remove
  length-remove_le k [] = omega arith
  length-remove_le k ((j, v) ∷ m) = ground (arith, length-remove_le k m)

  pub length-remove :
      (k : K) (m : KeyMap K V) {v : V}
      → UniqueKeys m
      → lookup k m ≡ some v
      → suc (length (remove k m)) ≡ length m
  unfolding lookup remove
  length-remove k [] u h = cc
  length-remove k ((j, w) ∷ m) {v} u h = elim (key.dec_eq j k) [
    | yes e ↦ ground (arith, remove_absent k m)
    | no d ↦ ground (arith, length-remove k m {v = v} u.1)
  ]

  pub length-insert_le : (k : K) (v : V) (m : KeyMap K V) → length (insert k v m) ≤ suc (length m)
  unfolding insert
  length-insert_le k v m = omega (arith, length-remove_le k m)

  pub length-insert_new :
      (k : K) (v : V) (m : KeyMap K V) → lookup k m ≡ none → length (insert k v m) ≡ suc (length m)
  unfolding insert
  length-insert_new k v m h = ap (λ n. suc (length n)) (remove_absent k m h)

  pub length-insert_held :
      (k : K) (v : V) (m : KeyMap K V) {w : V}
      → UniqueKeys m
      → lookup k m ≡ some w
      → length (insert k v m) ≡ length m
  unfolding insert
  length-insert_held k v m {w} u h = length-remove k m {v = w} u h

  -- A map in which nothing is found is empty.
  pub length_of_absent : (m : KeyMap K V) → ((k : K) → lookup k m ≡ none) → length m ≡ 0
  unfolding lookup
  length_of_absent [] h = refl
  length_of_absent ((j, v) ∷ m) h = ground (arith, h j)

  pub mem_of_lookup : (k : K) (m : KeyMap K V) {v : V} → lookup k m ≡ some v → Memᴰ (k, v) m
  unfolding lookup
  mem_of_lookup k [] h = cc
  mem_of_lookup k ((j, w) ∷ m) {v} h = elim (key.dec_eq j k) [
    | yes e ↦ Memᴰ.head (ground arith)
    | no d ↦ Memᴰ.tail (mem_of_lookup k m (ground arith))
  ]

  pub lookup_of_mem :
      (k : K) (m : KeyMap K V) {v : V} → UniqueKeys m → Memᴰ (k, v) m → lookup k m ≡ some v
  unfolding lookup
  lookup_of_mem k [] u t = elim t [ ]
  lookup_of_mem k ((j, w) ∷ m) {v} u (Memᴰ.head e) = ground (arith, e)
  lookup_of_mem k ((j, w) ∷ m) {v} u (Memᴰ.tail t) = ground (arith, lookup_of_mem k m u.1 t)

  pub lookup_of_retain :
      (p : K → V → Bool) (k : K) (m : KeyMap K V) {v : V}
      → UniqueKeys m
      → lookup k (retain p m) ≡ some v
      → (lookup k m ≡ some v) × (p k v ≡ true)
  lookup_of_retain p k m {v} u h = elim (Option-cases (lookup k m)) [
    | inl absent ↦ cc (lookup-retain-none p k m absent)
    | inr (w, held) ↦ ground (arith, lookup-retain p k m w u held)
  ]

  pub lookup_of_remove :
      (k j : K) (m : KeyMap K V) {v : V} → lookup j (remove k m) ≡ some v → lookup j m ≡ some v
  lookup_of_remove k j m {v} h = elim (key.dec_eq k j) [
    | yes e ↦ cc (lookup-remove_self j m, ap (λ i. lookup j (remove i m)) e)
    | no d ↦ cc (lookup-remove_ne k j m d)
  ]

  -- An entry of a map after an insertion is the new one or an old one under another key.
  pub lookup_of_insert :
      (k j : K) (v : V) (m : KeyMap K V) {w : V}
      → lookup j (insert k v m) ≡ some w
      → ((k ≡ j) × (v ≡ w)) ⊎ ((k ≢ j) × (lookup j m ≡ some w))
  lookup_of_insert k j v m {w} h = elim (key.dec_eq k j) [
    | yes e ↦ inl (e, cc (lookup-insert_self k v m, ap (λ i. lookup i (insert k v m)) e, h))
    | no d ↦ inr (d, sym (lookup-insert_ne k j v m d) ∙ h)
  ]

  pub is_some-insert :
      (k j : K) (v : V) (m : KeyMap K V)
      → is_some (lookup j m) ≡ true
      → is_some (lookup j (insert k v m)) ≡ true
  is_some-insert k j v m h = elim (key.dec_eq k j) [
    | yes e ↦
        subst (λ i. is_some (lookup i (insert k v m)) ≡ true) e
          (ap is_some (lookup-insert_self k v m))
    | no d ↦ ap is_some (lookup-insert_ne k j v m d) ∙ h
  ]

  pub is_some-remove_ne :
      (k j : K) (m : KeyMap K V)
      → k ≢ j
      → is_some (lookup j m) ≡ true
      → is_some (lookup j (remove k m)) ≡ true
  is_some-remove_ne k j m d h = ap is_some (lookup-remove_ne k j m d) ∙ h

  -- A key that is absent has no entry.
  pub not_mem_of_absent : (k : K) (m : KeyMap K V) {v : V} → lookup k m ≡ none → ¬ Memᴰ (k, v) m
  unfolding lookup
  not_mem_of_absent k [] h t = elim t [ ]
  not_mem_of_absent k ((j, w) ∷ m) h (Memᴰ.head e) = ground (arith, e)
  not_mem_of_absent k ((j, w) ∷ m) h (Memᴰ.tail t) =
      ground (arith, λ (g : lookup k m ≡ none). not_mem_of_absent k m g t)

  abbrev pub AllEntries {κ} : (K → V → Type κ) → KeyMap K V → Type κ
  AllEntries P [] = Unit
  AllEntries P ((k, v) ∷ m) = P k v × AllEntries P m

module _ {ℓ κ} {K V : Type ℓ} ⦃key : Key K⦄ (P : K → V → Type κ) where
  pub AllEntries-remove : (k : K) (m : KeyMap K V) → AllEntries P m → AllEntries P (remove k m)
  unfolding remove
  AllEntries-remove k [] h = tt
  AllEntries-remove k ((j, v) ∷ m) h = elim (key.dec_eq j k) [
    | yes e ↦ rw (if_pos _ e) (AllEntries-remove k m h.1)
    | no d ↦ rw (if_neg _ d) ((h.0, AllEntries-remove k m h.1))
  ]

  pub AllEntries-insert :
      (k : K) (v : V) (m : KeyMap K V) → P k v → AllEntries P m → AllEntries P (insert k v m)
  unfolding insert
  AllEntries-insert k v m p h = (p, AllEntries-remove k m h)

  pub AllEntries-retain :
      (keep : K → V → Bool) (m : KeyMap K V) → AllEntries P m → AllEntries P (retain keep m)
  unfolding retain
  AllEntries-retain keep [] h = tt
  AllEntries-retain keep ((j, v) ∷ m) h = elim (Bool-cases (keep j v)) [
    | inl t ↦ rw t ((h.0, AllEntries-retain keep m h.1))
    | inr f ↦ rw f (AllEntries-retain keep m h.1)
  ]

  pub AllEntries-lookup :
      (k : K) (m : KeyMap K V) {v : V} → AllEntries P m → lookup k m ≡ some v → P k v
  AllEntries-lookup k m {v} h e = of_mem m h (mem_of_lookup k m e)
    where
      of_mem : (n : KeyMap K V) → AllEntries P n → Memᴰ (k, v) n → P k v
      of_mem [] a t = elim t [ ]
      of_mem (x ∷ n) a (Memᴰ.head e) = subst (λ y. P y.0 y.1) (sym e) a.0
      of_mem (x ∷ n) a (Memᴰ.tail t) = of_mem n a.1 t
