-- ===== src/Engine/Manager/Lru.antt =====
-- The choice of the least recently used model (engine/manager.rs, in `reserve_slot`).
use app_cortex_stt.Common.{
  ℕ, ◌≡◌, ◌≢◌, ◌≤◌, ◌<◌, refl, sym, ap, ◌∙◌, [], ◌∷◌, none, some, String, KeyMap, lookup, length,
  leb, string_key, arith, Bool-cases, Option-cases, inl, inr, ◌⊎◌, UniqueKeys, leb→le, leb-false→lt,
}
use app_cortex_stt.Engine.Manager.{LoadedModel, lru}

lru-nil : (P : Type 0) (id : String) → lru {P = P} id [] ≡ none
unfolding lru
lru-nil P id = refl

none≢some : {A : Type 0} {a : A} → none ≢ some a
none≢some e = cc

lookup_apart :
    {V : Type 0} (i j : String) (m : KeyMap String V) {v : V}
    → lookup i m ≡ none
    → lookup j m ≡ some v
    → i ≢ j
lookup_apart i j m a b e = cc (ap (λ x. lookup x m) e, a, b)

pub lookup_same_use :
    {P : Type 0} (k i : String) (m : KeyMap String (LoadedModel P)) {v w : LoadedModel P}
    → k ≡ i
    → lookup k m ≡ some v
    → lookup i m ≡ some w
    → v.last_used ≡ w.last_used
lookup_same_use k i m {v} {w} same a b = ap (λ l. l.last_used) loaded
  where
    loaded : v ≡ w
    loaded = cc (ap (λ x. lookup x m) same, a, b)

module _ {P : Type 0} where
  pub lru-nothing :
      (id : String) (m : KeyMap String (LoadedModel P)) → length m ≤ 0 → lru id m ≡ none
  lru-nothing id [] h = lru-nil P id
  lru-nothing id (x ∷ m) h = elim not_empty [ ]
    where
      not_empty : ⊥
      not_empty = omega (arith, h)

  -- When `lru` finds nothing, nothing else is loaded.
  pub lru-none :
      (id : String) (m : KeyMap String (LoadedModel P)) (j : String)
      → lru id m ≡ none
      → j ≢ id
      → lookup j m ≡ none
  unfolding lru lookup
  lru-none id [] j h d = refl
  lru-none id ((i, v) ∷ m) j h d = elim (Option-cases (lru id m)) [
    | inl absent ↦ elim (string_key.dec_eq i id) [
      | yes same ↦ ground (arith, lru-none id m j absent d)
      | no other ↦ ground arith
    ]
    | inr (x, e) ↦ ground arith
  ]

  -- What `lru` finds is loaded, is another model, and no other was used less recently.
  pub record IsLru (id : String) (m : KeyMap String (LoadedModel P)) (k : String) (t : ℕ)
      : Type 0 where
    pub other : k ≢ id
    pub loaded : LoadedModel P
    pub held : lookup k m ≡ some loaded
    pub used : loaded.last_used ≡ t
    pub least : (j : String) (v : LoadedModel P) → j ≢ id → lookup j m ≡ some v → t ≤ v.last_used

  lru-cons :
      (id i : String) (v : LoadedModel P) (m : KeyMap String (LoadedModel P)) (k : String) (t : ℕ)
      → lru id ((i, v) ∷ m) ≡ some (k, t)
      → ((i ≡ id) × (lru id m ≡ some (k, t)))
        ⊎ ((i ≢ id) × (lru id m ≡ none) × (k ≡ i) × (t ≡ v.last_used))
        ⊎ ((j : String) × (t' : ℕ) × (i ≢ id)
            × (lru id m ≡ some (j, t'))
            × (((k ≡ i) × (t ≡ v.last_used) × (v.last_used ≤ t'))
                ⊎ ((k ≡ j) × (t ≡ t') × (t' < v.last_used))))
  unfolding lru
  lru-cons id i v m k t h = elim (string_key.dec_eq i id) [
    | yes same ↦ inl (same, ground arith)
    | no other ↦ elim (Option-cases (lru id m)) [
      | inl absent ↦ inr (inl (other, absent, ground arith, ground arith))
      | inr ((j, t'), e) ↦ elim (Bool-cases (leb v.last_used t')) [
        | inl le ↦
            inr (inr (j, t', other, e, inl (ground arith, ground arith, leb→le v.last_used t' le)))
        | inr gt ↦ inr (
            inr (j, t', other, e, inr (ground arith, ground arith, leb-false→lt v.last_used t' gt)))
      ]
    ]
  ]

  lookup-cons_self :
      (i : String) (v : LoadedModel P) (m : KeyMap String (LoadedModel P))
      → lookup i ((i, v) ∷ m) ≡ some v
  unfolding lookup
  lookup-cons_self i v m = ground arith

  lookup-cons_ne :
      (i j : String) (v : LoadedModel P) (m : KeyMap String (LoadedModel P))
      → i ≢ j
      → lookup j ((i, v) ∷ m) ≡ lookup j m
  unfolding lookup
  lookup-cons_ne i j v m d = ground arith

  least-cons :
      (id i : String) (v : LoadedModel P) (m : KeyMap String (LoadedModel P)) (t : ℕ)
      → (i ≢ id → t ≤ v.last_used)
      → ((j : String) (w : LoadedModel P) → j ≢ id → lookup j m ≡ some w → t ≤ w.last_used)
      → (j : String) (w : LoadedModel P) → j ≢ id
      → lookup j ((i, v) ∷ m) ≡ some w
      → t ≤ w.last_used
  unfolding lookup
  least-cons id i v m t first others j w d h = elim (string_key.dec_eq i j) [
    | yes same ↦ ground (arith, first (λ e. d (sym same ∙ e)))
    | no other ↦ others j w d (sym (lookup-cons_ne i j v m other) ∙ h)
  ]

  pub lru-IsLru :
      (id : String) (m : KeyMap String (LoadedModel P)) (k : String) (t : ℕ)
      → UniqueKeys m
      → lru id m ≡ some (k, t)
      → IsLru id m k t
  lru-IsLru id [] k t u h = elim (none≢some (sym (lru-nil P id) ∙ h)) [ ]
  lru-IsLru id ((i, v) ∷ m) k t u h = elim (lru-cons id i v m k t h) [
    | inl (same, e) ↦
        let r = lru-IsLru id m k t u.1 e in
        record {
          other = r.other;
          loaded = r.loaded;
          held = lookup-cons_ne i k v m (λ d. r.other (sym d ∙ same)) ∙ r.held;
          used = r.used;
          least = least-cons id i v m t (λ d. elim (d same) [ ]) r.least;
        }
    | inr (inl (other, absent, ki, tv)) ↦ record {
      other = λ d. other (sym ki ∙ d);
      loaded = v;
      held = ap (λ x. lookup x ((i, v) ∷ m)) ki ∙ lookup-cons_self i v m;
      used = sym tv;
      least =
          least-cons id i v m t (λ d. omega (arith, tv))
            (λ j w d e. cc (lru-none id m j absent d, e));
    }
    | inr (inr (j, t', other, e, inl (ki, tv, le))) ↦
        let r = lru-IsLru id m j t' u.1 e in
        record {
          other = λ d. other (sym ki ∙ d);
          loaded = v;
          held = ap (λ x. lookup x ((i, v) ∷ m)) ki ∙ lookup-cons_self i v m;
          used = sym tv;
          least =
              least-cons id i v m t (λ d. omega (arith, tv))
                (λ x w d held. omega (arith, r.least x w d held, tv, le));
        }
    | inr (inr (j, t', other, e, inr (kj, tt', lt))) ↦
        let r = lru-IsLru id m j t' u.1 e in
        record {
          other = λ d. r.other (sym kj ∙ d);
          loaded = r.loaded;
          held =
              ap (λ x. lookup x ((i, v) ∷ m)) kj
              ∙ lookup-cons_ne i j v m (lookup_apart i j m u.0 r.held)
              ∙ r.held;
          used = r.used ∙ sym tt';
          least =
              least-cons id i v m t (λ d. omega (arith, tt', lt))
                (λ x w d held. omega (arith, r.least x w d held, tt'));
        }
  ]
