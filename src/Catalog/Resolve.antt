-- ===== src/Catalog/Resolve.antt =====
-- What a Variant key resolves to (model/catalog.rs, `resolve_variant`).
use app_cortex_stt.Common.{
  text_eq, ◌≡◌, ◌≢◌, refl, sym, ap, ◌∙◌, subst, Bool, true, false, List, [], ◌∷◌, map, Option, none,
  some, Text, length, ◌≤◌, arith, Bool-cases, Option-cases, inl, inr, ◌⊎◌, text_key, Memᴰ, is_some,
  mem_of_mem-filter, mem-filter, not_mem_nil, mem_cases,
}
use app_cortex_stt.Variants.{VariantKey, parse, as_key}
use app_cortex_stt.Catalog.{
  quant_eq, find, InstalledVariant, of_model, Resolution, found, model_not_found,
  variant_not_installed, variant_required, has_quant, only_of, resolve_in, resolve_variant,
}

text_eq_iff : (s t : Text) → text_eq s t ≡ true → s ≡ t
text_eq_iff s t h = elim (text_key.dec_eq s t) [ yes e ↦ e | no d ↦ ground (arith, h) ]

text_eq_refl : (s t : Text) → s ≡ t → text_eq s t ≡ true
text_eq_refl s t e = ground (arith, e)

pub quant_eq_iff : (p q : Option Text) → quant_eq p q ≡ true → p ≡ q
quant_eq_iff none none h = refl
quant_eq_iff none (some t) h = cc
quant_eq_iff (some s) none h = cc
quant_eq_iff (some s) (some t) h = ap some (text_eq_iff s t h)

pub quant_eq_refl : (p q : Option Text) → p ≡ q → quant_eq p q ≡ true
quant_eq_refl none none e = refl
quant_eq_refl none (some t) e = cc
quant_eq_refl (some s) none e = cc
quant_eq_refl (some s) (some t) e = text_eq_refl s t (cc e)

module _ {A : Type 0} (p : A → Bool) where
  find-some : (xs : List A) {a : A} → find p xs ≡ some a → Memᴰ a xs × (p a ≡ true)
  unfolding find
  find-some [] h = cc
  find-some (x ∷ xs) {a} h = elim (Bool-cases (p x)) [
    | inl t ↦ let same : a ≡ x = ground arith in (Memᴰ.head same, ap p same ∙ t)
    | inr f ↦ let (m, t) = find-some xs {a = a} (ground arith) in (Memᴰ.tail m, t)
  ]

  find-none : (xs : List A) {a : A} → find p xs ≡ none → Memᴰ a xs → p a ≡ false
  unfolding find
  find-none [] h m = elim m [ ]
  find-none (x ∷ xs) {a} h m = elim (Bool-cases (p x)) [
    | inl t ↦ ground arith
    | inr f ↦ elim (mem_cases m) [
      | inl e ↦ ap p e ∙ f
      | inr n ↦ find-none xs {a = a} (ground arith) n
    ]
  ]

-- What a resolution says of the installed Variants.
abbrev pub IsResolution : List InstalledVariant → VariantKey → Resolution → Type 0
IsResolution installed key (found v) =
    Memᴰ v installed
    × (v.key.model ≡ key.model)
    × (((is_some key.quant ≡ true) × (v.key.quant ≡ key.quant))
        ⊎ ((key.quant ≡ none) × (of_model installed key.model ≡ v ∷ [])))
IsResolution installed key model_not_found =
    (w : InstalledVariant) → Memᴰ w installed → w.key.model ≢ key.model
IsResolution installed key (variant_not_installed q) =
    (key.quant ≡ some q) × ((w : InstalledVariant) → Memᴰ w installed → w.key ≢ key)
IsResolution installed key (variant_required keys) =
    (key.quant ≡ none)
    × (2 ≤ length (of_model installed key.model))
    × (keys ≡ map (λ v. as_key v.key) (of_model installed key.model))

mem_of_mem-of_model :
    (installed : List InstalledVariant) (id : Text) (v : InstalledVariant)
    → Memᴰ v (of_model installed id)
    → Memᴰ v installed × (v.key.model ≡ id)
unfolding of_model
mem_of_mem-of_model installed id v m =
    let (k, t) = mem_of_mem-filter (λ w. text_eq w.key.model id) installed m in
    (k, text_eq_iff v.key.model id t)

mem-of_model :
    (installed : List InstalledVariant) (id : Text) (v : InstalledVariant)
    → Memᴰ v installed
    → v.key.model ≡ id
    → Memᴰ v (of_model installed id)
unfolding of_model
mem-of_model installed id v m e =
    mem-filter (λ w. text_eq w.key.model id) installed m (text_eq_refl v.key.model id e)

subst_mem : {xs ys : List InstalledVariant} (v : InstalledVariant) → xs ≡ ys → Memᴰ v xs → Memᴰ v ys
subst_mem v e m = subst (Memᴰ v) e m

resolve_in-IsResolution :
    (installed : List InstalledVariant) (key : VariantKey) (quant : Option Text)
    (mine : List InstalledVariant)
    → key.quant ≡ quant
    → of_model installed key.model ≡ mine
    → IsResolution installed key (resolve_in quant mine)
unfolding resolve_in only_of
resolve_in-IsResolution installed key quant [] eq e =
    λ w m same. not_mem_nil (subst_mem w e (mem-of_model installed key.model w m same))
resolve_in-IsResolution installed key none (v ∷ []) eq e =
    let (m, model) =
      mem_of_mem-of_model installed key.model v (subst_mem v (sym e) (Memᴰ.head refl)) in
    (m, model, inr (eq, e))
resolve_in-IsResolution installed key none (v ∷ w ∷ vs) eq e =
    (eq, omega (arith, ap length e), ap (map (λ u. as_key u.key)) (sym e))
resolve_in-IsResolution installed key (some q) (v ∷ vs) eq e =
    elim (Option-cases (find (has_quant q) (v ∷ vs))) [
      | inr (w, h) ↦
          let (m, t) = find-some (has_quant q) (v ∷ vs) {a = w} h in
          let (m', model) = mem_of_mem-of_model installed key.model w (subst_mem w (sym e) m) in
          rw (h, IsResolution)
            ((m', model, inl (ap is_some eq, quant_eq_iff w.key.quant (some q) t ∙ sym eq)))
      | inl h ↦ rw (h, IsResolution) ((eq, (λ w m same. apart h w m same)))
    ]
  where
    apart :
        find (has_quant q) (v ∷ vs) ≡ none → (w : InstalledVariant) → Memᴰ w installed → w.key ≢ key
    apart h w m same = cc (
      find-none (has_quant q) (v ∷ vs) {a = w} h
          (subst_mem w e (mem-of_model installed key.model w m (ap (λ k. k.model) same))),
      quant_eq_refl w.key.quant (some q) (ap (λ k. k.quant) same ∙ eq),
    )

-- What a Variant key resolves to, for every list of installed Variants and every text. A named
-- quant finds an installed Variant of that model and quant; a bare id finds the model's Variant
-- only if it is the only one. An unknown model is one of which nothing is installed, a quant is
-- reported as not installed only if it is not, and a bare id is ambiguous only if there are two
-- Variants at least, of which the answer names all.
pub resolve_variant-IsResolution :
    (installed : List InstalledVariant) (name : Text)
    → IsResolution installed (parse name) (resolve_variant installed name)
unfolding resolve_variant
resolve_variant-IsResolution installed name =
    resolve_in-IsResolution installed (parse name) (parse name).quant
      (of_model installed (parse name).model) refl refl
