-- ===== src/Jobs/Evict.antt =====
-- Lemmas on the capacity pass of a sweep (job.rs, `sweep_locked`): which jobs it lists, and what
-- dropping a list of them leaves.
use app_cortex_stt.Common.{
  not_mem_of_absent, ℕ, ◌+◌, ◌-◌, ◌≡◌, ◌≢◌, refl, sym, ap, ◌∙◌, true, List, [], ◌∷◌, String, none,
  some, lookup, remove as map_remove, length, min, Memᴰ, UniqueKeys, arith, lookup-remove_self,
  lookup-remove_ne, lookup-remove-none, length-remove, remove-UniqueKeys, lookup_of_mem, sort_by,
  mem-of_take, mem_of_mem-sort_by, length-take, length-sort_by, string_key, Bool-cases, inl, inr,
  subst, mem_cases, take-UniqueKeys, sort_by-UniqueKeys,
}
use app_cortex_stt.Jobs.{by_creation, Job, Jobs, is_terminal, terminal_ids, oldest, evict}

module _ {R : Type 0} where
  pub lookup-evict-none :
      (id : String) (ids : List (String × ℕ)) (m : Jobs R)
      → lookup id m ≡ none
      → lookup id (evict ids m) ≡ none
  unfolding evict
  lookup-evict-none id [] m h = h
  lookup-evict-none id ((k, ts) ∷ ids) m h =
      lookup-evict-none id ids (map_remove k m) (lookup-remove-none id k m h)

  -- A listed job is gone.
  pub lookup-evict_listed :
      (id : String) (ids : List (String × ℕ)) (m : Jobs R) {ts : ℕ}
      → Memᴰ (id, ts) ids
      → lookup id (evict ids m) ≡ none
  unfolding evict
  lookup-evict_listed id [] m h = elim h [ ]
  lookup-evict_listed id ((k, t) ∷ ids) m (Memᴰ.head e) =
      lookup-evict-none id ids (map_remove k m) (
        subst (λ i. lookup i (map_remove k m) ≡ none) (sym (ap (λ p. p.0) e))
          (lookup-remove_self k m))
  lookup-evict_listed id ((k, t) ∷ ids) m (Memᴰ.tail h) =
      lookup-evict_listed id ids (map_remove k m) h

  -- A job that is not listed stays as it is.
  pub lookup-evict_other :
      (id : String) (ids : List (String × ℕ)) (m : Jobs R)
      → ((ts : ℕ) → ¬ Memᴰ (id, ts) ids)
      → lookup id (evict ids m) ≡ lookup id m
  unfolding evict
  lookup-evict_other id [] m h = refl
  lookup-evict_other id ((k, t) ∷ ids) m h =
      lookup-evict_other id ids (map_remove k m) (λ ts in_rest. h ts (Memᴰ.tail in_rest))
      ∙ lookup-remove_ne k id m (λ e. h t (Memᴰ.head (ap (λ i. (i, t)) (sym e))))

  -- What is listed is a terminal job of the map, with its creation time.
  pub mem_of_terminal_ids :
      (m : Jobs R) {id : String} {ts : ℕ}
      → Memᴰ (id, ts) (terminal_ids m)
      → (j : Job R) × Memᴰ (id, j) m × (is_terminal j.status ≡ true) × (j.created_at ≡ ts)
  unfolding terminal_ids
  mem_of_terminal_ids [] h = elim h [ ]
  mem_of_terminal_ids ((k, j) ∷ m) {id} {ts} h = elim (Bool-cases (is_terminal j.status)) [
    | inl t ↦ elim (mem_cases (subst (Memᴰ (id, ts)) (rw t) h)) [
      | inl e ↦
          let e_id : id ≡ k = ap (λ p. p.0) e in
          let e_ts : ts ≡ j.created_at = ap (λ p. p.1) e in
          (j, Memᴰ.head (ap (λ i. (i, j)) e_id), t, sym e_ts)
      | inr n ↦ let (w, held, over, at) = mem_of_terminal_ids m n in (w, Memᴰ.tail held, over, at)
    ]
    | inr f ↦
        let (w, held, over, at) = mem_of_terminal_ids m (subst (Memᴰ (id, ts)) (rw f) h) in
        (w, Memᴰ.tail held, over, at)
  ]

  -- Every terminal job of the map is listed.
  pub terminal_ids-mem :
      (m : Jobs R) {id : String} (j : Job R)
      → Memᴰ (id, j) m
      → is_terminal j.status ≡ true
      → Memᴰ (id, j.created_at) (terminal_ids m)
  unfolding terminal_ids
  terminal_ids-mem [] j h t = elim h [ ]
  terminal_ids-mem ((k, w) ∷ m) j (Memᴰ.head e) t = elim (Bool-cases (is_terminal w.status)) [
    | inl over ↦ rw over (Memᴰ.head (ap (λ p. (p.0, p.1.created_at)) e))
    | inr f ↦ cc (ap (λ (p : String × Job R). is_terminal p.1.status) e)
  ]
  terminal_ids-mem ((k, w) ∷ m) j (Memᴰ.tail h) t = elim (Bool-cases (is_terminal w.status)) [
    | inl over ↦ rw over (Memᴰ.tail (terminal_ids-mem m j h t))
    | inr f ↦ rw f (terminal_ids-mem m j h t)
  ]

  lookup-terminal_ids-none :
      (id : String) (m : Jobs R) → lookup id m ≡ none → lookup id (terminal_ids m) ≡ none
  unfolding lookup terminal_ids
  lookup-terminal_ids-none id [] h = refl
  lookup-terminal_ids-none id ((k, j) ∷ m) h = ground (arith, lookup-terminal_ids-none id m)

  pub terminal_ids-UniqueKeys : (m : Jobs R) → UniqueKeys m → UniqueKeys (terminal_ids m)
  unfolding terminal_ids
  terminal_ids-UniqueKeys [] u = tt
  terminal_ids-UniqueKeys ((k, j) ∷ m) u =
      ground (arith, lookup-terminal_ids-none k m u.0, terminal_ids-UniqueKeys m u.1)

  -- The listed jobs are distinct, terminal, and in the map.
  pub oldest-UniqueKeys : (target : ℕ) (m : Jobs R) → UniqueKeys m → UniqueKeys (oldest target m)
  unfolding oldest
  oldest-UniqueKeys target m u =
      take-UniqueKeys (length m - target) (sort_by by_creation (terminal_ids m))
        (sort_by-UniqueKeys by_creation (terminal_ids m) (terminal_ids-UniqueKeys m u))

  pub mem_of_oldest :
      (target : ℕ) (m : Jobs R) {id : String} {ts : ℕ}
      → UniqueKeys m
      → Memᴰ (id, ts) (oldest target m)
      → (j : Job R) × (lookup id m ≡ some j) × (is_terminal j.status ≡ true) × (j.created_at ≡ ts)
  unfolding oldest
  mem_of_oldest target m {id} u h =
      let sorted = mem-of_take (length m - target) (sort_by by_creation (terminal_ids m)) h in
      let (j, held, over, at) =
        mem_of_terminal_ids m (mem_of_mem-sort_by by_creation (terminal_ids m) sorted) in
      (j, lookup_of_mem id m u held, over, at)

  pub length-oldest :
      (target : ℕ) (m : Jobs R)
      → length (oldest target m) ≡ min (length m - target) (length (terminal_ids m))
  unfolding oldest
  length-oldest target m = omega (
    arith,
    length-take (length m - target) (sort_by by_creation (terminal_ids m)),
    length-sort_by by_creation (terminal_ids m),
  )

  -- Dropping distinct jobs of the map makes it shorter by their number.
  pub length-evict :
      (ids : List (String × ℕ)) (m : Jobs R)
      → UniqueKeys m
      → UniqueKeys ids
      → ((id : String) (ts : ℕ) → Memᴰ (id, ts) ids → (j : Job R) × (lookup id m ≡ some j))
      → length (evict ids m) + length ids ≡ length m
  unfolding evict
  length-evict [] m um ui h = omega arith
  length-evict ((k, t) ∷ ids) m um ui h =
      let (j, held) = h k t (Memᴰ.head refl) in
      omega (
        arith,
        length-remove k m um held,
        length-evict ids (map_remove k m) (remove-UniqueKeys k m um) ui.1 (λ id ts listed.
            let (w, found) = h id ts (Memᴰ.tail listed) in
            (w, lookup-remove_ne k id m (other id ts listed) ∙ found)),
      )
    where
      other : (id : String) (ts : ℕ) → Memᴰ (id, ts) ids → k ≢ id
      other id ts listed e =
          not_mem_of_absent k ids ui.0 (subst (λ i. Memᴰ (i, ts) ids) (sym e) listed)
