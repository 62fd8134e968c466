-- ===== src/Engine/Manager/Reserve.antt =====
-- Making room for a load (engine/manager.rs, `reserve_slot`).
use app_cortex_stt.Common.{
  ℕ, zero, suc, ◌+◌, ◌≡◌, ◌≢◌, ◌≤◌, ◌<◌, refl, sym, ap, ◌∙◌, Bool, true, false, none, some, String,
  lookup, remove, length, ltb, string_key, arith, Bool-cases, Option-cases, inl, inr, ◌⊎◌,
  UniqueKeys, remove-UniqueKeys, length-remove, lookup-remove-none, lookup-remove_self,
  lookup-remove_ne, lookup_of_remove, ltb→lt, ltb-false→le,
}
use app_cortex_stt.Engine.Manager.{
  LoadedModel, EngineManager, lru, remove_model, make_room, reserve_slot,
}
use app_cortex_stt.Engine.Manager.Lru.{IsLru, lru-IsLru, lru-none, lru-nothing, lookup_same_use}

module _ {P F : Type 0} where
  -- A turn of the loop: it stops, or evicts the model of `lru` and goes on.
  make_room-cases :
      (n : ℕ) (id : String) (max : ℕ) (m : EngineManager P F)
      → ((make_room (suc n) id max m ≡ (m, false))
          × ((length m.pools + length m.loading < max) ⊎ (lru id m.pools ≡ none)))
        ⊎ ((k : String) × (t : ℕ) × (max ≤ length m.pools + length m.loading)
            × (lru id m.pools ≡ some (k, t))
            × (make_room (suc n) id max m ≡ ((make_room n id max (remove_model k m)).0, true)))
  unfolding make_room
  make_room-cases n id max m = elim (Bool-cases (ltb (length m.pools + length m.loading) max)) [
    | inl room ↦
        inl (rw (room, make_room) refl, inl (ltb→lt (length m.pools + length m.loading) max room))
    | inr full ↦ elim (Option-cases (lru id m.pools)) [
      | inl absent ↦ inl (rw (full, absent, make_room) refl, inr absent)
      | inr ((k, t), e) ↦ inr (
        k,
        t,
        ltb-false→le (length m.pools + length m.loading) max full,
        e,
        rw (full, e, make_room) refl,
      )
    ]
  ]

  -- What the loop comes to: there is room or nothing is left to evict; it evicts no more than it
  -- must; what it evicts was used no later than what it leaves, and goes with its lock.
  pub record Made (id : String) (max : ℕ) (m : EngineManager P F) (r : EngineManager P F × Bool)
      : Type 0 where
    pub room : (length r.0.pools + length r.0.loading < max) ⊎ (lru id r.0.pools ≡ none)
    pub minimal : r.1 ≡ true → max ≤ suc (length r.0.pools + length r.0.loading)
    pub same : r.1 ≡ false → r.0 ≡ m
    pub cap : r.0.max_loaded_models ≡ m.max_loaded_models
    pub loading : r.0.loading ≡ m.loading
    pub unique : UniqueKeys r.0.pools
    pub survivors :
        (j : String) (v : LoadedModel P) → lookup j r.0.pools ≡ some v → lookup j m.pools ≡ some v
    pub own : lookup id r.0.pools ≡ lookup id m.pools
    pub oldest :
        (k j : String) (v w : LoadedModel P)
        → lookup k m.pools ≡ some v
        → lookup k r.0.pools ≡ none
        → j ≢ id
        → lookup j r.0.pools ≡ some w
        → v.last_used ≤ w.last_used
    pub locks : (j : String) → lookup j m.load_locks ≡ none → lookup j r.0.load_locks ≡ none
    pub unlocked :
        (k : String) (v : LoadedModel P)
        → lookup k m.pools ≡ some v
        → lookup k r.0.pools ≡ none
        → lookup k r.0.load_locks ≡ none

  Made-of_stop :
      (id : String) (max : ℕ) (m : EngineManager P F)
      → UniqueKeys m.pools
      → (length m.pools + length m.loading < max) ⊎ (lru id m.pools ≡ none)
      → Made id max m (m, false)
  Made-of_stop id max m u why = record {
    room = why;
    minimal = λ e. cc;
    same = λ e. refl;
    cap = refl;
    loading = refl;
    unique = u;
    survivors = λ j v h. h;
    own = refl;
    oldest = λ k j v w held gone d left. cc (held, gone);
    locks = λ j h. h;
    unlocked = λ k v held gone. cc (held, gone);
  }

  Made-of_turn :
      (id : String) (max : ℕ) (m : EngineManager P F) (k : String) (t : ℕ)
      (r : EngineManager P F × Bool)
      → UniqueKeys m.pools
      → max ≤ length m.pools + length m.loading
      → IsLru id m.pools k t
      → Made id max (remove_model k m) r
      → Made id max m (r.0, true)
  unfolding remove_model
  Made-of_turn id max m k t r u full found made = record {
    room = made.room;
    minimal = λ e. least_room (Bool-cases r.1);
    same = λ e. cc;
    cap = made.cap;
    loading = made.loading;
    unique = made.unique;
    survivors = λ j v h. lookup_of_remove k j m.pools (made.survivors j v h);
    own = made.own ∙ lookup-remove_ne k id m.pools found.other;
    oldest = λ i j v w held gone d left. elim (string_key.dec_eq k i) [
      | yes same ↦ omega (
        arith,
        found.least j w d (lookup_of_remove k j m.pools (made.survivors j w left)),
        found.used,
        lookup_same_use k i m.pools same found.held held,
      )
      | no other ↦ made.oldest i j v w (lookup-remove_ne k i m.pools other ∙ held) gone d left
    ];
    locks = λ j h. made.locks j (lookup-remove-none j k m.load_locks h);
    unlocked = λ i v held gone. elim (string_key.dec_eq k i) [
      | yes same ↦ made.locks i (
          ap (λ x. lookup x (remove k m.load_locks)) (sym same) ∙ lookup-remove_self k m.load_locks)
      | no other ↦ made.unlocked i v (lookup-remove_ne k i m.pools other ∙ held) gone
    ];
  }
    where
      least_room : (r.1 ≡ true) ⊎ (r.1 ≡ false) → max ≤ suc (length r.0.pools + length r.0.loading)
      least_room (inl more) = made.minimal more
      least_room (inr last) = omega (
        arith,
        full,
        length-remove k m.pools u found.held,
        ap (λ x. length x.pools) (made.same last),
        ap (λ x. length x.loading) (made.same last),
      )

  make_room-Made :
      (n : ℕ) (id : String) (max : ℕ) (m : EngineManager P F)
      → UniqueKeys m.pools
      → length m.pools ≤ n
      → Made id max m (make_room n id max m)
  unfolding make_room remove_model
  make_room-Made zero id max m u enough =
      Made-of_stop id max m u (inr (lru-nothing id m.pools enough))
  make_room-Made (suc n) id max m u enough = elim (make_room-cases n id max m) [
    | inl (stop, why) ↦ rw stop (Made-of_stop id max m u why)
    | inr (k, t, full, found, turn) ↦
        let least = lru-IsLru id m.pools k t u found in
        rw turn (
          Made-of_turn id max m k t (make_room n id max (remove_model k m)) u full least (
            make_room-Made n id max (remove_model k m) (remove-UniqueKeys k m.pools u)
              (omega (arith, enough, length-remove k m.pools u least.held))))
  ]

  pub reserve_slot-Made :
      (id : String) (max : ℕ) (m : EngineManager P F)
      → UniqueKeys m.pools
      → Made id max m (make_room (length m.pools) id max m)
  reserve_slot-Made id max m u = make_room-Made (length m.pools) id max m u (omega arith)

  -- The loop of `reserve_slot` ends with a place for the load, or with no other model loaded. It
  -- evicts only while there is no place, so that it leaves no second place behind; and what it
  -- leaves is unchanged. The map of the pools has no key twice.
  pub reserve_slot-room :
      (id : String) (max : ℕ) (m : EngineManager P F)
      → UniqueKeys m.pools
      → ((length (reserve_slot id max m).0.pools + length m.loading < max)
          ⊎ ((j : String) → j ≢ id → lookup j (reserve_slot id max m).0.pools ≡ none))
        × ((reserve_slot id max m).1 ≡ true
            → max ≤ suc (length (reserve_slot id max m).0.pools + length m.loading))
        × ((reserve_slot id max m).1 ≡ false → (reserve_slot id max m).0.pools ≡ m.pools)
        × ((j : String) (v : LoadedModel P)
            → lookup j (reserve_slot id max m).0.pools ≡ some v
            → lookup j m.pools ≡ some v)
  unfolding reserve_slot
  reserve_slot-room id max m u =
      let made = reserve_slot-Made id max m u in
      (
        elim made.room [
          | inl lt ↦ inl (omega (arith, lt, ap length made.loading))
          | inr alone ↦ inr (λ j. lru-none id (make_room (length m.pools) id max m).0.pools j alone)
        ],
        (λ e. omega (arith, made.minimal e, ap length made.loading)),
        (λ e. ap (λ x. x.pools) (made.same e)),
        made.survivors,
      )

  -- A model that `reserve_slot` evicts is another one than the loading one, its load lock is gone
  -- with it, and no other model that stays was used before it. The map of the pools has no key
  -- twice.
  pub reserve_slot-oldest :
      (id : String) (max : ℕ) (m : EngineManager P F) (k : String) (v : LoadedModel P)
      → UniqueKeys m.pools
      → lookup k m.pools ≡ some v
      → lookup k (reserve_slot id max m).0.pools ≡ none
      → (k ≢ id)
        × (lookup k (reserve_slot id max m).0.load_locks ≡ none)
        × ((j : String) (w : LoadedModel P)
            → j ≢ id
            → lookup j (reserve_slot id max m).0.pools ≡ some w
            → v.last_used ≤ w.last_used)
  unfolding reserve_slot
  reserve_slot-oldest id max m k v u held gone =
      let made = reserve_slot-Made id max m u in
      (
        (λ e. cc (
          made.own,
          ap (λ x. lookup x m.pools) e,
          ap (λ x. lookup x (make_room (length m.pools) id max m).0.pools) e,
          held,
          gone,
        )),
        made.unlocked k v held gone,
        (λ j w d left. made.oldest k j v w held gone d left),
      )
