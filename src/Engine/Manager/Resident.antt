-- ===== src/Engine/Manager/Resident.antt =====
-- How many models have their weights in memory (engine/manager.rs).
use app_cortex_stt.Common.{
  ℕ, ◌+◌, ◌≡◌, ◌≤◌, ◌<◌, refl, sym, ap, ◌∙◌, subst, Option, String, length, string_key, arith,
  UniqueKeys, remove-UniqueKeys, insert-UniqueKeys, length-insert_le, ◌∷◌,
}
use app_cortex_stt.Engine.Manager.{
  EngineManager, LoadedModel, reserved, new, load_begin, load_land, drop_reservation, register,
  reserve_slot,
}
use app_cortex_stt.Engine.Manager.Shrinks.{
  Shrinks, remove_models-Shrinks, unload-Shrinks, touch-Shrinks,
}
use app_cortex_stt.Engine.Manager.Flight.{
  InFlight, repeats, Step, begins, lands, leaves, fails, touches, unloads, removes, registers,
  Reach, here, next, start,
}
use app_cortex_stt.Engine.Manager.Begun.{
  length-without, length-le_remove, insert_and_repeats, load_begin-reserved, reserve_slot-loading,
  reserve_slot-pools, reserve_slot-bound, reserve_slot-max,
}

module _ {P F : Type 0} where
  record Inv (max n : ℕ) (s : InFlight P F) : Type 0 where
    cap : s.manager.max_loaded_models ≡ max
    pools : UniqueKeys s.manager.pools
    loading : UniqueKeys s.manager.loading
    bound : length s.manager.pools + length s.building ≤ n + s.again
    reserved_for : length s.building + length s.landed ≤ length s.manager.loading + s.again

  Shrinks-Inv :
      (max n : ℕ) (s : InFlight P F) (m : EngineManager P F)
      → Inv max n s
      → Shrinks s.manager m
      → Inv max n (record s { manager = m })
  Shrinks-Inv max n s m i h = record {
    cap = h.cap ∙ i.cap;
    pools = h.pools i.pools;
    loading = subst UniqueKeys (sym h.loading) i.loading;
    bound = omega (arith, i.bound, h.fewer);
    reserved_for = omega (arith, i.reserved_for, ap length h.loading);
  }

  begins-Inv :
      (max width n : ℕ) (s : InFlight P F) (id : String) (factory : F)
      → max ≤ n
      → width ≤ n
      → length s.building + length s.landed < width
      → (load_begin id s.manager).1 ≡ reserved factory
      → Inv max n s
      → Inv max n (record {
        manager = (load_begin id s.manager).0;
        building = id ∷ s.building;
        landed = s.landed;
        again = s.again + repeats id s.manager.loading;
      })
  begins-Inv max width n s id factory hm hw few start i =
      let (absent, e) = load_begin-reserved id s.manager factory start in
      let e' : (load_begin id s.manager).0 ≡ (reserve_slot id max s.manager).0 =
        e ∙ ap (λ c. (reserve_slot id c s.manager).0) i.cap in
      let made = ap length (reserve_slot-loading id max s.manager i.pools) in
      let grown = insert_and_repeats id s.manager.loading i.loading in
      subst
        (λ m. Inv max n (record {
          manager = m;
          building = id ∷ s.building;
          landed = s.landed;
          again = s.again + repeats id s.manager.loading;
        }))
        (sym e')
        (record {
          cap = reserve_slot-max id max s.manager i.pools ∙ i.cap;
          pools = reserve_slot-pools id max s.manager i.pools;
          loading =
              subst UniqueKeys (sym (reserve_slot-loading id max s.manager i.pools))
                (insert-UniqueKeys id tt s.manager.loading i.loading);
          bound = omega (
            arith,
            reserve_slot-bound id max width n (length s.building + length s.landed) s.again
                s.manager hm hw i.pools few i.reserved_for absent,
          );
          reserved_for = omega (arith, i.reserved_for, made, grown);
        })

  Step-Inv :
      {max width n : ℕ} {s t : InFlight P F}
      → max ≤ n
      → width ≤ n
      → Step width s t
      → Inv max n s
      → Inv max n t
  unfolding load_land drop_reservation register
  Step-Inv {max} {width} {n} hm hw (begins s id factory few start) i =
      begins-Inv max width n s id factory hm hw few start i
  Step-Inv hm hw (lands s id before after pool now e) i =
      let loaded : LoadedModel _ = record { pool = pool; last_used = now } in
      record {
        cap = i.cap;
        pools = insert-UniqueKeys id loaded s.manager.pools i.pools;
        loading = i.loading;
        bound = omega (
          arith,
          i.bound,
          length-insert_le id loaded s.manager.pools,
          length-without s.building before after id e,
        );
        reserved_for = omega (arith, i.reserved_for, length-without s.building before after id e);
      }
  Step-Inv hm hw (leaves s id before after e) i = record {
    cap = i.cap;
    pools = i.pools;
    loading = remove-UniqueKeys id s.manager.loading i.loading;
    bound = i.bound;
    reserved_for = omega (
      arith,
      i.reserved_for,
      length-le_remove id s.manager.loading i.loading,
      length-without s.landed before after id e,
    );
  }
  Step-Inv hm hw (fails s id before after e) i = record {
    cap = i.cap;
    pools = i.pools;
    loading = remove-UniqueKeys id s.manager.loading i.loading;
    bound = omega (arith, i.bound, length-without s.building before after id e);
    reserved_for = omega (
      arith,
      i.reserved_for,
      length-le_remove id s.manager.loading i.loading,
      length-without s.building before after id e,
    );
  }
  Step-Inv {max} {width} {n} hm hw (touches s id now) i =
      Shrinks-Inv max n s _ i (touch-Shrinks id now s.manager i.pools)
  Step-Inv {max} {width} {n} hm hw (unloads s id) i =
      Shrinks-Inv max n s _ i (unload-Shrinks id s.manager)
  Step-Inv {max} {width} {n} hm hw (removes s ids) i =
      Shrinks-Inv max n s _ i (remove_models-Shrinks ids s.manager)
  Step-Inv hm hw (registers s id factory) i = record {
    cap = i.cap;
    pools = i.pools;
    loading = i.loading;
    bound = i.bound;
    reserved_for = i.reserved_for;
  }

  Reach-Inv :
      {max width n : ℕ} {s t : InFlight P F}
      → max ≤ n
      → width ≤ n
      → Reach width s t
      → Inv max n s
      → Inv max n t
  Reach-Inv hm hw here i = i
  Reach-Inv hm hw (next r st) i = Step-Inv hm hw st (Reach-Inv hm hw r i)

  pub Reach-bound :
      (max width n : ℕ) (idle : Option ℕ) (s : InFlight P F)
      → max ≤ n
      → width ≤ n
      → Reach width (start max idle) s
      → length s.manager.pools + length s.building ≤ n + s.again
  unfolding new
  Reach-bound max width n idle s hm hw r =
      (Reach-Inv hm hw r (record {
        cap = refl;
        pools = tt;
        loading = tt;
        bound = omega arith;
        reserved_for = omega arith;
      })).bound
