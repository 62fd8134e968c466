-- ===== src/Eval/Kept/Edits.antt =====
-- What a promotion and a change of the reference leave (eval/mod.rs).
use app_cortex_stt.Common.{
  ◌≡◌, ◌≢◌, refl, true, false, ◌&&◌, [], ◌∷◌, Option, none, some, Text, lookup, insert, remove,
  text_key, trim, is_empty, is_none, by_if, arith, lookup_of_remove,
}
use app_cortex_stt.Eval.{
  PendingCapture, EvalSample, Eval, Io, notify, sample_of, promote_found, promote,
}
use app_cortex_stt.Eval.Samples.{update_reference, set_reference}
use app_cortex_stt.Eval.Kept.{Core, Left, notify_if-Core, insert_sample-Core}

pub promote_found-Core :
    (sys : Io) (id now r : Text) (locale : Option Text) (s : Eval) (o : Option PendingCapture)
    → r ≢ []
    → lookup id s.pending ≡ o
    → Core s
    → Left Core (promote_found sys id now r locale s o)
unfolding promote_found
promote_found-Core sys id now r locale s none nonempty h c = c
promote_found-Core sys id now r locale s (some p) nonempty h c =
    by_if (Left Core) (sys.works 1 && is_none (lookup id s.samples)) _ _
      (λ t. by_if (Left Core) (sys.works 2) _ _ (λ deleted. moved) (λ left. kept)) (λ f. c)
  where
    kept : Core (record s { samples = insert id (sample_of p now r locale) s.samples })
    kept = insert_sample-Core s id (sample_of p now r locale) nonempty (c.pending_path id p h) c

    moved : Core (
        notify (record s {
          samples = insert id (sample_of p now r locale) s.samples;
          pending = remove id s.pending;
        }))
    moved = record {
      references = kept.references;
      judged = kept.judged;
      pending_path = λ j q e. c.pending_path j q (lookup_of_remove id j s.pending e);
      sample_path = kept.sample_path;
    }

pub nonempty_of_test : (t : Text) → is_empty t ≡ false → t ≢ []
nonempty_of_test [] h = ground (arith, h)
nonempty_of_test (a ∷ t) h = λ e. ground (arith, e)

pub promote-Core :
    (sys : Io) (id now reference : Text) (locale : Option Text) (s : Eval)
    → Core s
    → Left Core (promote sys id now reference locale s)
unfolding promote
promote-Core sys id now reference locale s c =
    by_if (Left Core) (is_empty (trim reference)) _ _ (λ empty. c)
      (λ given.
        by_if (Left Core) (sys.works 0) _ _
          (λ t.
            promote_found-Core sys id now (trim reference) locale s (lookup id s.pending)
              (nonempty_of_test (trim reference) given) refl c)
          (λ f. c))

pub update_reference-Core :
    (id r : Text) (locale : Option Text) (s : Eval) (o : Option EvalSample)
    → r ≢ []
    → lookup id s.samples ≡ o
    → Core s
    → Left Core (update_reference id r locale s o)
unfolding update_reference
update_reference-Core id r locale s none nonempty h c = c
update_reference-Core id r locale s (some x) nonempty h c =
    notify_if-Core true _ (insert_sample-Core s id _ nonempty (c.sample_path id x h) c)

pub set_reference-Core :
    (sys : Io) (id reference : Text) (locale : Option Text) (s : Eval)
    → Core s
    → Left Core (set_reference sys id reference locale s)
unfolding set_reference
set_reference-Core sys id reference locale s c =
    by_if (Left Core) (is_empty (trim reference)) _ _ (λ empty. c)
      (λ given.
        by_if (Left Core) (sys.works 0) _ _
          (λ t.
            update_reference-Core id (trim reference) locale s (lookup id s.samples)
              (nonempty_of_test (trim reference) given) refl c)
          (λ f. c))
