-- ===== src/Eval/Owned/Edits.antt =====
-- The audio over a promotion and a change of the reference (eval/mod.rs).
use app_cortex_stt.Common.{
  ◌≡◌, refl, subst, true, ◌&&◌, Option, none, some, Text, lookup, insert, remove, text_key, trim,
  is_empty, is_none, by_if, inl, inr, lookup_of_insert, lookup_of_remove, lookup-remove_self,
  lookup-remove-none,
}
use app_cortex_stt.Eval.{
  PendingCapture, EvalSample, Eval, Io, notify, sample_of, promote_found, promote,
}
use app_cortex_stt.Eval.Samples.{update_reference, set_reference}
use app_cortex_stt.Eval.Kept.{Left}
use app_cortex_stt.Eval.Owned.{HasFile, Paired}

-- The second statement of a promotion, the deletion of the capture, succeeds.
pub promote_found-Paired :
    (sys : Io) (id now r : Text) (locale : Option Text) (s : Eval) (o : Option PendingCapture)
    → lookup id s.pending ≡ o
    → sys.works 2 ≡ true
    → Paired s
    → Left Paired (promote_found sys id now r locale s o)
unfolding promote_found
promote_found-Paired sys id now r locale s none h deletes i = i
promote_found-Paired sys id now r locale s (some p) h deletes i =
    by_if (Left Paired) (sys.works 1 && is_none (lookup id s.samples)) _ _
      (λ t.
        by_if (Left Paired) (sys.works 2) _ (stored, _) (λ deleted. moved)
          (λ left. cc (left, deletes)))
      (λ f. i)
  where
    x : EvalSample
    x = sample_of p now r locale

    stored : Eval
    stored = record s { samples = insert id (sample_of p now r locale) s.samples }

    moved : Paired (
        notify (record s {
          samples = insert id (sample_of p now r locale) s.samples;
          pending = remove id s.pending;
        }))
    moved = record {
      of_pending = λ j q e. i.of_pending j q (lookup_of_remove id j s.pending e);
      of_sample = λ j y e. elim (lookup_of_insert id j x s.samples e) [
        | inl (k, same) ↦ subst (HasFile s.files) k (i.of_pending id p h)
        | inr (d, old) ↦ i.of_sample j y old
      ];
      apart = λ j y e. elim (lookup_of_insert id j x s.samples e) [
        | inl (k, same) ↦
            subst (λ l. lookup l (remove id s.pending) ≡ none) k (lookup-remove_self id s.pending)
        | inr (d, old) ↦ lookup-remove-none j id s.pending (i.apart j y old)
      ];
    }

pub promote-Paired :
    (sys : Io) (id now reference : Text) (locale : Option Text) (s : Eval)
    → sys.works 2 ≡ true
    → Paired s
    → Left Paired (promote sys id now reference locale s)
unfolding promote
promote-Paired sys id now reference locale s deletes i =
    by_if (Left Paired) (is_empty (trim reference)) _ _ (λ empty. i)
      (λ given.
        by_if (Left Paired) (sys.works 0) _ _
          (λ t.
            promote_found-Paired sys id now (trim reference) locale s (lookup id s.pending) refl
              deletes i)
          (λ f. i))

pub update_reference-Paired :
    (id r : Text) (locale : Option Text) (s : Eval) (o : Option EvalSample)
    → lookup id s.samples ≡ o
    → Paired s
    → Left Paired (update_reference id r locale s o)
unfolding update_reference
update_reference-Paired id r locale s none h i = i
update_reference-Paired id r locale s (some x) h i =
    let x' = record x { reference_transcript = r; reference_locale = locale } in
    record {
      of_pending = i.of_pending;
      of_sample = λ j y e. elim (lookup_of_insert id j x' s.samples e) [
        | inl (k, same) ↦ i.of_sample j x (subst (λ l. lookup l s.samples ≡ some x) k h)
        | inr (d, old) ↦ i.of_sample j y old
      ];
      apart = λ j y e. elim (lookup_of_insert id j x' s.samples e) [
        | inl (k, same) ↦ i.apart j x (subst (λ l. lookup l s.samples ≡ some x) k h)
        | inr (d, old) ↦ i.apart j y old
      ];
    }

pub set_reference-Paired :
    (sys : Io) (id reference : Text) (locale : Option Text) (s : Eval)
    → Paired s
    → Left Paired (set_reference sys id reference locale s)
unfolding set_reference
set_reference-Paired sys id reference locale s i =
    by_if (Left Paired) (is_empty (trim reference)) _ _ (λ empty. i)
      (λ given.
        by_if (Left Paired) (sys.works 0) _ _
          (λ t. update_reference-Paired id (trim reference) locale s (lookup id s.samples) refl i)
          (λ f. i))
