-- ===== src/Eval/Halves.antt =====
-- A promotion that stops half way (eval/mod.rs, `promote`).
use app_cortex_stt.Common.{
  ◌≡◌, true, false, Option, none, some, Text, lookup, text_key, trim, is_empty, lookup-insert_self,
  lookup-remove_self,
}
use app_cortex_stt.Eval.{
  PendingCapture, Eval, Io, promote, promote_found, sample_of, discard_pending, discard_found,
  remove_audio,
}

-- If the capture of a promotion cannot be deleted once the sample is stored, discarding the
-- capture afterwards, with no failure, leaves the sample without its audio.
pub discard_pending-of_promote :
    (s : Eval) (id now reference : Text) (locale : Option Text) (p : PendingCapture) (sys sys' : Io)
    → lookup id s.pending ≡ some p
    → lookup id s.samples ≡ none
    → is_empty (trim reference) ≡ false
    → sys.works 0 ≡ true
    → sys.works 1 ≡ true
    → sys.works 2 ≡ false
    → sys'.works 0 ≡ true
    → sys'.works 1 ≡ true
    → sys'.removes p.audio_path ≡ true
    → let t = (discard_pending sys' id (promote sys id now reference locale s).0).0 in
      (lookup id t.samples ≡ some (sample_of p now (trim reference) locale))
      × (lookup p.audio_path t.files ≡ none)
unfolding promote promote_found discard_pending discard_found remove_audio
discard_pending-of_promote s id now reference locale p sys sys' h k e w0 w1 w2 w0' w1' r =
    rw (e, w0, h, k, w1, w2, w0', h, w1', r)
      (
        lookup-insert_self id (sample_of p now (trim reference) locale) s.samples,
        lookup-remove_self p.audio_path s.files,
      )
