-- ===== src/Retention/Order.antt =====
-- The order in which candidates are dropped: byte order of their creation times (retention.rs,
-- the two `sort_by`).
use app_cortex_stt.Common.{ℕ, ◌≡◌, refl, true, false, List, [], ◌∷◌, IsOrder, arith}
use app_cortex_stt.Retention.{text_le, older_first}

text_le_total : (s t : List ℕ) → text_le s t ≡ false → text_le t s ≡ true
unfolding text_le
text_le_total [] t h = cc
text_le_total (x ∷ s) [] h = refl
text_le_total (x ∷ s) (y ∷ t) h = ground (arith, text_le_total s t)

text_le_trans : (s t u : List ℕ) → text_le s t ≡ true → text_le t u ≡ true → text_le s u ≡ true
unfolding text_le
text_le_trans [] t u h k = refl
text_le_trans (x ∷ s) [] u h k = cc
text_le_trans (x ∷ s) (y ∷ t) [] h k = cc
text_le_trans (x ∷ s) (y ∷ t) (z ∷ u) h k = ground (arith, text_le_trans s t u)

pub older_first-IsOrder : IsOrder older_first
unfolding older_first
older_first-IsOrder = record {
  total = λ a b h. text_le_total a.created_at b.created_at h;
  trans = λ a b c h k. text_le_trans a.created_at b.created_at c.created_at h k;
}
