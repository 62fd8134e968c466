-- ===== src/Retention/Splits.antt =====
-- What each policy drops and what it keeps (retention.rs, `select_to_delete`).
use mathlib.Core.List.{Perm}
use mathlib.Core.List.Perm
use app_cortex_stt.Common.{
  [], ℕ, suc, ◌↔◌, ◌+◌, ◌-◌, ◌*◌, ◌≡◌, ◌≤◌, ◌<◌, refl, sym, ap, ◌∙◌, true, List, ◌++◌, Text, Option,
  none, some, length, take, drop, filter, sort_by, sort_by-perm, sort_by-IsSorted, length-sort_by,
  length-take, length-drop, take-append-drop, take-le-drop, Memᴰ, Option-cases, mem-map,
  mem_of_mem-map, mem-filter, mem_of_mem-filter, leb, leb→le, arith, Bool-cases, inl, inr, subst,
}
use app_cortex_stt.Retention.{
  Candidate, days, sum_sizes, u64_mod, ids, limit_bytes, older_first, select_excess_by_size,
  select_excess_by_count, select_to_delete, is_older,
}
use app_cortex_stt.Retention.Order.{older_first-IsOrder}
use app_cortex_stt.Retention.Loop.{
  total, is_sized, dropped_count, sum_sizes-total, total-sort_by, total-filter_sized,
  drop_until-take, total-drop_le, lt-total-drop, drop_until_fits,
}

-- Everything in `old` comes no later than everything in `young`.
abbrev pub Precedes : List Candidate → List Candidate → Type 0
Precedes old young = (a b : Candidate) → Memᴰ a old → Memᴰ b young → older_first a b ≡ true

-- `out` is a choice of the oldest among `cs`, with `kept` left over.
pub record OldestOf (cs : List Candidate) (out : List Text) : Type 0 where
  pub dropped : List Candidate
  pub kept : List Candidate
  pub parts : Perm cs (dropped ++ kept)
  pub chosen : out ≡ ids dropped
  pub oldest : Precedes dropped kept

take_oldest :
    (cs : List Candidate) (n : ℕ) (out : List Text)
    → out ≡ ids (take n (sort_by older_first cs))
    → OldestOf cs out
take_oldest cs n out e = record {
  dropped = take n (sort_by older_first cs);
  kept = drop n (sort_by older_first cs);
  parts =
      subst (Perm cs) (sym (take-append-drop n (sort_by older_first cs)))
        (Perm.symm (sort_by-perm older_first cs));
  chosen = e;
  oldest = λ a b ma mb.
      take-le-drop older_first n (sort_by older_first cs)
        (sort_by-IsSorted older_first older_first-IsOrder cs) ma mb;
}

count_taken :
    (cs : List Candidate) (max : ℕ)
    → select_excess_by_count cs max ≡ ids (take (length cs - max) (sort_by older_first cs))
unfolding select_excess_by_count
count_taken cs max = elim (Bool-cases (leb (length cs) max)) [
  | inl fits ↦
      let none_over : 0 ≡ length cs - max = omega (arith, leb→le (length cs) max fits) in
      rw fits (ap (λ n. ids (take n (sort_by older_first cs))) none_over)
  | inr over ↦ rw over
]

-- A count policy drops the oldest candidates, exactly those in excess of `max`, and no more than
-- `max` remain.
pub select_excess_by_count-OldestOf :
    (cs : List Candidate) (max : ℕ)
    → (o : OldestOf cs (select_excess_by_count cs max)) × (length o.dropped ≡ length cs - max)
      × (length o.kept ≤ max)
unfolding take_oldest
select_excess_by_count-OldestOf cs max = (
  take_oldest cs (length cs - max) (select_excess_by_count cs max) (count_taken cs max),
  omega (
    arith,
    length-take (length cs - max) (sort_by older_first cs),
    length-sort_by older_first cs,
  ),
  omega (
    arith,
    length-drop (length cs - max) (sort_by older_first cs),
    length-sort_by older_first cs,
  ),
)

module _ (cs : List Candidate) (limit_mb : ℕ) (bounded : total cs < u64_mod) where
  abbrev sized : List Candidate
  sized = sort_by older_first (filter is_sized cs)

  abbrev excess : ℕ
  excess = dropped_count (limit_bytes limit_mb) (total sized) sized

  total_sized : total sized ≡ total cs
  total_sized = total-sort_by older_first (filter is_sized cs) ∙ total-filter_sized cs

  sum_sized : sum_sizes sized ≡ total sized
  sum_sized = sum_sizes-total sized (omega (arith, total_sized))

  size_taken : select_excess_by_size cs limit_mb ≡ ids (take excess sized)
  unfolding select_excess_by_size
  size_taken = elim (Bool-cases (leb (sum_sizes sized) (limit_bytes limit_mb))) [
    | inl fits ↦ rw fits (
        sym (
          drop_until_fits (limit_bytes limit_mb) (total sized) sized (
            leb→le (total sized) (limit_bytes limit_mb)
              (ap (λ n. leb n (limit_bytes limit_mb)) (sym sum_sized) ∙ fits)))
        ∙ drop_until-take (limit_bytes limit_mb) (total sized) sized)
    | inr over ↦ rw (over, sum_sized) (drop_until-take (limit_bytes limit_mb) (total sized) sized)
  ]

  -- A disk limit looks only at the candidates of known size. It drops the oldest of them, what
  -- remains of them is within the limit, and it would not be if fewer were dropped; the sizes
  -- together are less than 2 ^ 64.
  pub select_excess_by_size-OldestOf :
      (o : OldestOf (filter is_sized cs) (select_excess_by_size cs limit_mb)) × (total o.kept
        ≤ limit_bytes limit_mb)
      × ((m : ℕ)
          → m < length o.dropped
          → limit_bytes limit_mb < total (drop m (o.dropped ++ o.kept)))
  unfolding take_oldest
  select_excess_by_size-OldestOf = (
    take_oldest (filter is_sized cs) excess (select_excess_by_size cs limit_mb) size_taken,
    total-drop_le (limit_bytes limit_mb) sized,
    λ m h.
        rw (take-append-drop excess sized)
          (lt-total-drop (limit_bytes limit_mb) m sized (omega (arith, length-take excess sized))),
  )

module _ (parse_timestamp : List ℕ → Option ℕ) where
  -- The candidate was created more than `n` days before `now`, as far as its timestamp can be read.
  pub record IsPast (n now : ℕ) (c : Candidate) : Type 0 where
    pub created : ℕ
    pub parsed : parse_timestamp c.created_at ≡ some created
    pub past : created + n * 86400 < now

  is_older-IsPast :
      (at n now : ℕ) (c : Candidate)
      → at + n * 86400 ≡ now
      → is_older parse_timestamp at c ≡ true
      → IsPast n now c
  unfolding is_older
  is_older-IsPast at n now c e h = elim (Option-cases (parse_timestamp c.created_at)) [
    | inl unreadable ↦ ground arith
    | inr (ts, read) ↦ record { created = ts; parsed = read; past = ground arith }
  ]

  IsPast-is_older :
      (at n now : ℕ) (c : Candidate)
      → at + n * 86400 ≡ now
      → IsPast n now c
      → is_older parse_timestamp at c ≡ true
  unfolding is_older
  IsPast-is_older at n now c e h = ground arith

  -- The selection by age, of a time that may be a panic.
  abbrev selected : List Candidate → Option ℕ → Option (List Text)
  selected cs cutoff = elim cutoff [
    | none ↦ none
    | some at ↦ some (ids (filter (is_older parse_timestamp at) cs))
  ]

  -- A policy of `n + 1` days, where chrono's subtraction gives the time that is so many days before
  -- `now`, drops the ids of exactly the candidates that are older; one whose timestamp cannot be
  -- read is kept. A policy of no days drops nothing.
  pub select_to_delete-days :
      (minus_days : ℕ → ℕ → Option ℕ) (cs : List Candidate) (n now at : ℕ)
      → minus_days now (suc n) ≡ some at
      → at + suc n * 86400 ≡ now
      → (select_to_delete parse_timestamp minus_days cs (days 0) now ≡ some [])
        × (out : List Text) × (select_to_delete parse_timestamp minus_days cs (days (suc n)) now
            ≡ some out)
        × ((id : Text)
            → Memᴰ id out ↔ ((c : Candidate) × Memᴰ c cs × (id ≡ c.id) × IsPast (suc n) now c))
  unfolding select_to_delete
  select_to_delete-days minus_days cs n now at subtracts from_now = (
    refl,
    ids (filter (is_older parse_timestamp at) cs),
    ap (selected cs) subtracts,
    λ id. (
      (λ m.
          let (c, listed, named) = mem_of_mem-map (λ c. c.id) _ m in
          let (held, older) = mem_of_mem-filter (is_older parse_timestamp at) cs listed in
          (c, held, named, is_older-IsPast at (suc n) now c from_now older)),
      (λ (c, held, named, past).
          subst (λ i. Memᴰ i (ids (filter (is_older parse_timestamp at) cs))) (sym named)
            (mem-map (λ c. c.id) _
              (mem-filter (is_older parse_timestamp at) cs held
                (IsPast-is_older at (suc n) now c from_now past)))),
    ),
  )
