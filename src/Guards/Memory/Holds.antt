-- ===== src/Guards/Memory/Holds.antt =====
-- One map of the in-memory history (starts, or completions) against the plain list of the entries
-- that were written to it.
use remedik.Base.{
  ℕ, suc, ◌≡◌, refl, sym, ap, subst, ◌∙◌, Bool, ◌&&◌, List, [], ◌∷◌, arith, ℤ, count, keep,
  if◌then◌else◌, Bool-cases, inl, inr, Option-cases,
}
use remedik.Base.Assoc
use remedik.Base.Assoc.{Eq, get-put}
use remedik.Guards.Memory.{times, append_time, prune_times, prune_map}
use remedik.Guards.Memory.Sorted.{IsSorted}
use remedik.Guards.Memory.Slices.{
  append_time-IsSorted, count-append_time, is_from, or_empty, prune_times-keep, keep-IsSorted,
  count-keep,
}

module _ {ℓ} {K : Type ℓ} ⦃e : Eq K⦄ where
  -- How many of the written entries have a key, and an instant that passes a test.
  unfoldable pub tally : (ℤ → Bool) → K → List (K × ℤ) → ℕ
  tally p k [] = 0
  tally p k ((j, t) ∷ es) = if e.beq j k && p t then suc (tally p k es) else tally p k es

  abbrev pub Unique : List (K × List ℤ) → Type 0
  Unique [] = Unit
  Unique ((k, ts) ∷ m) = (times m k ≡ []) × Unique m

  abbrev pub AllSorted : List (K × List ℤ) → Type 0
  AllSorted [] = Unit
  AllSorted ((k, ts) ∷ m) = IsSorted ts × AllSorted m

  pub record Holds (m : List (K × List ℤ)) (es : List (K × ℤ)) : Type ℓ where
    pub unique : Unique m
    pub sorted : AllSorted m
    pub counted : (k : K) (p : ℤ → Bool) → count p (times m k) ≡ tally p k es

  pub times-IsSorted : (m : List (K × List ℤ)) (k : K) → AllSorted m → IsSorted (times m k)
  unfolding times Assoc.get
  times-IsSorted [] k s = tt
  times-IsSorted ((j, ts) ∷ m) k s = elim (Bool-cases (e.beq j k)) [
    | inl hit ↦ rw (hit, times, Assoc.get) s.0
    | inr miss ↦ rw (miss, times, Assoc.get) (times-IsSorted m k s.1)
  ]

  times-put :
      (m : List (K × List ℤ)) (k j : K) (ts : List ℤ)
      → times (Assoc.put m k ts) j ≡ (if e.beq k j then ts else times m j)
  unfolding times
  times-put m k j ts = ground (arith, get-put m k j ts)

  put-AllSorted :
      (m : List (K × List ℤ)) (k : K) (ts : List ℤ)
      → IsSorted ts
      → AllSorted m
      → AllSorted (Assoc.put m k ts)
  unfolding Assoc.put
  put-AllSorted [] k ts h s = (h, tt)
  put-AllSorted ((j, us) ∷ m) k ts h s = ground (arith, put-AllSorted m k ts h s.1)

  put-Unique : (m : List (K × List ℤ)) (k : K) (ts : List ℤ) → Unique m → Unique (Assoc.put m k ts)
  unfolding Assoc.put times Assoc.get
  put-Unique [] k ts u = (refl, tt)
  put-Unique ((j, us) ∷ m) k ts u =
      ground (arith, put-Unique m k ts u.1, times-put m k j ts, e.beq_iff j k, e.beq_iff k j)

  -- Recording an instant is adding an entry.
  pub append-Holds :
      {m : List (K × List ℤ)} {es : List (K × ℤ)} (k : K) (t : ℤ)
      → Holds m es
      → Holds (Assoc.put m k (append_time (times m k) t)) ((k, t) ∷ es)
  unfolding tally count
  append-Holds {m} {es} k t h = record {
    unique = put-Unique m k _ h.unique;
    sorted =
        put-AllSorted m k _ (append_time-IsSorted (times m k) t (times-IsSorted m k h.sorted))
          h.sorted;
    counted = λ j p. ground (
      arith,
      times-put m k j (append_time (times m k) t),
      count-append_time p (times m k) t,
      h.counted j p,
      e.beq_iff k j,
    );
  }

  times-prune_map :
      (cutoff : ℤ) (m : List (K × List ℤ)) (k : K)
      → Unique m
      → AllSorted m
      → times (prune_map cutoff m) k ≡ keep (is_from cutoff) (times m k)
  unfolding prune_map times Assoc.get or_empty keep
  times-prune_map cutoff [] k u s = refl
  times-prune_map cutoff ((j, ts) ∷ m) k u s =
      ground
        (arith, times-prune_map cutoff m k u.1 s.1, prune_times-keep cutoff ts s.0, e.beq_iff j k)

  prune_map-Unique :
      (cutoff : ℤ) (m : List (K × List ℤ)) → Unique m → AllSorted m → Unique (prune_map cutoff m)
  unfolding prune_map keep
  prune_map-Unique cutoff [] u s = tt
  prune_map-Unique cutoff ((j, ts) ∷ m) u s = elim (Option-cases (prune_times cutoff ts)) [
    | inl e ↦ rw (e, prune_map) (prune_map-Unique cutoff m u.1 s.1)
    | inr (kept, e) ↦
        rw (e, prune_map)
          (times-prune_map cutoff m j u.1 s.1 ∙ rw u.0 refl, prune_map-Unique cutoff m u.1 s.1)
  ]

  prune_map-AllSorted :
      (cutoff : ℤ) (m : List (K × List ℤ)) → AllSorted m → AllSorted (prune_map cutoff m)
  unfolding prune_map or_empty
  prune_map-AllSorted cutoff [] s = tt
  prune_map-AllSorted cutoff ((j, ts) ∷ m) s = elim (Option-cases (prune_times cutoff ts)) [
    | inl e ↦ rw (e, prune_map) (prune_map-AllSorted cutoff m s.1)
    | inr (kept, e) ↦
        rw (e, prune_map)
          (
            subst IsSorted (sym (prune_times-keep cutoff ts s.0) ∙ rw (e, or_empty) refl)
                (keep-IsSorted cutoff ts s.0),
            prune_map-AllSorted cutoff m s.1,
          )
  ]

  abbrev pub entry_from : ℤ → K × ℤ → Bool
  entry_from cutoff (k, t) = is_from cutoff t

  pub tally-keep :
      (p : ℤ → Bool) (cutoff : ℤ) (k : K) (es : List (K × ℤ))
      → tally p k (keep (entry_from cutoff) es) ≡ tally (λ t. is_from cutoff t && p t) k es
  unfolding tally keep
  tally-keep p cutoff k [] = refl
  tally-keep p cutoff k ((j, t) ∷ es) = ground (arith, tally-keep p cutoff k es)

  -- Pruning is dropping the entries before the cutoff.
  pub prune-Holds :
      {m : List (K × List ℤ)} {es : List (K × ℤ)} (cutoff : ℤ)
      → Holds m es
      → Holds (prune_map cutoff m) (keep (entry_from cutoff) es)
  prune-Holds {m} {es} cutoff h = record {
    unique = prune_map-Unique cutoff m h.unique h.sorted;
    sorted = prune_map-AllSorted cutoff m h.sorted;
    counted = λ k p.
        ap (count p) (times-prune_map cutoff m k h.unique h.sorted)
        ∙ count-keep p (is_from cutoff) (times m k)
        ∙ h.counted k (λ t. is_from cutoff t && p t)
        ∙ sym (tally-keep p cutoff k es);
  }
