-- ===== src/Guards/Memory.antt =====
-- internal/guards/memory.go: the history kept in memory. A Go map is an association list, and a
-- missing key reads as the empty slice; the lock is left out, since every method holds it whole.
pub mod Search
pub mod Sorted
pub mod Slices
pub mod Holds
pub mod Latest
pub mod Log
use remedik.Base.{
  ℕ, zero, suc, ◌+◌, ◌-◌, String, Bool, true, false, not, ◌&&◌, Option, none, some, List, [], ◌∷◌,
  ◌++◌, ℤ, pos, le_ℤ, neg, hour, add, before, ltb, leb, ◌==◌, ◌*◌, if◌then◌else◌, length, get_or,
  drop,
}
use remedik.Base.Assoc
use remedik.Base.Assoc.{Eq, string_eq, pair_eq}
use remedik.Guards.{History}
use Search.{search}
use Sorted.{sort}

pub record MemoryHistory : Type 0 where
  pub retention : ℤ
  pub completions : List ((String × String) × List ℤ)
  pub starts : List (String × List ℤ)

abbrev default_retention : ℤ
default_retention = pos (24 * hour)

unfoldable pub new_memory_history : ℤ → MemoryHistory
new_memory_history retention = record {
  retention = if le_ℤ retention (pos 0) then default_retention else retention;
  completions = [];
  starts = [];
}

-- The slice under a key; a missing key has the nil slice.
module _ {ℓ} {K : Type ℓ} ⦃e : Eq K⦄ where
  unfoldable pub times : List (K × List ℤ) → K → List ℤ
  times m k = elim (Assoc.get m k) [ none ↦ [] | some ts ↦ ts ]

-- `append`, and a sort where the new instant is before the last one.
unfoldable pub append_time : List ℤ → ℤ → List ℤ
append_time old t =
    let all = old ++ t ∷ [] in
    if ltb 1 (length all) && before t (get_or all (length all - 2) (pos 0)) then sort all else all

unfoldable pub record_start : MemoryHistory → String → ℤ → MemoryHistory
record_start h strategy t = record h {
  starts = Assoc.put h.starts strategy (append_time (times h.starts strategy) t);
}

unfoldable pub record_completion : MemoryHistory → String → String → ℤ → MemoryHistory
record_completion h strategy target t =
    let key : String × String = (strategy, target) in
    record h { completions = Assoc.put h.completions key (append_time (times h.completions key) t) }

pub last_time : List ℤ → Option ℤ
last_time ts = if length ts == 0 then none else some (get_or ts (length ts - 1) (pos 0))

pub last_completion : MemoryHistory → String → String → Option ℤ
unfolding last_time
last_completion h strategy target = last_time (times h.completions (strategy, target))

-- The index of the first entry at or after `since`.
unfoldable pub first_from : List ℤ → ℤ → ℕ
first_from ts since = search (length ts) (λ i. not (before (get_or ts i (pos 0)) since))

pub completions_since : MemoryHistory → String → String → ℤ → ℕ
unfolding first_from
completions_since h strategy target since =
    let ts = times h.completions (strategy, target) in length ts - first_from ts since

pub starts_since : MemoryHistory → String → ℤ → ℕ
unfolding first_from
starts_since h strategy since = let ts = times h.starts strategy in length ts - first_from ts since

-- What the pruning leaves of one slice; `none` where the key is deleted.
unfoldable pub prune_times : ℤ → List ℤ → Option (List ℤ)
prune_times cutoff ts =
    let i = first_from ts cutoff in
    if i == length ts then none else if ltb 0 i then some (drop i ts) else some ts

-- The loop over a map: each key is visited once, and only its own entry changes.
unfoldable pub prune_map {ℓ} : {K : Type ℓ} → ℤ → List (K × List ℤ) → List (K × List ℤ)
prune_map cutoff [] = []
prune_map cutoff ((k, ts) ∷ m) =
    let rest = prune_map cutoff m in
    elim (prune_times cutoff ts) [ none ↦ rest | some kept ↦ (k, kept) ∷ rest ]

unfoldable pub prune : MemoryHistory → ℤ → MemoryHistory
prune h now =
    let cutoff = add now (neg h.retention) in
    record h { starts = prune_map cutoff h.starts; completions = prune_map cutoff h.completions }

total {ℓ} : {K : Type ℓ} → List (K × List ℤ) → ℕ
total [] = 0
total ((k, ts) ∷ m) = length ts + total m

pub len : MemoryHistory → ℕ × ℕ
unfolding total
len h = (total h.starts, total h.completions)

-- `MemoryHistory` implements `History`.
abbrev pub as_history : MemoryHistory → History
as_history h = record {
  last_completion = last_completion h;
  starts_since = starts_since h;
  completions_since = completions_since h;
}
