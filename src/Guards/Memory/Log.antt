-- ===== src/Guards/Memory/Log.antt =====
-- The in-memory history of internal/guards/memory.go against a plain log of the events that it was
-- told of: recorded starts, recorded completions and prunings, in any order.
use remedik.Base.{◌≡◌, refl, subst, ◌∙◌, String, List, [], ◌∷◌, ℤ, neg, add, count, keep}
use mathlib.Core.Path.{fun_ext}
use remedik.Base.Assoc
use remedik.Base.Assoc.{Eq, string_eq, pair_eq}
use remedik.Guards.Memory.{
  MemoryHistory, new_memory_history, record_start, record_completion, prune, starts_since,
  completions_since, last_completion, times,
}
use remedik.Guards.Memory.Slices.{is_from, first_from-count}
use remedik.Guards.Memory.Latest.{IsLatest, last_time-IsLatest}
use remedik.Guards.Memory.Holds.{
  Holds, tally, entry_from, append-Holds, prune-Holds, times-IsSorted,
}

pub data Event : Type 0 where
  start : String → ℤ → Event
  completion : String → String → ℤ → Event
  pruning : ℤ → Event

unfoldable pub tell : MemoryHistory → Event → MemoryHistory
tell h (start strategy t) = record_start h strategy t
tell h (completion strategy target t) = record_completion h strategy target t
tell h (pruning now) = prune h now

unfoldable pub replay : MemoryHistory → List Event → MemoryHistory
replay h [] = h
replay h (e ∷ es) = replay (tell h e) es

-- The abstract view: two bags of entries, kept as lists.
pub record Log : Type 0 where
  pub started : List (String × ℤ)
  pub completed : List ((String × String) × ℤ)

abbrev pub no_entries : Log
no_entries = record { started = []; completed = [] }

unfoldable pub note : ℤ → Log → Event → Log
note retention l (start strategy t) = record l { started = (strategy, t) ∷ l.started }
note retention l (completion strategy target t) = record l {
  completed = ((strategy, target), t) ∷ l.completed;
}
note retention l (pruning now) =
    let cutoff = add now (neg retention) in
    record {
      started = keep (entry_from cutoff) l.started;
      completed = keep (entry_from cutoff) l.completed;
    }

unfoldable pub note_all : ℤ → Log → List Event → Log
note_all retention l [] = l
note_all retention l (e ∷ es) = note_all retention (note retention l e) es

pub record Refines (h : MemoryHistory) (retention : ℤ) (l : Log) : Type 0 where
  pub kept_for : h.retention ≡ retention
  pub starts_hold : Holds h.starts l.started
  pub completions_hold : Holds h.completions l.completed

tell-Refines :
    {h : MemoryHistory} {l : Log} (r : ℤ) (e : Event)
    → Refines h r l
    → Refines (tell h e) r (note r l e)
unfolding tell note record_start record_completion prune
tell-Refines r (start strategy t) v = record {
  kept_for = v.kept_for;
  starts_hold = append-Holds strategy t v.starts_hold;
  completions_hold = v.completions_hold;
}
tell-Refines r (completion strategy target t) v = record {
  kept_for = v.kept_for;
  starts_hold = v.starts_hold;
  completions_hold = append-Holds (strategy, target) t v.completions_hold;
}
tell-Refines {h} {l} r (pruning now) v = record {
  kept_for = v.kept_for;
  starts_hold =
      subst (λ x. Holds (prune h now).starts (keep (entry_from (add now (neg x))) l.started))
        v.kept_for (prune-Holds _ v.starts_hold);
  completions_hold =
      subst (λ x. Holds (prune h now).completions (keep (entry_from (add now (neg x))) l.completed))
        v.kept_for (prune-Holds _ v.completions_hold);
}

replay-Refines :
    (r : ℤ) (es : List Event) (h : MemoryHistory) (l : Log)
    → Refines h r l
    → Refines (replay h es) r (note_all r l es)
unfolding replay note_all
replay-Refines r [] h l v = v
replay-Refines r (e ∷ es) h l v = replay-Refines r es (tell h e) (note r l e) (tell-Refines r e v)

new-Refines : (r : ℤ) → Refines (new_memory_history r) (new_memory_history r).retention no_entries
unfolding new_memory_history times tally count Assoc.get
new-Refines r = record {
  kept_for = refl;
  starts_hold = record { unique = tt; sorted = tt; counted = λ k p. refl };
  completions_hold = record { unique = tt; sorted = tt; counted = λ k p. refl };
}

-- The log after the events, from the empty history.
abbrev pub logged : ℤ → List Event → Log
logged r es = note_all (new_memory_history r).retention no_entries es

abbrev pub remembered : ℤ → List Event → MemoryHistory
remembered r es = replay (new_memory_history r) es

remembered-Refines :
    (r : ℤ) (es : List Event)
    → Refines (remembered r es) (new_memory_history r).retention (logged r es)
remembered-Refines r es = replay-Refines _ es _ _ (new-Refines r)

-- After any sequence of recorded starts, recorded completions (in any order of their instants) and
-- prunings, `StartsSince` is the number of logged starts of the strategy at or after `since`.
pub starts_since-tally :
    (r : ℤ) (es : List Event) (strategy : String) (since : ℤ)
    → starts_since (remembered r es) strategy since
      ≡ tally (is_from since) strategy (logged r es).started
unfolding starts_since
starts_since-tally r es strategy since =
    let v = remembered-Refines r es in
    first_from-count (times (remembered r es).starts strategy) since
      (times-IsSorted _ strategy v.starts_hold.sorted)
    ∙ v.starts_hold.counted strategy (is_from since)

-- After any sequence of recorded starts, recorded completions and prunings, `CompletionsSince` is
-- the number of logged completions of the strategy on the target at or after `since`.
pub completions_since-tally :
    (r : ℤ) (es : List Event) (strategy target : String) (since : ℤ)
    → completions_since (remembered r es) strategy target since
      ≡ tally (is_from since) (strategy, target) (logged r es).completed
unfolding completions_since
completions_since-tally r es strategy target since =
    let v = remembered-Refines r es in
    first_from-count (times (remembered r es).completions (strategy, target)) since
      (times-IsSorted _ (strategy, target) v.completions_hold.sorted)
    ∙ v.completions_hold.counted (strategy, target) (is_from since)

-- After any sequence of recorded starts, recorded completions and prunings, `LastCompletion` answers an instant at which a completion of the strategy
-- on the target is logged, and after which none is; it answers nothing exactly when none is logged.
pub last_completion-IsLatest :
    (r : ℤ) (es : List Event) (strategy target : String)
    → IsLatest
        (last_completion (remembered r es) strategy target)
        (λ p. tally p (strategy, target) (logged r es).completed)
unfolding last_completion
last_completion-IsLatest r es strategy target =
    let v = (remembered-Refines r es).completions_hold in
    subst (IsLatest (last_completion (remembered r es) strategy target))
      (fun_ext (v.counted (strategy, target)))
      (last_time-IsLatest (times (remembered r es).completions (strategy, target))
        (times-IsSorted _ (strategy, target) v.sorted))
