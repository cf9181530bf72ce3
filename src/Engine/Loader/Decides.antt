-- ===== src/Engine/Loader/Decides.antt =====
-- internal/engine/history.go and internal/guards/guards.go: the guards after a restart.
use remedik.Base.{
  ◌≡◌, sym, ap, subst, ◌∙◌, ◌⊎◌, ◌↔◌, String, true, some, List, [], arith, Result, ok, err, ℕ, Bool,
  ℤ, pos, ◌≤ℤ◌, neg, add, max_duration, count,
}
use remedik.Base.Assoc.{string_eq, pair_eq}
use remedik.Api.{Remediation}
use remedik.Guards.{Config, rate_window, evaluate}
use remedik.Guards.Limits.{Below}
use remedik.Guards.Memory.{as_history, new_memory_history}
use remedik.Guards.Memory.Slices.{is_from}
use remedik.Guards.Memory.Holds.{tally}
use remedik.Guards.Memory.Log.{no_entries, remembered, logged, replay}
use remedik.Guards.Logged.{cooling, evaluate-logged}
use remedik.Engine.Effects.{Env, now, call, remember}
use remedik.Engine.Loader.{Loader, load_listed, load}
use remedik.Engine.Loader.Replays.{
  restart, replay-restart, starts_as, completes_as, since_and, tally-starts, tally-completions,
}

-- The oldest instant that the history keeps when it is pruned at `t`.
abbrev pub oldest_kept : ℤ → ℤ → ℤ
oldest_kept retention t = add t (neg (new_memory_history retention).retention)

-- What lets an execution pass the time guards, counted over the records in the cluster.
abbrev pub RecordsAllow : ℤ → List Remediation → Config → String → String → ℤ → Type 0
RecordsAllow oldest items cfg strategy target t =
    ((cfg.cooldown ≤ℤ pos 0)
      ⊎ (count (completes_as (since_and oldest (cooling cfg.cooldown t)) (strategy, target)) items
          ≡ 0))
    × Below
        (count (starts_as (since_and oldest (is_from (add t (neg rate_window)))) strategy) items)
        cfg.max_per_hour
    × ((cfg.give_up_after.within ≤ℤ pos 0)
        ⊎ Below
            (count
              (completes_as (since_and oldest (is_from (add t (neg cfg.give_up_after.within))))
                (strategy, target))
              items)
            cfg.give_up_after.count)

records-started :
    (retention : ℤ) (items : List Remediation) (t : ℤ) (p : ℤ → Bool) (k : String)
    → tally p k (logged retention (restart items t)).started
      ≡ count (starts_as (since_and (oldest_kept retention t) p) k) items
unfolding tally
records-started retention items t p k =
    tally-starts (new_memory_history retention).retention p k items t no_entries ∙ omega arith

records-completed :
    (retention : ℤ) (items : List Remediation) (t : ℤ) (p : ℤ → Bool) (k : String × String)
    → tally p k (logged retention (restart items t)).completed
      ≡ count (completes_as (since_and (oldest_kept retention t) p) k) items
unfolding tally
records-completed retention items t p k =
    tally-completions (new_memory_history retention).retention p k items t no_entries ∙ omega arith

pub evaluate-restart :
    (retention : ℤ) (items : List Remediation) (t : ℤ) (cfg : Config) (strategy target : String)
    (later : ℤ)
    → cfg.cooldown ≤ℤ max_duration
    → ((evaluate cfg
          (some (as_history (remembered retention (restart items t))))
          strategy
          target
          later).is_allowed
        ≡ true)
      ↔ RecordsAllow (oldest_kept retention t) items cfg strategy target later
evaluate-restart retention items t cfg strategy target later k =
    let (to, from) = evaluate-logged retention (restart items t) cfg strategy target later k in
    let starts =
      records-started retention items t (is_from (add later (neg rate_window))) strategy in
    let ends = λ (p : ℤ → Bool). records-completed retention items t p (strategy, target) in
    let cools = ends (cooling cfg.cooldown later) in
    let helped = ends (is_from (add later (neg cfg.give_up_after.within))) in
    let rests = λ (n : ℕ). (cfg.cooldown ≤ℤ pos 0) ⊎ (n ≡ 0) in
    let few = λ (n : ℕ). Below n cfg.max_per_hour in
    let helps = λ (n : ℕ). (cfg.give_up_after.within ≤ℤ pos 0) ⊎ Below n cfg.give_up_after.count in
    (
      λ a. let (x, y, z) = to a in (subst rests cools x, subst few starts y, subst helps helped z),
      λ b.
          let (x, y, z) = b in
          from (subst rests (sym cools) x, subst few (sym starts) y, subst helps (sym helped) z),
    )

loaded-history :
    {W : Type 0} (l : Loader W) (e : Env W) (items : List Remediation)
    (answer : Result (List Remediation))
    → answer ≡ ok items
    → (load_listed answer e).1.history ≡ replay e.history (restart items (e.clock e.readings))
unfolding load_listed now remember
loaded-history l e items (ok found) listed =
    sym (replay-restart found (e.clock e.readings) e.history)
    ∙ ap (λ x. replay e.history (restart x (e.clock e.readings))) (ground arith)
loaded-history l e items (err x) listed = absurd (ground arith)

-- After a load that could list the records, into a history that was empty, an execution is allowed
-- exactly when three things hold of the records: there is no cooldown or no terminal record of the
-- strategy on the target completed within it; there is no hourly limit or fewer records of the
-- strategy began in the last hour; and there is no give-up limit or fewer completed on the target in
-- its window. Give-up records do not count, nor does what is older than the retention at the load; a
-- record without a start counts from its creation. The cooldown is a Go duration.
pub load-evaluate :
    {W : Type 0} (l : Loader W) (e : Env W) (retention : ℤ) (items : List Remediation)
    (cfg : Config) (strategy target : String) (later : ℤ)
    → (l.client.list l.namespace [] e.world).0 ≡ ok items
    → e.history ≡ new_memory_history retention
    → cfg.cooldown ≤ℤ max_duration
    → ((evaluate cfg (some (as_history (load l e).1.history)) strategy target later).is_allowed
        ≡ true)
      ↔ RecordsAllow (oldest_kept retention (e.clock e.readings)) items cfg strategy target later
unfolding load call
load-evaluate l e retention items cfg strategy target later listed fresh k =
    let t = e.clock e.readings in
    let after_call = record e { world = (l.client.list l.namespace [] e.world).1 } in
    let loaded =
      loaded-history l after_call items _ listed ∙ ap (λ h. replay h (restart items t)) fresh in
    subst
      (λ h.
        ((evaluate cfg (some (as_history h)) strategy target later).is_allowed ≡ true)
        ↔ RecordsAllow (oldest_kept retention t) items cfg strategy target later)
      (sym loaded) (evaluate-restart retention items t cfg strategy target later k)
