-- ===== src/Examples/Sweeping.antt =====
-- The theorems on retention and restarts, on a few records.
use text.Mathlib.Text.{◌==◌ as str_eq}
use remedik.Base.{
  ℕ, ◌+◌, ◌≤◌, ◌≡◌, refl, inl, inr, ◌↔◌, subst, String, Bool, true, ◌&&◌, none, some, List, [], ◌∷◌,
  pos, hour, minute, ◌*◌, count, all, keep, ok, Member, arith, add, ◌+ℤ◌,
}
use remedik.Base.Assoc
use remedik.Api.{Remediation, auto, succeeded, running, is_terminal}
use remedik.Guards.{evaluate}
use remedik.Guards.Memory.{as_history, new_memory_history}
use remedik.Engine.Effects.{Env}
use remedik.Engine.Sink.{guard_config}
use remedik.Engine.Loader.{Loader, started_at, load}
use remedik.Engine.Loader.Decides.{RecordsAllow, oldest_kept, load-evaluate}
use remedik.Engine.Sweeper.{
  Sweeper, longer, widen, completed_at, longest_window, floor_at, group_one, group_from,
  insert_by_completion, sort_by_completion, too_old, too_many, judge, pick, pick_groups, candidates,
  sweep, wrap,
}
use remedik.Engine.Sweeper.Picks.{due}
use remedik.Engine.Sweeper.Passes.{deletes, is_within_limit, sweep-within, sweep-deletes}
use remedik.Engine.Restart.{is_in_order, restart-candidates}
use remedik.Examples.Cluster.{remediation, restart}
use remedik.Examples.Delivering.{strategy}

abbrev finished_at : String → ℕ → Remediation
finished_at name t =
    let r = remediation auto (restart ∷ []) 1 in
    record r {
      name = name;
      creation = pos t;
      status = record r.status {
        state = succeeded;
        started_at = some (pos t);
        completed_at = some (pos (t + minute));
      };
    }

abbrev old : Remediation
old = finished_at "shop-1" hour

abbrev recent : Remediation
recent = finished_at "shop-2" (12 * hour)

abbrev loader : Loader (List Remediation)
loader = record {
  client = record {
    get = λ name w. (ok old, w);
    list = λ namespace labels w. (ok w, w);
    strategies = λ w. (ok (strategy ∷ []), w);
    create = λ rem w. (none, w);
    update_status = λ rem w. (ok rem, w);
    delete = λ rem w. (none, w);
  };
  namespace = "remedik";
}

abbrev holding : List Remediation → Env (List Remediation)
holding rems = record {
  world = rems;
  clock = λ n. pos (12 * hour + n);
  readings = 0;
  history = new_memory_history (pos 0);
  trace = [];
}

abbrev sweeper : Sweeper (List Remediation)
sweeper = record {
  client = loader.client;
  namespace = "remedik";
  max_age = pos (2 * hour);
  keep_per_strategy = pos 3;
  has_metrics = true;
}

abbrev is_old : Remediation → Bool
is_old r = str_eq r.name "shop-1"

abbrev two : List Remediation
two = recent ∷ old ∷ []

-- Still running: it began a minute after its creation.
abbrev in_flight : Remediation
in_flight =
    let r = finished_at "shop-3" (11 * hour) in
    record r {
      status = record r.status {
        state = running;
        started_at = some (pos (11 * hour + minute));
        completed_at = none;
      };
    }

abbrev three : List Remediation
three = in_flight ∷ two

swept_old :
    (r : Remediation)
    → Member r three
    → is_old r ≡ true
    → Member r
        (candidates
          (pos (2 * hour))
          (pos 3)
          (pos (12 * hour))
          (floor_at (pos (12 * hour)) (strategy ∷ []))
          three).out
unfolding candidates pick_groups pick judge group_from group_one sort_by_completion
    insert_by_completion too_old too_many completed_at floor_at longest_window widen longer wrap
    is_terminal Assoc.put Assoc.get add ◌+ℤ◌
swept_old r (inl e) x = absurd (cc (subst (λ q. is_old q ≡ true) e x))
swept_old r (inr (inl e)) x = absurd (cc (subst (λ q. is_old q ≡ true) e x))
swept_old r (inr (inr (inl e))) x = inl e
swept_old r (inr (inr (inr m))) x = absurd m

restart-candidates_example :
    (evaluate
      (guard_config strategy)
      (some (as_history (load loader (holding (in_flight ∷ recent ∷ []))).1.history))
      "restart-web"
      "deployment/shop/web"
      (pos (12 * hour + 5 * minute))).is_allowed
    ≡ (evaluate
        (guard_config strategy)
        (some (as_history (load loader (holding three)).1.history))
        "restart-web"
        "deployment/shop/web"
        (pos (12 * hour + 5 * minute))).is_allowed
unfolding keep all is_in_order is_terminal started_at completed_at longest_window widen longer ◌+ℤ◌
restart-candidates_example =
    restart-candidates loader (holding (in_flight ∷ recent ∷ [])) (holding three) (pos 0)
      (pos (12 * hour)) (pos (12 * hour + 5 * minute)) (pos (2 * hour)) (pos 3) (strategy ∷ [])
      strategy three is_old "deployment/shop/web" swept_old refl (omega arith) (inl refl)
      (omega arith) refl refl refl refl refl

load-evaluate_example :
    ((evaluate
        (guard_config strategy)
        (some (as_history (load loader (holding two)).1.history))
        "restart-web"
        "deployment/shop/web"
        (pos (12 * hour + 5 * minute))).is_allowed
      ≡ true)
    ↔ RecordsAllow
        (oldest_kept (pos 0) (pos (12 * hour)))
        two
        (guard_config strategy)
        "restart-web"
        "deployment/shop/web"
        (pos (12 * hour + 5 * minute))
unfolding guard_config
load-evaluate_example =
    load-evaluate loader (holding two) (pos 0) two (guard_config strategy) "restart-web"
      "deployment/shop/web" (pos (12 * hour + 5 * minute)) refl refl (omega arith)

sweep-within_example : all is_within_limit (sweep sweeper (holding two)).1.trace ≡ true
unfolding all
sweep-within_example = sweep-within sweeper (holding two) refl

sweep-deletes_example :
    count (deletes (str_eq "shop-1")) (sweep sweeper (holding two)).1.trace
    ≤ count (deletes (str_eq "shop-1")) []
      + count
          (λ r.
            str_eq "shop-1" r.name
            && due
                (pos (2 * hour))
                (pos 3)
                (pos (12 * hour))
                (floor_at (pos (12 * hour)) (strategy ∷ []))
                two
                r)
          two
sweep-deletes_example =
    sweep-deletes sweeper (str_eq "shop-1") (strategy ∷ []) two (holding two) refl refl
