-- ===== src/Engine/Sink/Consume/Pauses.antt =====
-- internal/engine/sink.go: what a paused or a dry sink starts.
use text.Mathlib.Text.{◌==◌ as str_eq}
use remedik.Base.{
  ◌≡◌, refl, ◌∙◌, String, Bool, true, false, not, Option, none, some, List, [], ◌∷◌, arith, Result,
  ok, err, ℤ, count, if◌then◌else◌, ◌⊎◌, inl, inr, Text,
}
use remedik.Base.Assoc
use remedik.Base.Assoc.{string_eq}
use remedik.Alert.{Alert, label}
use remedik.Matching.{Rule, select}
use remedik.Guards.{Decision}
use remedik.Action.Targets.{Target}
use remedik.Api.{Strategy, label_gave_up}
use remedik.Engine.Effects.{Env, Call, created, counted_rejection, now, log, call, remember}
use remedik.Engine.Posture.{dry_run_for}
use remedik.Engine.Sink.{
  Sink, record_of, give_up_record, execution_mode, needs_approval, target_of, approval_deadline,
  rules, by_name,
}
use remedik.Engine.Sink.Consume.{
  submit, create_with, create, start, after_create, refuse, tell_rejection, record_give_up,
  gave_up_recently, gave_up_in, give_up_once, decide, consider, guarded, tell_manual, with_strategy,
  with_rule, consume_one, consume_all, consume_listed, consume,
}

-- A request to create a record that would act on the cluster: one that is not a report that remedik
-- gave up, and not a dry run.
abbrev pub goes_live : Call → Bool
goes_live (created rem taken) =
    if str_eq (label rem.labels label_gave_up) "true" then false else not rem.spec.dry_run
goes_live _ = false

-- remedik is paused, or its posture is a dry run in every namespace.
abbrev pub Held : {W : Type 0} → Sink W → Type 0
Held k = (k.paused ≡ true) ⊎ ((namespace : String) → dry_run_for k.posture namespace ≡ true)

module _ {W : Type 0} (k : Sink W) where
  dry_record :
      (a : Alert) (s : Strategy) (t : Target) (deadline : Option ℤ)
      → Held k
      → (record_of k a s t deadline).spec.dry_run ≡ true
  unfolding record_of
  dry_record a s t deadline (inl p) = ground arith
  dry_record a s t deadline (inr p) = ground (arith, p t.namespace)

  create-Held :
      (a : Alert) (s : Strategy) (t : Target) (b : Bool) (e : Env W)
      → Held k
      → count goes_live (create_with k a s t b e).1.trace ≡ count goes_live e.trace
  unfolding create_with submit log call now count
  create-Held a s t false e h = ground (arith, dry_record a s t none h)
  create-Held a s t true e h =
      ground (arith, dry_record a s t (some (approval_deadline s (e.clock e.readings))) h)

  start-Held :
      (a : Alert) (s : Strategy) (t : Target) (e : Env W)
      → Held k
      → count goes_live (start k a s t e).1.trace ≡ count goes_live e.trace
  unfolding start after_create create now remember log count
  start-Held a s t e h =
      ground (arith, create-Held a s t (needs_approval (execution_mode s.mode)) e h)

  give_up-Held :
      (a : Alert) (s : Strategy) (t : Target) (why : Text) (e : Env W)
      → count goes_live (record_give_up k a s t why e).1.trace ≡ count goes_live e.trace
  unfolding record_give_up gave_up_recently gave_up_in give_up_once submit give_up_record log call
      now count Assoc.get
  give_up-Held a s t why e = ground arith

  refuse-Held :
      (a : Alert) (s : Strategy) (t : Target) (d : Decision) (e : Env W)
      → count goes_live (refuse k a s t d e).1.trace ≡ count goes_live e.trace
  unfolding refuse tell_rejection log count
  refuse-Held a s t d e =
      let told = (tell_rejection k s d (log (counted_rejection s.name d.guard) e).1).1 in
      ground (arith, give_up-Held a s t d.reason told)

  consider-Held :
      (a : Alert) (s : Strategy) (e : Env W)
      → Held k
      → count goes_live (consider k a s e).1.trace ≡ count goes_live e.trace
  unfolding consider decide tell_manual log now count
  consider-Held a s e h =
      let e' = (now e).1 in
      let t = target_of k.registry a s in
      ground (arith, start-Held a s t e' h, refuse-Held a s t (guarded k s t (now e).0 e') e')

  with_strategy-Held :
      (a : Alert) (o : Option Strategy) (e : Env W)
      → Held k
      → count goes_live (with_strategy k a o e).1.trace ≡ count goes_live e.trace
  unfolding with_strategy
  with_strategy-Held a none e h = refl
  with_strategy-Held a (some s) e h = consider-Held a s e h

  with_rule-Held :
      (a : Alert) (m : List (String × Strategy)) (o : Option Rule) (e : Env W)
      → Held k
      → count goes_live (with_rule k a m o e).1.trace ≡ count goes_live e.trace
  unfolding with_rule log count
  with_rule-Held a m none e h = refl
  with_rule-Held a m (some r) e h = with_strategy-Held a (Assoc.get m r.name) e h

  consume_one-Held :
      (a : Alert) (rs : List Rule) (m : List (String × Strategy)) (e : Env W)
      → Held k
      → count goes_live (consume_one k a rs m e).1.trace ≡ count goes_live e.trace
  unfolding consume_one
  consume_one-Held a rs m e h = ground (arith, with_rule-Held a m (select a rs) e h)

  consume_all-Held :
      (alerts : List Alert) (rs : List Rule) (m : List (String × Strategy)) (e : Env W)
      → Held k
      → count goes_live (consume_all k alerts rs m e).1.trace ≡ count goes_live e.trace
  unfolding consume_all
  consume_all-Held [] rs m e h = refl
  consume_all-Held (a ∷ alerts) rs m e h =
      consume_all-Held alerts rs m (consume_one k a rs m e).1 h ∙ consume_one-Held a rs m e h

  consume_listed-Held :
      (alerts : List Alert) (listed : Result (List Strategy)) (e : Env W)
      → Held k
      → count goes_live (consume_listed k alerts listed e).1.trace ≡ count goes_live e.trace
  unfolding consume_listed
  consume_listed-Held alerts (err x) e h = refl
  consume_listed-Held alerts (ok ss) e h = consume_all-Held alerts (rules ss) (by_name ss []) e h

  -- A sink that is paused, or whose posture is a dry run in every namespace, asks for no record that
  -- would act on the cluster, whatever alerts a delivery holds; records of giving up aside.
  pub consume-Held :
      (alerts : List Alert) (e : Env W)
      → Held k
      → count goes_live (consume k alerts e).1.trace ≡ count goes_live e.trace
  unfolding consume call
  consume-Held alerts e h =
      let listed = call k.client.strategies e in consume_listed-Held alerts listed.0 listed.1 h
