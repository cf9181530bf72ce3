-- ===== src/Engine/Restart.antt =====
-- internal/engine/sweeper.go and internal/engine/history.go together: a sweep, then a restart.
use remedik.Base.{
  ℕ, ◌≡◌, refl, sym, subst, ◌⊎◌, inl, inr, ◌↔◌, String, Bool, true, false, not, none, some, List,
  [], ◌∷◌, ℤ, pos, ◌≤ℤ◌, ◌<ℤ◌, ◌+ℤ◌, +ℤ_parts, neg, add, hour, after, arith, if◌then◌else◌, count,
  keep, all, Member, ok, max_duration,
}
use remedik.Base.Assoc.{string_eq, pair_eq}
use remedik.Api.{Remediation, Strategy, is_terminal}
use remedik.Guards.{Config, rate_window, evaluate}
use remedik.Guards.Limits.{Below}
use remedik.Guards.Memory.{as_history, new_memory_history}
use remedik.Guards.Memory.Slices.{is_from}
use remedik.Guards.Logged.{cooling}
use remedik.Engine.Effects.{Env}
use remedik.Engine.Sink.{guard_config}
use remedik.Engine.Loader.{Loader, started_at, completed_on_target, load}
use remedik.Engine.Loader.Replays.{starts_as, completes_as, since_and}
use remedik.Engine.Loader.Decides.{RecordsAllow, oldest_kept, load-evaluate}
use remedik.Engine.Sweeper.{completed_at, longest_window, floor_at, floor_margin, candidates}
use remedik.Engine.Sweeper.Floor.{floor_at-le, longest_window-Covers}
use remedik.Engine.Sweeper.Picks.{due, candidates-due, count-candidates}

-- A record that has ended began no later than it was completed, or than it was created where no
-- completion is recorded; of a record that has not ended nothing is asked.
unfoldable pub is_in_order : Remediation → Bool
is_in_order r =
    let ordered : Bool = elim (started_at r) [
      | none ↦ true
      | some b ↦ not (after b (completed_at r))
    ] in
    if is_terminal r.status.state then ordered else true

module _ (floor : ℤ) (r : Remediation) where
  quiet_start :
      (oldest since : ℤ) (k : String)
      → after (completed_at r) floor ≡ false
      → is_terminal r.status.state ≡ true
      → is_in_order r ≡ true
      → floor <ℤ since
      → starts_as (since_and oldest (is_from since)) k r ≡ false
  unfolding starts_as is_in_order
  quiet_start oldest since k old over order h = ground arith

  quiet_end :
      (oldest : ℤ) (p : ℤ → Bool) (k : String × String)
      → after (completed_at r) floor ≡ false
      → ((c : ℤ) → c ≤ℤ floor → p c ≡ false)
      → completes_as (since_and oldest p) k r ≡ false
  unfolding completes_as completed_on_target completed_at
  quiet_end oldest p k old h = ground (arith, h (completed_at r))

count-gone :
    (q gone : Remediation → Bool) (items : List Remediation)
    → ((r : Remediation) → Member r items → gone r ≡ true → q r ≡ false)
    → count q (keep (λ r. not (gone r)) items) ≡ count q items
unfolding count keep
count-gone q gone [] h = refl
count-gone q gone (r ∷ items) h =
    ground (arith, count-gone q gone items (λ s m. h s (inr m)), h r (inl refl))

Member-all :
    (p : Remediation → Bool) (r : Remediation) (rs : List Remediation)
    → all p rs ≡ true
    → Member r rs
    → p r ≡ true
unfolding all
Member-all p r [] a m = absurd m
Member-all p r (s ∷ rs) a (inl e) = subst (λ x. p x ≡ true) (sym e) (ground (arith, a))
Member-all p r (s ∷ rs) a (inr m) = Member-all p r rs (ground (arith, a)) m

all-none :
    (p : Remediation → Bool) (rs : List Remediation)
    → (all p rs ≡ true) ↔ (count (λ r. not (p r)) rs ≡ 0)
unfolding all count
all-none p [] = (λ x. refl, λ x. refl)
all-none p (r ∷ rs) = (λ x. ground (arith, x, all-none p rs), λ x. ground (arith, x, all-none p rs))

-- What the swept records have in common.
abbrev Spent : ℤ → Remediation → Type 0
Spent floor r =
    (after (completed_at r) floor ≡ false)
    × (is_terminal r.status.state ≡ true)
    × (is_in_order r ≡ true)

before_since :
    (floor d t later : ℤ)
    → floor +ℤ d +ℤ floor_margin ≤ℤ t
    → t ≤ℤ later
    → floor <ℤ add later (neg d)
unfolding add
before_since floor d t later h l =
    ground (arith, +ℤ_parts floor d, +ℤ_parts (floor +ℤ d) floor_margin, +ℤ_parts later (neg d))

not_cooling :
    (floor d t later c : ℤ)
    → floor +ℤ d +ℤ floor_margin ≤ℤ t
    → t ≤ℤ later
    → c ≤ℤ floor
    → cooling d later c ≡ false
unfolding add
not_cooling floor d t later c h l k =
    ground (arith, +ℤ_parts floor d, +ℤ_parts (floor +ℤ d) floor_margin, +ℤ_parts c d)

not_from : (floor since c : ℤ) → floor <ℤ since → c ≤ℤ floor → is_from since c ≡ false
not_from floor since c h k = ground arith

module _ (floor t later : ℤ) (cfg : Config) (gone : Remediation → Bool) (items : List Remediation)
    (spent : (r : Remediation) → Member r items → gone r ≡ true → Spent floor r)
    (l : t ≤ℤ later) where
  abbrev left : List Remediation
  left = keep (λ r. not (gone r)) items

  same_ends :
      (oldest : ℤ) (p : ℤ → Bool) (k : String × String)
      → ((c : ℤ) → c ≤ℤ floor → p c ≡ false)
      → count (completes_as (since_and oldest p) k) left
        ≡ count (completes_as (since_and oldest p) k) items
  same_ends oldest p k h =
      count-gone (completes_as (since_and oldest p) k) gone items
        (λ r m g. quiet_end floor r oldest p k (spent r m g).0 h)

  same_starts :
      (oldest since : ℤ) (k : String)
      → floor <ℤ since
      → count (starts_as (since_and oldest (is_from since)) k) left
        ≡ count (starts_as (since_and oldest (is_from since)) k) items
  same_starts oldest since k h =
      count-gone (starts_as (since_and oldest (is_from since)) k) gone items (λ r m g.
        quiet_start floor r oldest since k (spent r m g).0 (spent r m g).1 (spent r m g).2 h)

  same_rate :
      (oldest : ℤ) (strategy : String)
      → (cfg.max_per_hour ≤ℤ pos 0) ⊎ (floor +ℤ pos hour +ℤ floor_margin ≤ℤ t)
      → let since = add later (neg rate_window) in
        Below (count (starts_as (since_and oldest (is_from since)) strategy) left) cfg.max_per_hour
        ↔ Below
            (count (starts_as (since_and oldest (is_from since)) strategy) items)
            cfg.max_per_hour
  same_rate oldest strategy (inl off) = (λ x. inl off, λ x. inl off)
  same_rate oldest strategy (inr on) =
      let since = add later (neg rate_window) in
      let same = same_starts oldest since strategy (before_since floor rate_window t later on l) in
      (
        λ x. subst (λ n. Below n cfg.max_per_hour) same x,
        λ x. subst (λ n. Below n cfg.max_per_hour) (sym same) x,
      )

  same_RecordsAllow :
      (oldest : ℤ) (strategy target : String)
      → floor +ℤ cfg.cooldown +ℤ floor_margin ≤ℤ t
      → (cfg.max_per_hour ≤ℤ pos 0) ⊎ (floor +ℤ pos hour +ℤ floor_margin ≤ℤ t)
      → floor +ℤ cfg.give_up_after.within +ℤ floor_margin ≤ℤ t
      → RecordsAllow oldest left cfg strategy target later
        ↔ RecordsAllow oldest items cfg strategy target later
  same_RecordsAllow oldest strategy target c h g =
      let within = cfg.give_up_after.within in
      let k : String × String = (strategy, target) in
      let cools =
        same_ends oldest (cooling cfg.cooldown later) k
          (λ e x. not_cooling floor cfg.cooldown t later e c l x) in
      let since = before_since floor within t later g l in
      let helped =
        same_ends oldest (is_from (add later (neg within))) k
          (λ e x. not_from floor (add later (neg within)) e since x) in
      let rests = λ (n : ℕ). (cfg.cooldown ≤ℤ pos 0) ⊎ (n ≡ 0) in
      let helps = λ (n : ℕ). (within ≤ℤ pos 0) ⊎ Below n cfg.give_up_after.count in
      let (to, from) = same_rate oldest strategy h in
      (
        λ a. (subst rests cools a.0, to a.1, subst helps helped a.2),
        λ a. (subst rests (sym cools) a.0, from a.1, subst helps (sym helped) a.2),
      )

candidate-Spent :
    (max_age keep_per_strategy t floor : ℤ) (items : List Remediation)
    → all is_in_order items ≡ true
    → (r : Remediation) → Member r (candidates max_age keep_per_strategy t floor items).out
    → Spent floor r
unfolding due
candidate-Spent max_age keep_per_strategy t floor items order r m =
    let out = (candidates max_age keep_per_strategy t floor items).out in
    let is_due =
      Member-all (due max_age keep_per_strategy t floor items) r out
        (candidates-due max_age keep_per_strategy t floor items) m in
    let fewer =
      count-candidates max_age keep_per_strategy t floor (λ q. not (is_in_order q)) items in
    let zero_left = (all-none is_in_order items).0 order in
    let ordered = (all-none is_in_order out).1 (omega (arith, fewer, zero_left)) in
    (ground (arith, is_due), ground (arith, is_due), Member-all is_in_order r out ordered m)

same_answer : (a b : Bool) {P Q : Type 0} → (a ≡ true) ↔ P → (b ≡ true) ↔ Q → P ↔ Q → a ≡ b
same_answer true true p q e = refl
same_answer false false p q e = refl
same_answer true false p q e = sym (q.1 (e.0 (p.0 refl)))
same_answer false true p q e = p.1 (e.1 (q.0 refl))

-- A sweep forgets nothing that the guards go by. Records `gone`, each a candidate of a sweep at `t`
-- over the listed strategies and records, are deleted; then two restarts with the same retention, at
-- the same instant, one from the records that are left and one from all of them, answer alike to every
-- later question about a listed strategy, on whatever target. The conditions: no record that has ended
-- began after its completion (after its creation, where no completion is recorded); no window is within two hours of the longest Go duration, and the question
-- is asked no earlier than the sweep. Nothing is asked of a record that has not ended.
pub restart-candidates :
    {W : Type 0} (loader : Loader W) (e e' : Env W)
    (retention t later max_age keep_per_strategy : ℤ) (ss : List Strategy) (s : Strategy)
    (items : List Remediation) (gone : Remediation → Bool) (target : String)
    → ((r : Remediation)
        → Member r items
        → gone r ≡ true
        → Member r (candidates max_age keep_per_strategy t (floor_at t ss) items).out)
    → all is_in_order items ≡ true
    → longest_window (pos 0) ss +ℤ floor_margin ≤ℤ max_duration
    → Member s ss
    → t ≤ℤ later
    → (loader.client.list loader.namespace [] e.world).0 ≡ ok (keep (λ r. not (gone r)) items)
    → (loader.client.list loader.namespace [] e'.world).0 ≡ ok items
    → e.history ≡ new_memory_history retention
    → e'.history ≡ new_memory_history retention
    → e.clock e.readings ≡ e'.clock e'.readings
    → (evaluate
        (guard_config s)
        (some (as_history (load loader e).1.history))
        s.name
        target
        later).is_allowed
      ≡ (evaluate
          (guard_config s)
          (some (as_history (load loader e').1.history))
          s.name
          target
          later).is_allowed
restart-candidates loader e e' retention t later max_age keep_per_strategy ss s items gone target
      swept order small listed l left all_of fresh fresh' same =
    let floor = floor_at t ss in
    let cfg = guard_config s in
    let (c, h, g) = floor_at-le t ss s small listed in
    let covered = longest_window-Covers (pos 0) ss s (omega arith) listed in
    let bounded : cfg.cooldown ≤ℤ max_duration =
      omega (arith, covered.0, small, +ℤ_parts (longest_window (pos 0) ss) floor_margin) in
    let spent = λ (r : Remediation) (m : Member r items) (x : gone r ≡ true).
      candidate-Spent max_age keep_per_strategy t floor items order r (swept r m x) in
    let kept =
      load-evaluate loader e retention (keep (λ r. not (gone r)) items) cfg s.name target later left
        fresh bounded in
    let whole =
      load-evaluate loader e' retention items cfg s.name target later all_of fresh' bounded in
    let alike =
      same_RecordsAllow floor t later cfg gone items spent l
        (oldest_kept retention (e'.clock e'.readings)) s.name target c h g in
    same_answer _ _
      (subst
        (λ x.
          ((evaluate cfg (some (as_history (load loader e).1.history)) s.name target
              later).is_allowed
            ≡ true)
          ↔ RecordsAllow (oldest_kept retention x) (keep (λ r. not (gone r)) items) cfg s.name
              target later)
        same kept)
      whole alike
