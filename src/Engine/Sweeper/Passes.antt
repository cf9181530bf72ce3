-- ===== src/Engine/Sweeper/Passes.antt =====
-- internal/engine/sweeper.go: one pass, and the calls that it makes.
use remedik.Base.{
  ℕ, suc, ◌+◌, ◌≤◌, ◌≡◌, refl, ap, subst, Bool, true, false, ◌&&◌, List, [], ◌∷◌, String, arith,
  Result, ok, err, ℤ, count, all, leb,
}
use remedik.Api.{Remediation, Strategy}
use remedik.Engine.Effects.{Env, Call, deleted, counted_swept, now, call, log}
use remedik.Engine.Sweeper.{
  Sweeper, candidates, max_deletes_per_sweep, delete_from, finish_sweep, sweep_listed, guard_floor,
  sweep_above, sweep, floor_at,
}
use remedik.Engine.Sweeper.Picks.{due, candidates-due, count-candidates}

-- The calls that delete a record whose name passes a test.
unfoldable pub deletes : (String → Bool) → Call → Bool
deletes p (deleted name) = p name
deletes p _ = false

-- A count of a sweep, where there is one, is within the limit.
unfoldable pub is_within_limit : Call → Bool
is_within_limit (counted_swept n held) = leb n max_deletes_per_sweep
is_within_limit _ = true

named : (String → Bool) → Remediation → Bool
named p r = p r.name

count-all :
    (p q : Remediation → Bool) (rs : List Remediation)
    → all q rs ≡ true
    → count p rs ≡ count (λ r. p r && q r) rs
unfolding all count
count-all p q [] a = refl
count-all p q (r ∷ rs) a = ground (arith, count-all p q rs)

module _ {W : Type 0} where
  delete_from-deletes :
      (s : Sweeper W) (p : String → Bool) (n : ℕ) (rems : List Remediation) (e : Env W)
      → count (deletes p) (delete_from s n rems e).1.trace
        ≤ count (deletes p) e.trace + count (named p) rems
  unfolding delete_from count deletes named
  delete_from-deletes s p n [] e = omega arith
  delete_from-deletes s p n (r ∷ rems) e =
      let tried = (log (deleted r.name) (call (s.client.delete r) e).1).1 in
      ground
        (arith, delete_from-deletes s p n rems tried, delete_from-deletes s p (suc n) rems tried)

  delete_from-limit :
      (s : Sweeper W) (n m : ℕ) (rems : List Remediation) (e : Env W)
      → n ≤ max_deletes_per_sweep
      → (delete_from s n rems e).0 ≡ ok m
      → m ≤ max_deletes_per_sweep
  unfolding delete_from
  delete_from-limit s n m [] e h x = ground (arith, x)
  delete_from-limit s n m (r ∷ rems) e h x =
      let tried = (log (deleted r.name) (call (s.client.delete r) e).1).1 in
      ground (arith, delete_from-limit s n m rems tried, delete_from-limit s (suc n) m rems tried)

  delete_from-within :
      (s : Sweeper W) (n : ℕ) (rems : List Remediation) (e : Env W)
      → all is_within_limit e.trace ≡ true
      → all is_within_limit (delete_from s n rems e).1.trace ≡ true
  unfolding delete_from all is_within_limit
  delete_from-within s n [] e h = h
  delete_from-within s n (r ∷ rems) e h =
      let tried = (log (deleted r.name) (call (s.client.delete r) e).1).1 in
      ground (arith, delete_from-within s n rems tried, delete_from-within s (suc n) rems tried)

  finish_sweep-within :
      (s : Sweeper W) (held : ℕ) (outcome : Result ℕ) (e : Env W)
      → ((m : ℕ) → outcome ≡ ok m → m ≤ max_deletes_per_sweep)
      → all is_within_limit e.trace ≡ true
      → all is_within_limit (finish_sweep s held outcome e).1.trace ≡ true
  unfolding finish_sweep all is_within_limit
  finish_sweep-within s held (err x) e h a = a
  finish_sweep-within s held (ok n) e h a = ground (arith, h n refl)

  finish_sweep-deletes :
      (s : Sweeper W) (p : String → Bool) (held : ℕ) (outcome : Result ℕ) (e : Env W)
      → count (deletes p) (finish_sweep s held outcome e).1.trace ≡ count (deletes p) e.trace
  unfolding finish_sweep count deletes
  finish_sweep-deletes s p held (err x) e = refl
  finish_sweep-deletes s p held (ok n) e = ground arith

  sweep_listed-within :
      (s : Sweeper W) (t floor : ℤ) (listed : Result (List Remediation)) (e : Env W)
      → all is_within_limit e.trace ≡ true
      → all is_within_limit (sweep_listed s t floor listed e).1.trace ≡ true
  unfolding sweep_listed
  sweep_listed-within s t floor (err x) e a = a
  sweep_listed-within s t floor (ok items) e a =
      let out = (candidates s.max_age s.keep_per_strategy t floor items).out in
      finish_sweep-within s _ (delete_from s 0 out e).0 (delete_from s 0 out e).1
        (λ m x. delete_from-limit s 0 m out e (omega arith) x) (delete_from-within s 0 out e a)

  sweep_above-within :
      (s : Sweeper W) (t : ℤ) (floor : Result ℤ) (e : Env W)
      → all is_within_limit e.trace ≡ true
      → all is_within_limit (sweep_above s t floor e).1.trace ≡ true
  unfolding sweep_above call
  sweep_above-within s t (err x) e a = a
  sweep_above-within s t (ok floor) e a =
      let listed = call (s.client.list s.namespace []) e in
      sweep_listed-within s t floor listed.0 listed.1 a

  -- Whatever the API server answers, a sweep reports no more than 200 deletions.
  pub sweep-within :
      (s : Sweeper W) (e : Env W)
      → all is_within_limit e.trace ≡ true
      → all is_within_limit (sweep s e).1.trace ≡ true
  unfolding sweep call now
  sweep-within s e a =
      let answered = call s.client.strategies (now e).1 in
      sweep_above-within s (now e).0 (guard_floor (now e).0 answered.0) answered.1 a

  sweep_listed-deletes :
      (s : Sweeper W) (p : String → Bool) (t floor : ℤ) (listed : Result (List Remediation))
      (items : List Remediation) (e : Env W)
      → listed ≡ ok items
      → count (deletes p) (sweep_listed s t floor listed e).1.trace
        ≤ count (deletes p) e.trace
          + count (λ r. p r.name && due s.max_age s.keep_per_strategy t floor items r) items
  unfolding sweep_listed named
  sweep_listed-deletes s p t floor (err x) items e l = absurd (ground arith)
  sweep_listed-deletes s p t floor (ok found) items e l =
      let same : found ≡ items = ground (arith, l) in
      subst
        (λ rs.
          count (deletes p) (sweep_listed s t floor (ok found) e).1.trace
          ≤ count (deletes p) e.trace
            + count (λ r. p r.name && due s.max_age s.keep_per_strategy t floor rs r) rs)
        same
        (let is_due = due s.max_age s.keep_per_strategy t floor found in
          let picked = candidates s.max_age s.keep_per_strategy t floor found in
          let tried = delete_from s 0 picked.out e in
          omega (
            arith,
            finish_sweep-deletes s p picked.held tried.0 tried.1,
            delete_from-deletes s p 0 picked.out e,
            count-all (named p) is_due picked.out
                (candidates-due s.max_age s.keep_per_strategy t floor found),
            count-candidates s.max_age s.keep_per_strategy t floor (λ r. p r.name && is_due r)
                found,
          ))

  sweep_above-deletes :
      (s : Sweeper W) (p : String → Bool) (t floor : ℤ) (answer : Result ℤ)
      (items : List Remediation) (e : Env W)
      → answer ≡ ok floor
      → (s.client.list s.namespace [] e.world).0 ≡ ok items
      → count (deletes p) (sweep_above s t answer e).1.trace
        ≤ count (deletes p) e.trace
          + count (λ r. p r.name && due s.max_age s.keep_per_strategy t floor items r) items
  unfolding sweep_above call
  sweep_above-deletes s p t floor (err x) items e f l = absurd (ground arith)
  sweep_above-deletes s p t floor (ok found) items e f l =
      let listed = call (s.client.list s.namespace []) e in
      let same : found ≡ floor = ground (arith, f) in
      subst
        (λ x.
          count (deletes p) (sweep_listed s t found listed.0 listed.1).1.trace
          ≤ count (deletes p) e.trace
            + count (λ r. p r.name && due s.max_age s.keep_per_strategy t x items r) items)
        same (sweep_listed-deletes s p t found listed.0 items listed.1 l)

  -- Where the strategies and the records can be listed, a sweep tries to delete only listed records
  -- that the policy reaches: for any test on names, it tries no more deletions of a name that passes
  -- than there are such records. They are terminal, completed no later than the floor of the listed
  -- strategies, and too old, or beyond the count that is kept for their strategy.
  pub sweep-deletes :
      (s : Sweeper W) (p : String → Bool) (strategies : List Strategy) (items : List Remediation)
      (e : Env W)
      → let t = e.clock e.readings in
        let answered = s.client.strategies e.world in
        answered.0 ≡ ok strategies
        → (s.client.list s.namespace [] answered.1).0 ≡ ok items
        → count (deletes p) (sweep s e).1.trace
          ≤ count (deletes p) e.trace
            + count
                (λ r.
                  p r.name && due s.max_age s.keep_per_strategy t (floor_at t strategies) items r)
                items
  unfolding sweep call now guard_floor
  sweep-deletes s p strategies items e a l =
      let t = e.clock e.readings in
      let answered = call s.client.strategies (now e).1 in
      sweep_above-deletes s p t (floor_at t strategies) (guard_floor t answered.0) items answered.1
        (ap (guard_floor t) a) l
