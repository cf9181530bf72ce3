-- ===== src/Engine/Pause/Polls.antt =====
-- internal/engine/pause.go: the switch after a sequence of polls.
use remedik.Base.{
  String, ◌≡◌, refl, ap, ◌∙◌, Bool, true, false, not, some, List, [], ◌∷◌, ◌++◌, Result, ok, err,
  arith, trim, all,
}
use remedik.Alert.{Labels, label}
use remedik.Engine.Pause.{
  Pause, pause_key, pause_reason_key, is_paused, pause_reason, set, parse_paused, is_not_found,
  poll,
}

-- The polls, one after the other.
unfoldable pub polled : List (Result Labels) → Pause → Pause
polled [] p = p
polled (answer ∷ answers) p = polled answers (poll answer p).0

-- The ConfigMap could neither be read nor is it known to be gone.
unfoldable pub is_unreadable : Result Labels → Bool
is_unreadable (ok data_of) = false
is_unreadable (err e) = not (is_not_found e)

-- What a readable answer says: a missing ConfigMap is no pause.
abbrev pub says_paused : Result Labels → Bool
says_paused (ok data_of) = parse_paused (label data_of pause_key)
says_paused (err e) = false

abbrev pub says_reason : Result Labels → String
says_reason (ok data_of) = trim (label data_of pause_reason_key)
says_reason (err e) = ""

polled-append :
    (before after : List (Result Labels)) (p : Pause)
    → polled (before ++ after) p ≡ polled after (polled before p)
unfolding polled
polled-append [] after p = refl
polled-append (a ∷ before) after p = polled-append before after (poll a p).0

poll-unreadable : (a : Result Labels) (p : Pause) → is_unreadable a ≡ true → (poll a p).0 ≡ p
unfolding is_unreadable poll
poll-unreadable (ok data_of) p h = absurd (cc h)
poll-unreadable (err e) p h = ground (arith, h)

polled-unreadable :
    (answers : List (Result Labels)) (p : Pause)
    → all is_unreadable answers ≡ true
    → polled answers p ≡ p
unfolding polled all
polled-unreadable [] p h = refl
polled-unreadable (a ∷ answers) p h =
    ap (polled answers) (poll-unreadable a p (ground (arith, h)))
    ∙ polled-unreadable answers p (ground (arith, h))

poll-readable :
    (a : Result Labels) (p : Pause)
    → is_unreadable a ≡ false
    → (poll a p).0 ≡ record { paused = says_paused a; reason = some (says_reason a) }
unfolding is_unreadable poll set
poll-readable (ok data_of) p h = refl
poll-readable (err e) p h = ground (arith, h)

-- The switch, and the reason with it, stand where the last answer that could be read put them, whatever
-- was polled before and however many polls failed since.
pub polled-last :
    (before since : List (Result Labels)) (a : Result Labels) (p : Pause)
    → is_unreadable a ≡ false
    → all is_unreadable since ≡ true
    → let now = some (polled (before ++ a ∷ since) p) in
      (is_paused now ≡ says_paused a) × (pause_reason now ≡ says_reason a)
unfolding polled is_paused pause_reason
polled-last before since a p read lost =
    let stands =
      polled-append before (a ∷ since) p
      ∙ polled-unreadable since (poll a (polled before p)).0 lost
      ∙ poll-readable a (polled before p) read in
    (ap (λ q. is_paused (some q)) stands, ap (λ q. pause_reason (some q)) stands)
