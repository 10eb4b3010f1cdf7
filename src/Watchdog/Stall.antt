-- ===== src/Watchdog/Stall.antt =====
-- When the watchdog warns.
use real_time_system_project.Common.{
  ap, ◌∙◌, ◌++◌, ◌||◌, Bool, Bool-cases, inl, inr, append-nil, ℕ, ◌+◌, ◌≤◌, ◌<◌, ◌≡◌, ◌↔◌, refl,
  true, false, List, [], ◌∷◌, if◌then◌else◌, arith, ltb, subst, sym,
}
use real_time_system_project.Watchdog.{
  WatchdogState, Round, stale_ns, touch, is_stale, touch_all, run_sync_checker,
}

-- After a heartbeat at `t` the state is stale at `now` exactly when more than ten seconds lie between; a
-- clock reading before `t` is not stale.
pub is_stale-touch_iff :
    (w : WatchdogState) (t now : ℕ) → (is_stale (touch w t) now ≡ true) ↔ (t + stale_ns < now)
unfolding is_stale touch
is_stale-touch_iff w t now = ground arith

-- Heartbeats of a round of which the last is at most ten seconds old.
abbrev pub last_touch : ℕ → List ℕ → ℕ
last_touch last [] = last
last_touch last (t ∷ ts) = last_touch t ts

abbrev pub Fresh : ℕ → List Round → Type 0
Fresh last [] = Unit {0}
Fresh last (r ∷ rounds) =
    (r.now ≤ last_touch last r.touches + stale_ns) × Fresh (last_touch last r.touches) rounds

touch_all-last :
    (w : WatchdogState) (ts : List ℕ) → (touch_all w ts).last_ns ≡ last_touch w.last_ns ts
unfolding touch
touch_all-last w [] = refl
touch_all-last w (t ∷ ts) = touch_all-last (record w { last_ns = t }) ts

-- The checker never warns while the last heartbeat is at most ten seconds old in every round.
pub run_sync_checker-Fresh :
    (w : WatchdogState) (rounds : List Round)
    → Fresh w.last_ns rounds
    → run_sync_checker w rounds ≡ []
unfolding run_sync_checker
run_sync_checker-Fresh w [] h = refl
run_sync_checker-Fresh w (r ∷ rounds) h = ground (
  arith,
  touch_all-last w r.touches,
  run_sync_checker-Fresh (touch_all w r.touches) rounds
      (subst (λ l. Fresh l rounds) (sym (touch_all-last w r.touches)) h.1),
)

-- The heartbeats of all the rounds, in order, and whether one of the rounds is cancelled.
abbrev pub heartbeats : List Round → List ℕ
heartbeats [] = []
heartbeats (r ∷ rounds) = r.touches ++ heartbeats rounds

abbrev pub is_cancelled : List Round → Bool
is_cancelled [] = false
is_cancelled (r ∷ rounds) = r.cancel || is_cancelled rounds

last_touch-append :
    (last : ℕ) (xs ys : List ℕ) → last_touch last (xs ++ ys) ≡ last_touch (last_touch last xs) ys
last_touch-append last [] ys = refl
last_touch-append last (x ∷ xs) ys = last_touch-append x xs ys

-- What the warnings of one round more are.
abbrev pub warning : ℕ → Bool → ℕ → List ℕ
warning last true now = []
warning last false now = if ltb (last + 10_000_000_000) now then now ∷ [] else []

warning_first :
    (w : WatchdogState) (r : Round)
    → run_sync_checker w (r ∷ [])
      ≡ warning (last_touch w.last_ns (r.touches ++ [])) (r.cancel || false) r.now
unfolding run_sync_checker is_stale
warning_first w r = elim (Bool-cases r.cancel) [
  | inl y ↦ rw y refl
  | inr n ↦ rw (n, append-nil r.touches, touch_all-last w r.touches) (ground arith)
]

-- A warning before, or none, stays in front.
after_warning :
    (b : Bool) (now : ℕ) (xs ys zs : List ℕ)
    → xs ≡ ys ++ zs
    → (if b then now ∷ xs else xs) ≡ (if b then now ∷ ys else ys) ++ zs
after_warning true now xs ys zs e = ap (λ l. now ∷ l) e
after_warning false now xs ys zs e = e

-- One round after any others adds a warning exactly if neither it nor a round before it is cancelled and
-- its time lies more than ten seconds after the last of all the heartbeats till then, and no round adds
-- or takes another warning.
pub run_sync_checker_warns :
    (w : WatchdogState) (rounds : List Round) (r : Round)
    → run_sync_checker w (rounds ++ (r ∷ []))
      ≡ run_sync_checker w rounds
        ++ warning
            (last_touch w.last_ns (heartbeats (rounds ++ (r ∷ []))))
            (is_cancelled (rounds ++ (r ∷ [])))
            r.now
unfolding run_sync_checker is_stale
run_sync_checker_warns w [] r = warning_first w r
run_sync_checker_warns w (x ∷ rounds) r =
    let w' = touch_all w x.touches in
    let all = rounds ++ (r ∷ []) in
    let last : last_touch w'.last_ns (heartbeats all)
        ≡ last_touch w.last_ns (x.touches ++ heartbeats all) =
      ap (λ l. last_touch l (heartbeats all)) (touch_all-last w x.touches)
      ∙ sym (last_touch-append w.last_ns x.touches (heartbeats all)) in
    elim (Bool-cases x.cancel) [
      | inl y ↦ rw y refl
      | inr n ↦ rw n (
          after_warning (is_stale w' x.now) x.now _ (run_sync_checker w' rounds) _ (
            run_sync_checker_warns w' rounds r
            ∙ ap (λ l. run_sync_checker w' rounds ++ warning l (is_cancelled all) r.now) last))
    ]
