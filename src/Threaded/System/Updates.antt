-- ===== src/Threaded/System/Updates.antt =====
-- The updates that the workers send for the tasks that they finish, and the board that they lead to.
use real_time_system_project.Workers.{Worker, looking, holding, ended}
use real_time_system_project.Common.{
  ℕ, ◌≡◌, refl, ap, sym, ◌∙◌, Bool, true, false, ◌&&◌, not, List, [], ◌∷◌, ◌++◌, map, Option, none,
  some, Text, Result, if◌then◌else◌, get_elem?, set,
}
use real_time_system_project.Time.{Instant}
use real_time_system_project.Event.{Event, Task}
use real_time_system_project.Histogram.{Histogram}
use real_time_system_project.Watchdog.{is_stale}
use real_time_system_project.FailSafe.{is_degraded, tick}
use real_time_system_project.Leaderboard.{LbCmd, update, snapshot, Counts, increment, sort_desc}
use real_time_system_project.Leaderboard
use real_time_system_project.Leaderboard.Snapshots.{run-append, map-append}
use real_time_system_project.Threaded.Heap.{BinaryHeap}
use real_time_system_project.Threaded.PriorityQueue.{PriorityQueue, pop}
use real_time_system_project.Threaded.Parser.{QueueState, dispatch}
use real_time_system_project.Admission.{Log}
use real_time_system_project.Threaded.System.{
  Step, parse, work, check, ticks, lead, cancel, System, found, finish_task, move, after_recv,
  after_dispatch, step, run,
}

module _ (std : BinaryHeap) (hist : Histogram) where
  -- the counts of the leaderboard once its actor has taken all that is in the channel
  abbrev pub board_ahead : System std hist → Counts
  board_ahead s = (Leaderboard.run s.board s.channel).1

  abbrev pub names_of : Option Worker → List Text
  names_of none = []
  names_of (some looking) = []
  names_of (some (holding t)) = t.event.server_name ∷ []
  names_of (some ended) = []

  -- The board of what a step returns is ahead of that of `s` by the updates of these names.
  unfoldable pub Ahead : System std hist → List Text → Option (System std hist) → Type 0
  Ahead s names none = Unit
  Ahead s names (some s') = board_ahead s' ≡ (Leaderboard.run (board_ahead s) (map update names)).1

  still :
      (s s' : System std hist) → s'.board ≡ s.board → s'.channel ≡ s.channel → Ahead s [] (some s')
  unfolding Ahead Leaderboard.run
  still s s' b c = rw (b, c) refl

  after_recv-Ahead :
      (s : System std hist) (channel : List LbCmd)
      → s.channel ≡ channel
      → Ahead s [] (some (after_recv std hist s channel))
  unfolding Ahead Leaderboard.run
  after_recv-Ahead s [] h = refl
  after_recv-Ahead s (cmd ∷ channel) h =
      sym (ap (λ c. (Leaderboard.run s.board c).1) h ∙ run-append (cmd ∷ []) channel s.board)

  found-Ahead :
      (s : System std hist) (i : ℕ) (o : Option (Task × PriorityQueue std))
      → Ahead s [] (some (found std hist s i o))
  found-Ahead s i none = still s s refl refl
  found-Ahead s i (some (t, q)) = still s _ refl refl

  Ahead-none : (s : System std hist) (names : List Text) → Ahead s names none
  unfolding Ahead
  Ahead-none s names = tt

  Ahead-one :
      (s s' : System std hist) (name : Text)
      → s'.board ≡ s.board
      → s'.channel ≡ s.channel ++ (update name ∷ [])
      → Ahead s (name ∷ []) (some s')
  unfolding Ahead
  Ahead-one s s' name b c = rw (b, c) (run-append s.channel (update name ∷ []) s.board)

  Ahead-trans :
      (s s' : System std hist) (names more : List Text) (o : Option (System std hist))
      → Ahead s names (some s')
      → Ahead s' more o
      → Ahead s (names ++ more) o
  unfolding Ahead
  Ahead-trans s s' names more none h k = tt
  Ahead-trans s s' names more (some s'') h k =
      k
      ∙ ap (λ m. (Leaderboard.run m (map update more)).1) h
      ∙ sym (run-append (map update names) (map update more) (board_ahead s))
      ∙ ap (λ cmds. (Leaderboard.run (board_ahead s) cmds).1) (sym (map-append names more))

  move-Ahead :
      (s : System std hist) (i : ℕ) (begin finish : Instant) (o : Option Worker)
      → Ahead s (names_of o) (some (move std hist s i begin finish o))
  unfolding move finish_task
  move-Ahead s i begin finish none = still s s refl refl
  move-Ahead s i begin finish (some ended) = still s s refl refl
  move-Ahead s i begin finish (some looking) = stops_or_looks s.cancelled
    where
      stops_or_looks :
          (c : Bool)
          → Ahead s [] (
              some (
                if c
                then record s { workers = set s.workers i ended }
                else found std hist s i (pop std s.queue)))
      stops_or_looks true = still s _ refl refl
      stops_or_looks false = found-Ahead s i (pop std s.queue)
  move-Ahead s i begin finish (some (holding t)) = Ahead-one s _ t.event.server_name refl refl

  module _ {E : Type 0} (from_str : Text → Result E Event) where
    -- the names of the wikis of the tasks that a step, or a run, finishes
    abbrev pub names_in : System std hist → Step → List Text
    names_in s (parse clock raw) = []
    names_in s (work i begin finish) = names_of (get_elem? s.workers i)
    names_in s (check now) = []
    names_in s ticks = []
    names_in s lead = []
    names_in s cancel = []

    abbrev pub finished_names : System std hist → List Step → List Text
    finished_names s [] = []
    finished_names s (e ∷ steps) =
        names_in s e
        ++ elim (step std hist from_str s e) [ none ↦ [] | some s' ↦ finished_names s' steps ]

    step-Ahead :
        (s : System std hist) (e : Step) → Ahead s (names_in s e) (step std hist from_str s e)
    unfolding step
    step-Ahead s (parse clock raw) = dispatched (
        dispatch std from_str (is_degraded hist s.recorded.failsafe) clock raw
          (record { queue = s.queue; shared = s.shared }))
      where
        dispatched :
            (o : Option (QueueState std × Option (Log E)))
            → Ahead s [] (after_dispatch std hist from_str s o)
        dispatched none = Ahead-none s []
        dispatched (some (q, log)) = still s _ refl refl
    step-Ahead s (work i begin finish) = move-Ahead s i begin finish (get_elem? s.workers i)
    step-Ahead s (check now) = checks (not s.cancelled && is_stale s.shared.watchdog now)
      where
        checks :
            (b : Bool)
            → Ahead s [] (some (if b then record s { warnings = s.warnings ++ (now ∷ []) } else s))
        checks true = still s _ refl refl
        checks false = still s _ refl refl
    step-Ahead s ticks = advances s.cancelled
      where
        advances :
            (c : Bool)
            → Ahead s [] (
                some (
                  if c then s else record s {
                    recorded = record s.recorded { failsafe = tick hist s.recorded.failsafe };
                  }))
        advances true = still s _ refl refl
        advances false = still s _ refl refl
    step-Ahead s lead = after_recv-Ahead s s.channel refl
    step-Ahead s cancel = still s _ refl refl

    goes_on :
        (s : System std hist) (names : List Text) (steps : List Step) (o : Option (System std hist))
        → Ahead s names o
        → ((s' : System std hist)
            → Ahead s' (finished_names s' steps) (run std hist from_str s' steps))
        → Ahead s
            (names ++ elim o [ none ↦ [] | some s' ↦ finished_names s' steps ])
            (elim o [ none ↦ none | some s' ↦ run std hist from_str s' steps ])
    goes_on s names steps none h rest = Ahead-none s _
    goes_on s names steps (some s') h rest = Ahead-trans s s' names _ _ h (rest s')

    pub run-Ahead :
        (steps : List Step) (s : System std hist)
        → Ahead s (finished_names s steps) (run std hist from_str s steps)
    unfolding run
    run-Ahead [] s = still s s refl refl
    run-Ahead (e ∷ steps) s =
        goes_on s (names_in s e) steps (step std hist from_str s e) (step-Ahead s e)
          (run-Ahead steps)
