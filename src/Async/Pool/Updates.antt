-- ===== src/Async/Pool/Updates.antt =====
-- The updates that the workers send, the board that they lead to, and the replies.
use mathlib.Core.Bool.{true≢false}
use real_time_system_project.Common.{
  ℕ, ◌≡◌, refl, ap, sym, ◌∙◌, Bool, true, false, List, [], ◌∷◌, ◌++◌, append-nil, append_assoc, map,
  Option, none, some, Text, Result, if◌then◌else◌, ltb, length, All, arith, get_elem?,
}
use real_time_system_project.Time.{Instant}
use real_time_system_project.Event.{Event}
use real_time_system_project.Histogram.{Histogram}
use real_time_system_project.Leaderboard.{LbCmd, update, snapshot, Counts, sort_desc}
use real_time_system_project.Leaderboard
use real_time_system_project.Leaderboard.Snapshots.{run-append, replies-append, map-append}
use real_time_system_project.Workers.{Worker, looking, holding, ended}
use real_time_system_project.Async.Scheduler.{
  channel_capacity, try_send, process, select, Selection, stop, sleep, take_hi, take_lo,
}
use real_time_system_project.Async.System as AsyncSystem
use real_time_system_project.Async.System.{System, Step, after_recv}
use real_time_system_project.Async.System.Channel as AsyncShutdown
use real_time_system_project.Async.System.Channel.{board_try_send, lead_board}
use real_time_system_project.Async.Pool.{
  Pool, Move, parse, take, finish, ticks, lead, cancel, ask, chosen, take_turn, finish_turn,
  replied, step, run,
}

-- A move that asks for no snapshot.
abbrev pub IsQuiet : Move → Type 0
IsQuiet m = is_ask m ≡ false
  where
    is_ask : Move → Bool
    is_ask ask = true
    is_ask _ = false

-- The name that a worker sends when it finishes, if the channel has room.
abbrev pub name_sent : List LbCmd → Option Worker → List Text
name_sent channel (some (holding t)) =
    if ltb (length channel) channel_capacity then t.event.server_name ∷ [] else []
name_sent channel _ = []

replies-try_send :
    (m : Counts) (channel : List LbCmd) (name : Text)
    → (Leaderboard.run m (try_send channel (update name))).0 ≡ (Leaderboard.run m channel).0
unfolding try_send Leaderboard.run
replies-try_send m channel name = if_room (ltb (length channel) channel_capacity)
  where
    if_room :
        (room : Bool)
        → (Leaderboard.run m (if room then channel ++ (update name ∷ []) else channel)).0
          ≡ (Leaderboard.run m channel).0
    if_room true = replies-append channel (update name ∷ []) m ∙ append-nil _
    if_room false = refl

module _ (hist : Histogram) where
  -- The board and the replies once the actor has taken all that is in the channel.
  abbrev pub board_ahead : Pool hist → Counts
  board_ahead p = AsyncShutdown.board_ahead hist p.base

  abbrev pub replies_ahead : Pool hist → List Counts
  replies_ahead p = p.replies ++ (Leaderboard.run p.base.board p.base.channel).0

  -- A move sends the updates of some names, and no snapshot.
  pub record Follows (p : Pool hist) (names : List Text) (p' : Pool hist) : Type 0 where
    pub board : board_ahead p' ≡ (Leaderboard.run (board_ahead p) (map update names)).1
    pub replies : replies_ahead p' ≡ replies_ahead p

  still :
      (p p' : Pool hist)
      → p'.base.board ≡ p.base.board
      → p'.base.channel ≡ p.base.channel
      → p'.replies ≡ p.replies
      → Follows p [] p'
  unfolding Leaderboard.run
  still p p' b c r = record { board = rw (b, c) refl; replies = rw (b, c, r) refl }

  chosen-Follows : (p : Pool hist) (i : ℕ) (sel : Selection) → Follows p [] (chosen hist p i sel)
  chosen-Follows p i stop = still p _ refl refl refl
  chosen-Follows p i sleep = still p _ refl refl refl
  chosen-Follows p i (take_hi t hi) = still p _ refl refl refl
  chosen-Follows p i (take_lo t lo) = still p _ refl refl refl

  take-Follows : (p : Pool hist) (i : ℕ) (w : Option Worker) → Follows p [] (take_turn hist p i w)
  take-Follows p i none = still p _ refl refl refl
  take-Follows p i (some looking) = chosen-Follows p i (select p.base.cancelled p.base.hi p.base.lo)
  take-Follows p i (some (holding t)) = still p _ refl refl refl
  take-Follows p i (some ended) = still p _ refl refl refl

  finish-Follows :
      (p : Pool hist) (i : ℕ) (begin finished : Instant) (w : Option Worker)
      → Follows p (name_sent p.base.channel w) (finish_turn hist p i begin finished w)
  unfolding process
  finish-Follows p i begin finished none = still p _ refl refl refl
  finish-Follows p i begin finished (some looking) = still p _ refl refl refl
  finish-Follows p i begin finished (some ended) = still p _ refl refl refl
  finish-Follows p i begin finished (some (holding t)) = record {
    board = board_try_send hist p.base t.event.server_name;
    replies =
        ap (λ rs. p.replies ++ rs)
          (replies-try_send p.base.board p.base.channel t.event.server_name);
  }

  lead-Follows :
      (p : Pool hist) (channel : List LbCmd)
      → p.base.channel ≡ channel
      → Follows p [] (record p {
        base = after_recv hist p.base channel;
        replies = p.replies ++ replied hist p.base.board channel;
      })
  unfolding Leaderboard.run
  lead-Follows p [] h = record {
    board = refl;
    replies =
        ap (λ rs. rs ++ (Leaderboard.run p.base.board p.base.channel).0) (append-nil p.replies);
  }
  lead-Follows p (cmd ∷ channel) h = record {
    board = lead_board hist p.base (cmd ∷ channel) h;
    replies =
        append_assoc p.replies _ _
        ∙ ap (λ rs. p.replies ++ rs)
            (sym (replies-append (cmd ∷ []) channel p.base.board)
              ∙ ap (λ c. (Leaderboard.run p.base.board c).0) (sym h));
  }

  -- A snapshot that finds room is answered with the board of all that was sent before it.
  pub ask_replied :
      (p : Pool hist)
      → (board_ahead
            (record p { base = record p.base { channel = p.base.channel ++ (snapshot ∷ []) } })
          ≡ board_ahead p)
        × (replies_ahead
              (record p { base = record p.base { channel = p.base.channel ++ (snapshot ∷ []) } })
            ≡ replies_ahead p ++ (sort_desc (board_ahead p) ∷ []))
  unfolding Leaderboard.run
  ask_replied p = (
    run-append p.base.channel (snapshot ∷ []) p.base.board,
    ap (λ rs. p.replies ++ rs) (replies-append p.base.channel (snapshot ∷ []) p.base.board)
        ∙ sym (append_assoc p.replies _ _),
  )

  module _ {E : Type 0} (from_str : Text → Result E Event) where
    abbrev pub sent : Pool hist → Move → List Text
    sent p (finish i begin finished) = name_sent p.base.channel (get_elem? p.workers i)
    sent p _ = []

    abbrev pub sent_names : Pool hist → List Move → List Text
    sent_names p [] = []
    sent_names p (m ∷ moves) = sent p m ++ sent_names (step hist from_str p m) moves

    tick_same :
        (s : System hist)
        → ((AsyncSystem.step hist from_str s Step.ticks).board ≡ s.board)
          × ((AsyncSystem.step hist from_str s Step.ticks).channel ≡ s.channel)
    unfolding AsyncSystem.step
    tick_same s = ground arith

    step-Follows :
        (p : Pool hist) (m : Move) → IsQuiet m → Follows p (sent p m) (step hist from_str p m)
    unfolding step AsyncSystem.step
    step-Follows p (parse clock raw) q = still p _ refl refl refl
    step-Follows p (take i) q = take-Follows p i (get_elem? p.workers i)
    step-Follows p (finish i begin finished) q =
        finish-Follows p i begin finished (get_elem? p.workers i)
    step-Follows p ticks q = let (b, c) = tick_same p.base in still p _ b c refl
    step-Follows p lead q = lead-Follows p p.base.channel refl
    step-Follows p cancel q = still p _ refl refl refl
    step-Follows p ask q = absurd (true≢false q)

    pub run-Follows :
        (moves : List Move) (p : Pool hist)
        → All IsQuiet moves
        → Follows p (sent_names p moves) (run hist from_str p moves)
    unfolding run
    run-Follows [] p q = still p p refl refl refl
    run-Follows (m ∷ moves) p q =
        let first = step-Follows p m q.0 in
        let rest = run-Follows moves (step hist from_str p m) q.1 in
        let names = sent_names (step hist from_str p m) moves in
        record {
          board =
              rest.board
              ∙ ap (λ b. (Leaderboard.run b (map update names)).1) first.board
              ∙ sym (run-append (map update (sent p m)) (map update names) (board_ahead p))
              ∙ ap (λ cmds. (Leaderboard.run (board_ahead p) cmds).1)
                  (sym (map-append (sent p m) names));
          replies = rest.replies ∙ first.replies;
        }
