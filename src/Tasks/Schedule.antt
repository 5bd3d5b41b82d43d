-- ===== src/Tasks/Schedule.antt =====
-- The loops of app/src/main.rs that must come to an end: the deadline of the radio's poll, and the
-- writes of a frame to the UART.
use nrf52_unifying.Device.{Device}
use nrf52_unifying.Flash.{Nor}
use nrf52_unifying.Prelude.{
  ℕ, zero, suc, ◌+◌, ◌*◌, ◌≤◌, ◌<◌, ◌≡◌, refl, ap, ◌∙◌, inl, inr, Option, none, some, List, [], ◌∷◌,
  ◌++◌, length, take, drop, take-append-drop, leb, arith, Bool-cases, length-drop, append_assoc,
}
use nrf52_unifying.Prelude.Text.{Bytes}
use nrf52_unifying.Tasks.{Shared, Updater}
use nrf52_unifying.Tasks.Link.{Sent, done, failed, send}
use nrf52_unifying.Tasks.Worker.{Worker, Board, interval, catch_up, poll_if_due}

-- The loop behind a poll, with the clock at each of its tests: it ends at the first test at which
-- the deadline is later than the clock, an interval later for each round.
pub record CatchesUp (times : ℕ → ℕ) (before after : ℕ) : Type 0 where
  pub rounds : ℕ
  pub on_beat : after ≡ before + interval * rounds
  pub ended : times rounds < after
  pub needed : (k : ℕ) → k < rounds → before + interval * k ≤ times k

-- From one test of the loop to the next the clock moves by less than an interval.
abbrev pub IsBrisk : (ℕ → ℕ) → Type 0
IsBrisk times = (k : ℕ) → times (suc k) < times k + interval

catch_up-CatchesUp :
    (rounds : ℕ) (times : ℕ → ℕ) (deadline : ℕ)
    → IsBrisk times
    → times 0 < deadline + rounds
    → CatchesUp times deadline (catch_up rounds times deadline)
unfolding catch_up
catch_up-CatchesUp zero times deadline brisk h = record {
  rounds = 0;
  on_beat = omega arith;
  ended = omega (arith, h);
  needed = λ k l. absurd (omega (arith, l));
}
catch_up-CatchesUp (suc rounds) times deadline brisk h =
    elim (Bool-cases (leb deadline (times 0))) [
      | inr e ↦
          rw (e, catch_up)
            (record {
              rounds = 0;
              on_beat = omega arith;
              ended = ground (arith, e);
              needed = λ k l. absurd (omega (arith, l));
            })
      | inl e ↦
          let n =
            catch_up-CatchesUp rounds (λ k. times (suc k)) (deadline + interval)
              (λ k. brisk (suc k)) (omega (arith, h, brisk 0)) in
          rw (e, catch_up)
            (record {
              rounds = suc n.rounds;
              on_beat = omega (arith, n.on_beat);
              ended = n.ended;
              needed = needed_from n.rounds (ground (arith, e)) n.needed;
            })
    ]
  where
    needed_from :
        (n : ℕ)
        → deadline ≤ times 0
        → ((k : ℕ) → k < n → deadline + interval + interval * k ≤ times (suc k))
        → (k : ℕ) → k < suc n
        → deadline + interval * k ≤ times k
    needed_from n first later zero l = omega (arith, first)
    needed_from n first later (suc k) l = omega (arith, later k (omega (arith, l)))

-- Before the deadline it stays; from then on it catches up with the clock behind the poll.
pub data IsNext (board : Board) (before after : ℕ) : Type 0 where
  early : board.due < before → after ≡ before → IsNext board before after
  polled : before ≤ board.due → CatchesUp board.polled before after → IsNext board before after

module _ {D F U : Type 0} (device : Device D) (nor : Nor F) (updater : Updater U) where
  -- Where the clock, which is read again at each test of the loop behind the poll, moves by less
  -- than an interval from one test to the next, the loop ends: before the radio's deadline it
  -- stays, and from then on it is moved by a whole number of intervals, up to the first test of
  -- the loop at which it is later than the clock.
  pub poll_if_due-IsNext :
      (board : Board) (s : Shared) (w : Worker D F U)
      → IsBrisk board.polled
      → IsNext board w.deadline (poll_if_due device nor updater board s w).deadline
  unfolding poll_if_due
  poll_if_due-IsNext board s w brisk = elim (Bool-cases (leb w.deadline board.due)) [
    | inl due ↦ rw due (
        polled (ground (arith, due))
          (catch_up-CatchesUp (board.polled 0 + 1) board.polled w.deadline brisk (omega arith)))
    | inr later ↦ rw later (early (ground (arith, later)) refl)
  ]

-- Each write takes at least a byte.
abbrev pub TakesSome : List (Option ℕ) → Type 0
TakesSome [] = Unit {0}
TakesSome (none ∷ results) = TakesSome results
TakesSome (some n ∷ results) = (0 < n) × TakesSome results

-- Some write fails.
abbrev pub Fails : List (Option ℕ) → Type 0
Fails [] = ⊥
Fails (none ∷ results) = Unit {0}
Fails (some n ∷ results) = Fails results

-- How the loop over the writes ends, and with what on the wire.
pub data Sends (results : List (Option ℕ)) (frame wire : Bytes) (end : Sent) : Type 0 where
  whole : end ≡ done → wire ≡ frame → Sends results frame wire end
  cut :
      (rest : Bytes)
      → end ≡ failed
      → wire ++ rest ≡ frame
      → Fails results
      → Sends results frame wire end

pub send-Sends :
    (frame : Bytes) (results : List (Option ℕ))
    → TakesSome results
    → length frame ≤ length results
    → Sends results frame (send frame results).0 (send frame results).1
unfolding send
send-Sends [] results t l = whole refl refl
send-Sends (b ∷ bs) [] t l = absurd (omega (arith, l))
send-Sends (b ∷ bs) (none ∷ results) t l = cut (b ∷ bs) refl refl tt
send-Sends (b ∷ bs) (some n ∷ results) t l =
    onto (take n (b ∷ bs)) (drop n (b ∷ bs)) (send (drop n (b ∷ bs)) results).0
      (send (drop n (b ∷ bs)) results).1 (take-append-drop n (b ∷ bs))
      (send-Sends (drop n (b ∷ bs)) results t.1 (omega (arith, length-drop n (b ∷ bs), t.0, l)))
  where
    onto :
        (front back wire : Bytes) (end : Sent)
        → front ++ back ≡ b ∷ bs
        → Sends results back wire end
        → Sends (some n ∷ results) (b ∷ bs) (front ++ wire) end
    onto front back wire end e (whole d w) = whole d (ap (λ (t : Bytes). front ++ t) w ∙ e)
    onto front back wire end e (cut rest d w f) =
        cut rest d (append_assoc front wire rest ∙ ap (λ (t : Bytes). front ++ t) w ∙ e) f
