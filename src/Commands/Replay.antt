-- ===== src/Commands/Replay.antt =====
-- cmd/replay/main.go: the lines of a fixture are published one after the other. The JSON reader, the lines that
-- the scanner finds and what the broker answers are arguments.
mod Tests
use mesh_monday.Base.{
  ℕ, ◌+◌, ◌≡◌, ap, refl, arith, inl, inr, Bool-cases, Option-cases, Bool, ◌||◌, List, [], ◌∷◌,
  Option, none, some, Bytes, same, if◌then◌else◌, length,
}

-- `replayLine`, as far as it is published.
pub record ReplayLine : Type 0 where
  pub topic : Bytes
  pub payload_hex : Bytes

-- How the run ends: with the number of messages, or in a panic.
pub data End : Type 0 where
  published : ℕ → End
  decode_failed : Bytes → End
  publish_failed : Bytes → End
  scan_failed : Bytes → End

abbrev pub Sent : Type 0
Sent = List ReplayLine × End

-- `scanner.Err()`
scan_end : Option Bytes → ℕ → Sent
scan_end none n = ([], published n)
scan_end (some e) n = ([], scan_failed e)

-- What the broker answers to the next message, and the answers behind it.
abbrev next_answer : List (Option Bytes) → Option Bytes × List (Option Bytes)
next_answer [] = (none, [])
next_answer (a ∷ answers) = (a, answers)

on_answer : Option Bytes → ReplayLine → Sent → Sent
on_answer none entry (sent, end) = (entry ∷ sent, end)
on_answer (some e) entry rest = ([], publish_failed e)

is_blank : ReplayLine → Bool
is_blank entry = same entry.topic [] || same entry.payload_hex []

module _ (decode : Bytes → Option ReplayLine) (scan_error : Option Bytes) where
  -- A line that was decoded, before the lines that follow it.
  publish : (ℕ → List (Option Bytes) → Sent) → ReplayLine → ℕ → List (Option Bytes) → Sent
  unfolding is_blank on_answer
  publish next entry n answers =
      let (answer, answers') = next_answer answers in
      let skipped = next n answers in
      let sent = on_answer answer entry (next (n + 1) answers') in
      if is_blank entry then skipped else sent

  on_line :
      Bytes → Option ReplayLine → (ℕ → List (Option Bytes) → Sent) → ℕ → List (Option Bytes) → Sent
  unfolding publish
  on_line line none next n answers = ([], decode_failed line)
  on_line line (some entry) next n answers = publish next entry n answers

  replay_from : List Bytes → ℕ → List (Option Bytes) → Sent
  unfolding on_line scan_end
  replay_from [] n answers = scan_end scan_error n
  replay_from (line ∷ lines) n answers = on_line line (decode line) (replay_from lines) n answers

  -- The loop of `main`.
  unfoldable pub replay : List Bytes → List (Option Bytes) → Sent
  unfolding replay_from
  replay lines answers = replay_from lines 0 answers

  -- The number that is printed is that of the messages published.
  abbrev Prints : ℕ → Sent → Type 0
  Prints n (sent, end) = (k : ℕ) → end ≡ published k → k ≡ n + length sent

  on_answer-Prints :
      (n : ℕ) (answer : Option Bytes) (entry : ReplayLine) (rest : Sent)
      → Prints (n + 1) rest
      → Prints n (on_answer answer entry rest)
  unfolding on_answer
  on_answer-Prints n none entry (sent, end) h = λ k e. omega (arith, h k e)
  on_answer-Prints n (some f) entry rest h = λ k e. cc

  on_line-Prints :
      (line : Bytes) (read : Option ReplayLine) (next : ℕ → List (Option Bytes) → Sent)
      → ((n : ℕ) (answers : List (Option Bytes)) → Prints n (next n answers))
      → (n : ℕ) (answers : List (Option Bytes)) → Prints n (on_line line read next n answers)
  unfolding on_line publish
  on_line-Prints line none next h n answers = λ k e. cc
  on_line-Prints line (some entry) next h n answers = elim (Bool-cases (is_blank entry)) [
    | inl e ↦ rw e (h n answers)
    | inr e ↦
        rw e
          (on_answer-Prints n (next_answer answers).0 entry _ (h (n + 1) (next_answer answers).1))
  ]

  scan_end-Prints : (n : ℕ) (failed : Option Bytes) → Prints n (scan_end failed n)
  unfolding scan_end
  scan_end-Prints n none = λ k e. omega (arith, ap count e)
    where
      count : End → ℕ
      count (published m) = m
      count _ = 0
  scan_end-Prints n (some f) = λ k e. cc

  replay_from-Prints :
      (lines : List Bytes) (n : ℕ) (answers : List (Option Bytes))
      → Prints n (replay_from lines n answers)
  unfolding replay_from
  replay_from-Prints [] n answers = scan_end-Prints n scan_error
  replay_from-Prints (line ∷ lines) n answers =
      on_line-Prints line (decode line) (replay_from lines) (replay_from-Prints lines) n answers
