-- ===== src/Http/Client/Commands.antt =====
-- The option that switches commands off.
use raspberry_car.Base.{ℕ, ◌≡◌, Bool, true, List, inl, inr, All, Bool-cases, Option-cases}
use raspberry_car.Base.Int.{ℤ}
use raspberry_car.Http.Request.{
  Build, Answer, unknown, command, file, take_, Request, Reply, run_command,
}
use raspberry_car.Http.Client.{
  Server, PluginCommand, answer_take, answer, client_thread, file_plugin, take_filename,
}
use raspberry_car.Http.Client.Every.{client_thread-All}

-- Anything but a command.
abbrev pub IsHarmless : Reply → Type 0
IsHarmless (run_command p) = ⊥
IsHarmless _ = Unit {0}

module _ (s : Server) (saved : PluginCommand) where
  answer_take-Harmless : (p : List ℕ) (n : ℤ) → All IsHarmless (answer_take s saved p n)
  unfolding answer_take
  answer_take-Harmless p n = elim (Option-cases (file_plugin 0 s.outputs)) [
    | inl missing ↦ rw (All, missing) (tt, tt)
    | inr (i, found) ↦ elim (Option-cases (take_filename p)) [
      | inl unnamed ↦ rw (All, found, unnamed) (tt, (tt, tt))
      | inr (name, named) ↦
          rw (All, found, named)
            (elim (Bool-cases (saved i name)) [
              | inl kept ↦ rw kept (tt, (tt, tt))
              | inr lost ↦ rw lost (tt, (tt, tt))
            ])
    ]
  ]

  answer-Harmless :
      s.nocommands ≡ true
      → (a : Answer) (req : Request) (n : ℤ) → All IsHarmless (answer a s saved req n)
  unfolding answer
  answer-Harmless off command req n = rw off (tt, tt)
  answer-Harmless off take_ req n = elim (Option-cases req.parameter) [
    | inl missing ↦ rw missing tt
    | inr (p, found) ↦ rw found (answer_take-Harmless p n)
  ]
  answer-Harmless off file req n = elim (Option-cases s.www_folder) [
    | inl missing ↦ rw (All, missing) (tt, tt)
    | inr (folder, found) ↦ rw found (tt, tt)
  ]
  answer-Harmless off unknown req n = tt
  answer-Harmless off _ req n = (tt, tt)

-- On a server whose commands are switched off, client_thread never calls `command`, whatever the
-- client sends.
pub client_thread-nocommands :
    (build : Build) (s : Server) (saved : PluginCommand) (cheater : Bool) (lines : List (List ℕ))
    → s.nocommands ≡ true
    → All IsHarmless (client_thread build s saved cheater lines)
client_thread-nocommands build s saved cheater lines off =
    client_thread-All s saved IsHarmless (λ n. tt) (answer-Harmless s saved off) build cheater lines
