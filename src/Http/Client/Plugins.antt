-- ===== src/Http/Client/Plugins.antt =====
-- The plugin numbers that the answers use.
pub mod Thread
pub mod Header
pub mod Negative
use raspberry_car.Base.{
  ℕ, zero, suc, ◌<◌, ◌≡◌, ◌≢◌, refl, sym, ap, ◌∙◌, Bool, true, false, not, ◌&&◌, List, [], ◌∷◌,
  ◌++◌, Option, none, some, ◌⊎◌, inl, inr, if◌then◌else◌, ltb, leb, ◌-◌, length, All, arith,
  Bool-cases, Option-cases,
}
use raspberry_car.Base.Int.{ℤ, pos, negsuc, sub_ℕ, ltb_ℤ}
use raspberry_car.CString.{codes, c_str, strchr, is_digit}
use raspberry_car.Http.Request.{
  Build, Answer, unknown, snapshot, snapshot_wxp, stream, stream_wxp, command, file, cgi, take_,
  input_json, output_json, program_json, clients_json, Request, Reply, send_error, send_snapshot,
  send_stream, send_stream_wxp, run_command, send_input_json, send_output_json, send_program_json,
  send_clients_json, send_file, execute_cgi, take_command, Start, closed, going, start_pictures,
  start_parameter, start_as, start, input_number, wxp_offset, suffix_number, kind,
  command_parameter, has, behind,
}
use raspberry_car.Http.Client.{
  Server, PluginCommand, header_line, read_header, out_of_range, answer_take, answer, dispatch,
  finish, serve, client_thread, may_enter, file_plugin, take_filename, has_case, goes_on,
  user_agent, authorization,
}

-- The number is below the count, and, if `low`, not negative.
abbrev pub Below : Bool → ℕ → ℤ → Type 0
Below low count n =
    (ltb_ℤ n (pos count) ≡ true) × (low ≡ true → (k : ℕ) × (n ≡ pos k) × (k < count))

-- A reply that goes to a plugin names one that is loaded.
abbrev pub Loaded : Bool → Server → Reply → Type 0
Loaded low s (send_snapshot n) = Below low s.incnt n
Loaded low s (send_stream n) = Below low s.incnt n
Loaded low s (send_stream_wxp n) = Below low s.incnt n
Loaded low s (send_input_json n) = Below low s.incnt n
Loaded low s (send_output_json n) = Below low (length s.outputs) n
Loaded low s _ = Unit {0}

-- Where the number counts, it is checked.
abbrev pub Numbered : Bool → Answer → Type 0
Numbered true a = Unit {0}
Numbered false program_json = Unit {0}
Numbered false clients_json = Unit {0}
Numbered false command = Unit {0}
Numbered false file = Unit {0}
Numbered false cgi = Unit {0}
Numbered false unknown = Unit {0}
Numbered false _ = ⊥

Below-pos : (low : Bool) (count k : ℕ) → ltb_ℤ (pos k) (pos count) ≡ true → Below low count (pos k)
Below-pos low count k h = (h, λ e. (k, refl, ground arith))

abbrev pub Natural : Bool → ℤ → Type 0
Natural low n = low ≡ true → (k : ℕ) × (n ≡ pos k)

Below-of :
    (low : Bool) (count : ℕ) (n : ℤ)
    → ltb_ℤ n (pos count) ≡ true
    → Natural low n
    → Below low count n
Below-of low count (pos k) h nat = Below-pos low count k h
Below-of low count (negsuc k) h nat = (h, λ e. absurd (not-negative (nat e)))
  where
    not-negative : (j : ℕ) × (negsuc k ≡ pos j) → ⊥
    not-negative (j, e) = cc

module _ (s : Server) (saved : PluginCommand) (p : List ℕ) (n : ℤ) where
  answer_take-missing :
      file_plugin 0 s.outputs ≡ none → answer_take s saved p n ≡ send_error 404 ∷ []
  unfolding answer_take
  answer_take-missing h = ground arith

  pub answer_take-unnamed :
      (i : ℕ)
      → file_plugin 0 s.outputs ≡ some i
      → take_filename p ≡ none
      → answer_take s saved p n ≡ send_error 404 ∷ send_snapshot n ∷ []
  unfolding answer_take
  answer_take-unnamed i h k = ground arith

  answer_take-named :
      (i : ℕ) (name : List ℕ)
      → file_plugin 0 s.outputs ≡ some i
      → take_filename p ≡ some name
      → answer_take s saved p n
        ≡ take_command i name ∷ (if saved i name then send_snapshot n else send_error 404) ∷ []
  unfolding answer_take
  answer_take-named i name h k = ground arith

pub answer_take-Loaded :
    (low : Bool) (s : Server) (saved : PluginCommand) (p : List ℕ) (n : ℤ)
    → Below low s.incnt n
    → All (Loaded low s) (answer_take s saved p n)
answer_take-Loaded low s saved p n b = elim (Option-cases (file_plugin 0 s.outputs)) [
  | inl missing ↦ rw (answer_take-missing s saved p n missing) (tt, tt)
  | inr (i, found) ↦ elim (Option-cases (take_filename p)) [
    | inl unnamed ↦ rw (answer_take-unnamed s saved p n i found unnamed) (tt, (b, tt))
    | inr (name, named) ↦
        rw (answer_take-named s saved p n i name found named) (elim (Bool-cases (saved i name)) [
          | inl good ↦ rw good (tt, (b, tt))
          | inr bad ↦ rw bad (tt, (tt, tt))
        ])
  ]
]

not-false : (b : Bool) → not b ≡ false → b ≡ true
not-false true h = refl
not-false false h = cc

module _ (low : Bool) (s : Server) (saved : PluginCommand) (req : Request) (n : ℤ)
    (nat : Natural low n) where
  answer-Loaded :
      (a : Answer) → out_of_range s a n ≡ false → All (Loaded low s) (answer a s saved req n)
  unfolding answer out_of_range
  answer-Loaded snapshot_wxp h = (Below-of low s.incnt n (not-false _ h) nat, tt)
  answer-Loaded snapshot h = (Below-of low s.incnt n (not-false _ h) nat, tt)
  answer-Loaded stream h = (Below-of low s.incnt n (not-false _ h) nat, tt)
  answer-Loaded stream_wxp h = (Below-of low s.incnt n (not-false _ h) nat, tt)
  answer-Loaded input_json h = (Below-of low s.incnt n (not-false _ h) nat, tt)
  answer-Loaded output_json h = (Below-of low (length s.outputs) n (not-false _ h) nat, tt)
  answer-Loaded take_ h = elim (Option-cases req.parameter) [
    | inl missing ↦ rw missing tt
    | inr (p, found) ↦
        rw found (answer_take-Loaded low s saved p n (Below-of low s.incnt n (not-false _ h) nat))
  ]
  answer-Loaded command h = elim (Bool-cases s.nocommands) [
    | inl refused ↦ rw refused (tt, tt)
    | inr allowed ↦ rw allowed (tt, tt)
  ]
  answer-Loaded file h = elim (Option-cases s.www_folder) [
    | inl missing ↦ rw missing (tt, tt)
    | inr (folder, found) ↦ rw found (tt, tt)
  ]
  answer-Loaded program_json h = (tt, tt)
  answer-Loaded clients_json h = (tt, tt)
  answer-Loaded cgi h = (tt, tt)
  answer-Loaded unknown h = tt

  answer-unnumbered : (a : Answer) → Numbered false a → All (Loaded low s) (answer a s saved req n)
  unfolding answer
  answer-unnumbered command h = elim (Bool-cases s.nocommands) [
    | inl refused ↦ rw refused (tt, tt)
    | inr allowed ↦ rw allowed (tt, tt)
  ]
  answer-unnumbered file h = elim (Option-cases s.www_folder) [
    | inl missing ↦ rw missing (tt, tt)
    | inr (folder, found) ↦ rw found (tt, tt)
  ]
  answer-unnumbered program_json h = (tt, tt)
  answer-unnumbered clients_json h = (tt, tt)
  answer-unnumbered cgi h = (tt, tt)
  answer-unnumbered unknown h = tt
  answer-unnumbered _ h = absurd h

  pub dispatch-Loaded :
      (suffixed : Bool)
      → Numbered suffixed req.type_
      → All (Loaded low s) (dispatch s saved suffixed req n)
  unfolding dispatch
  dispatch-Loaded true h = elim (Bool-cases (out_of_range s req.type_ n)) [
    | inl out ↦ rw out (tt, tt)
    | inr inside ↦ rw inside (answer-Loaded req.type_ inside)
  ]
  dispatch-Loaded false h = answer-unnumbered req.type_ h
