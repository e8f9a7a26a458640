-- ===== src/Main.antt =====
-- mjpg_streamer.c: the command line, the loading of the plugins, and the end of the program.
pub mod Words
pub mod Stop
pub mod Resolutions
pub mod Tests
use raspberry_car.Base.{
  ℕ, zero, suc, ◌+◌, Bool, true, false, ◌||◌, List, [], ◌∷◌, ◌++◌, map, Option, none, some, ltb,
  leb, ◌==◌, if◌then◌else◌, length,
}
use raspberry_car.CString.{codes, span, strchr}

abbrev pub max_plugins : ℕ
max_plugins = 10

abbrev pub max_plugin_arguments : ℕ
max_plugin_arguments = 32

-- `argc`, and `argv` from its second entry on; the first one is left to the plugin.
pub record Arguments : Type 0 where
  pub argc : ℕ
  pub argv : List (List ℕ)

-- A token that is not empty is handed out at a space and at the end.
abbrev pub handed_out : List ℕ → List (List ℕ) → List (List ℕ)
handed_out [] more = more
handed_out (c ∷ token) more = (c ∷ token) ∷ more

-- The tokens of `strtok_r(arg, " ", ...)`, behind the beginning of one.
unfoldable pub tokens_from : List ℕ → List ℕ → List (List ℕ)
tokens_from token [] = handed_out token []
tokens_from token (c ∷ cs) = elim (c == 32) [
  | true ↦ handed_out token (tokens_from [] cs)
  | false ↦ tokens_from (token ++ c ∷ []) cs
]

-- The loop over the tokens behind the first one; whether it gets to the end, and `count`.
unfoldable pub argument_loop : ℕ → List (List ℕ) → List (List ℕ) → Bool × Arguments
argument_loop count argv [] = (true, record { argc = count; argv = argv })
argument_loop count argv (token ∷ tokens) =
    let rest = argument_loop (count + 1) (argv ++ token ∷ []) tokens in
    if leb max_plugin_arguments (count + 1)
    then (false, record { argc = count + 1; argv = argv ++ token ∷ [] })
    else rest

-- `argc` is the value from before, which stays where there are too many arguments.
unfoldable pub split_parameters : ℕ → Option (List ℕ) → Bool × Arguments
unfolding argument_loop tokens_from
split_parameters argc none = (true, record { argc = 1; argv = [] })
split_parameters argc (some text) = elim (strchr text 32) [
  | none ↦ (true, record { argc = 1; argv = [] })
  | some _ ↦ elim (tokens_from [] text) [
    | [] ↦ (true, record { argc = 1; argv = [] })
    | token ∷ tokens ↦
        let (fits, given) = argument_loop 2 (token ∷ []) tokens in
        if fits then (true, given) else (false, record given { argc = argc })
  ]
]

-- `plugin`: the text up to the first space, where that is not its beginning.
unfoldable pub plugin_name : List ℕ → List ℕ
plugin_name text = elim (span (λ (c : ℕ). if c == 32 then false else true) text) [
  | [] ↦ text
  | c ∷ front ↦ c ∷ front
]

pub record Loaded : Type 0 where
  pub handle : ℕ
  pub given : Arguments

-- A plugin of the command line: its name and its parameters; `argc` is 0 before. The result of
-- `split_parameters` is not looked at.
unfoldable pub opened : List ℕ → List ℕ × Arguments
unfolding plugin_name split_parameters
opened text = (plugin_name text, (split_parameters 0 (strchr text 32)).1)

-- The loop that loads the plugins of one kind. `dlopen` gives the handle of a library that has the three
-- functions, and `init` says whether its first one returns 0.
unfoldable pub load :
    (List ℕ → Option ℕ) → (ℕ → Arguments → Bool) → List (List ℕ) → Option (List Loaded)
unfolding opened
load dlopen init [] = some []
load dlopen init (text ∷ texts) =
    let (plugin, given) = opened text in
    elim (dlopen plugin) [
      | none ↦ none
      | some handle ↦ elim (init handle given) [
        | false ↦ none
        | true ↦ elim (load dlopen init texts) [
          | none ↦ none
          | some more ↦ some (record { handle = handle; given = given } ∷ more)
        ]
      ]
    ]

-- What `getopt_long` finds.
pub data Choice : Type 0 where
  input output : List ℕ → Choice
  version background help : Choice

-- How the program goes on behind its command line.
pub data Parsed : Type 0 where
  plugins : List (List ℕ) → List (List ℕ) → Bool → Parsed
  leaves : ℕ → Parsed
  overflow : Parsed

-- The loop over the command line. `overflow` is an eleventh plugin of a kind: there is no check.
unfoldable pub parse : List (List ℕ) → List (List ℕ) → Bool → List Choice → Parsed
parse ins outs daemon [] = plugins ins outs daemon
parse ins outs daemon (input text ∷ choices) =
    let rest = parse (ins ++ text ∷ []) outs daemon choices in
    if ltb (length ins) max_plugins then rest else overflow
parse ins outs daemon (output text ∷ choices) =
    let rest = parse ins (outs ++ text ∷ []) daemon choices in
    if ltb (length outs) max_plugins then rest else overflow
parse ins outs daemon (version ∷ choices) = leaves 0
parse ins outs daemon (background ∷ choices) = parse ins outs true choices
parse ins outs daemon (help ∷ choices) = leaves 1

-- `if(global.outcnt == 0)`
unfoldable pub or_default : List (List ℕ) → List (List ℕ)
or_default [] = codes "output_http.so --port 8080" ∷ []
or_default (text ∷ outs) = text ∷ outs

-- What the handler of SIGINT does, in order, but for setting `stop` and the two pauses. A condition
-- variable and a mutex are those of an input.
pub data Action : Type 0 where
  stop_input stop_output destroy_condition destroy_mutex : ℕ → Action
  close_input close_output : ℕ → Action

-- `inputs` and `outputs` from number `i` on.
unfoldable pub stop_inputs : ℕ → List Loaded → List Action
stop_inputs i [] = []
stop_inputs i (p ∷ ins) = stop_input i ∷ stop_inputs (i + 1) ins

unfoldable pub stop_outputs : ℕ → List Loaded → List Action
stop_outputs i [] = []
stop_outputs i (p ∷ outs) =
    stop_output i ∷ destroy_condition i ∷ destroy_mutex i ∷ stop_outputs (i + 1) outs

-- `skip`: a later plugin has the same handle.
unfoldable pub occurs : ℕ → List Loaded → Bool
occurs h [] = false
occurs h (p ∷ outs) = h == p.handle || occurs h outs

unfoldable pub close_outputs : List Loaded → List Action
unfolding occurs
close_outputs [] = []
close_outputs (p ∷ outs) =
    let rest = close_outputs outs in
    if occurs p.handle outs then rest else close_output p.handle ∷ rest

abbrev pub close_inputs : List Loaded → List Action
close_inputs [] = []
close_inputs (p ∷ ins) = close_input p.handle ∷ close_inputs ins

unfoldable pub signal_handler : List Loaded → List Loaded → List Action
unfolding stop_inputs stop_outputs close_outputs
signal_handler ins outs =
    stop_inputs 0 ins ++ (stop_outputs 0 outs ++ (close_inputs ins ++ close_outputs outs))
