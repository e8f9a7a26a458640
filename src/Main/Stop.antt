-- ===== src/Main/Stop.antt =====
-- The end of the program closes the libraries of the output plugins once.
use raspberry_car.Base.{
  ℕ, ◌+◌, ◌≡◌, refl, ◌∙◌, ◌||◌, List, [], ◌∷◌, ◌++◌, ◌==◌, if◌then◌else◌, arith, inl, inr,
  Bool-cases,
}
use raspberry_car.Main.{
  Loaded, Action, stop_input, stop_output, destroy_condition, destroy_mutex, close_input,
  close_output, stop_inputs, stop_outputs, occurs, close_outputs, close_inputs, signal_handler,
}

-- How often a library of output plugins is closed.
abbrev pub closings : ℕ → List Action → ℕ
closings h [] = 0
closings h (close_output k ∷ actions) = (if h == k then 1 else 0) + closings h actions
closings h (_ ∷ actions) = closings h actions

closings-append :
    (h : ℕ) (xs ys : List Action) → closings h (xs ++ ys) ≡ closings h xs + closings h ys
closings-append h [] ys = omega arith
closings-append h (stop_input i ∷ xs) ys = closings-append h xs ys
closings-append h (stop_output i ∷ xs) ys = closings-append h xs ys
closings-append h (destroy_condition i ∷ xs) ys = closings-append h xs ys
closings-append h (destroy_mutex i ∷ xs) ys = closings-append h xs ys
closings-append h (close_input i ∷ xs) ys = closings-append h xs ys
closings-append h (close_output k ∷ xs) ys = omega (arith, closings-append h xs ys)

closings-stop_inputs : (h i : ℕ) (ins : List Loaded) → closings h (stop_inputs i ins) ≡ 0
unfolding stop_inputs
closings-stop_inputs h i [] = refl
closings-stop_inputs h i (p ∷ ins) = closings-stop_inputs h (i + 1) ins

closings-stop_outputs : (h i : ℕ) (outs : List Loaded) → closings h (stop_outputs i outs) ≡ 0
unfolding stop_outputs
closings-stop_outputs h i [] = refl
closings-stop_outputs h i (p ∷ outs) = closings-stop_outputs h (i + 1) outs

closings-close_inputs : (h : ℕ) (ins : List Loaded) → closings h (close_inputs ins) ≡ 0
closings-close_inputs h [] = refl
closings-close_inputs h (p ∷ ins) = closings-close_inputs h ins

-- One more plugin, with the handle `k`, before plugins whose libraries are closed as they should.
closings_step :
    (h k : ℕ) (outs : List Loaded) (rest : List Action)
    → closings h rest ≡ (if occurs h outs then 1 else 0)
    → closings h (if occurs k outs then rest else close_output k ∷ rest)
      ≡ (if h == k || occurs h outs then 1 else 0)
closings_step h k outs rest ih = elim (Bool-cases (h == k)) [
  | inl same ↦
      let e : k ≡ h = ground arith in
      rw e (elim (Bool-cases (occurs h outs)) [
        | inl later ↦ ground (arith, later, ih)
        | inr last ↦ ground (arith, last, ih)
      ])
  | inr other ↦ elim (Bool-cases (occurs k outs)) [
    | inl later ↦ rw (later, other) ih
    | inr last ↦ rw (last, other) (omega (arith, ih))
  ]
]

closings-close_outputs :
    (h : ℕ) (outs : List Loaded)
    → closings h (close_outputs outs) ≡ (if occurs h outs then 1 else 0)
unfolding close_outputs occurs
closings-close_outputs h [] = refl
closings-close_outputs h (p ∷ outs) =
    closings_step h p.handle outs (close_outputs outs) (closings-close_outputs h outs)

-- When the program ends, the library of an output plugin is closed exactly once, however many plugins of
-- the list have it, and no other library is closed as one of an output plugin.
pub signal_handler-closings :
    (h : ℕ) (ins outs : List Loaded)
    → closings h (signal_handler ins outs) ≡ (if occurs h outs then 1 else 0)
unfolding signal_handler
signal_handler-closings h ins outs =
    closings-append h (stop_inputs 0 ins)
      (stop_outputs 0 outs ++ (close_inputs ins ++ close_outputs outs))
    ∙ omega (
      arith,
      closings-stop_inputs h 0 ins,
      closings-stop_outputs h 0 outs,
      closings-close_inputs h ins,
      closings-append h (stop_outputs 0 outs) (close_inputs ins ++ close_outputs outs),
      closings-append h (close_inputs ins) (close_outputs outs),
      closings-close_outputs h outs,
    )
