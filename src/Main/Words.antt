-- ===== src/Main/Words.antt =====
-- The words of a plugin's command line are its arguments.
use raspberry_car.Base.{
  ℕ, suc, ◌+◌, ◌≤◌, ◌<◌, ◌≡◌, ◌≢◌, refl, ap, ◌∙◌, true, false, List, [], ◌∷◌, ◌++◌, append-nil,
  append_assoc, some, All, leb, ◌==◌, length, arith, if◌then◌else◌,
}
use raspberry_car.CString.{span, strchr}
use raspberry_car.Main.{
  handed_out, tokens_from, argument_loop, split_parameters, plugin_name, opened,
}

-- Not empty, and without spaces.
abbrev pub IsWord : List ℕ → Type 0
IsWord w = (0 < length w) × All (λ (c : ℕ). c ≢ 32) w

-- Each word behind a space.
abbrev pub spaced : List (List ℕ) → List ℕ
spaced [] = []
spaced (w ∷ ws) = 32 ∷ (w ++ spaced ws)

tokens_from_word :
    (token w rest : List ℕ)
    → All (λ (c : ℕ). c ≢ 32) w
    → tokens_from token (w ++ rest) ≡ tokens_from (token ++ w) rest
unfolding tokens_from
tokens_from_word token [] rest h = rw append-nil
tokens_from_word token (c ∷ w) rest h =
    let no_space : (c == 32) ≡ false = ground (arith, h.0) in
    rw (tokens_from, no_space)
      (tokens_from_word (token ++ c ∷ []) w rest h.1
        ∙ ap (λ (t : List ℕ). tokens_from t rest) (append_assoc token (c ∷ []) w))

handed_out_word : (w : List ℕ) (more : List (List ℕ)) → 0 < length w → handed_out w more ≡ w ∷ more
handed_out_word [] more h = absurd (omega arith)
handed_out_word (c ∷ w) more h = refl

tokens_from_rest :
    (token : List ℕ) (ws : List (List ℕ))
    → 0 < length token
    → All IsWord ws
    → tokens_from token (spaced ws) ≡ token ∷ ws
unfolding tokens_from
tokens_from_rest token [] t h = handed_out_word token [] t
tokens_from_rest token (w ∷ ws) t h =
    handed_out_word token (tokens_from [] (w ++ spaced ws)) t
    ∙ ap (λ (more : List (List ℕ)). token ∷ more)
        (tokens_from_word [] w (spaced ws) h.0.1 ∙ tokens_from_rest w ws h.0.0 h.1)

argument_loop_all :
    (count : ℕ) (argv tokens : List (List ℕ))
    → count + length tokens < 32
    → argument_loop count argv tokens
      ≡ (true, record { argc = count + length tokens; argv = argv ++ tokens })
unfolding argument_loop
argument_loop_all count argv [] h = let e : count + 0 ≡ count = omega arith in rw (e, append-nil)
argument_loop_all count argv (t ∷ ts) h =
    let room : leb 32 (count + 1) ≡ false = ground arith in
    let e : count + 1 + length ts ≡ count + suc (length ts) = omega arith in
    rw (argument_loop, room)
      (argument_loop_all (count + 1) (argv ++ t ∷ []) ts (omega arith) ∙ rw (e, append_assoc))

tokens_from-spaced :
    (w : List ℕ) (ws : List (List ℕ))
    → All IsWord (w ∷ ws)
    → tokens_from [] (spaced (w ∷ ws)) ≡ w ∷ ws
tokens_from-spaced w ws h =
    unfold tokens_from in tokens_from_word [] w (spaced ws) h.0.1 ∙ tokens_from_rest w ws h.0.0 h.1

split_parameters-spaced :
    (argc : ℕ) (w : List ℕ) (ws : List (List ℕ))
    → All IsWord (w ∷ ws)
    → length (w ∷ ws) ≤ 30
    → (split_parameters argc (some (spaced (w ∷ ws)))).1
      ≡ record { argc = 1 + length (w ∷ ws); argv = w ∷ ws }
unfolding split_parameters strchr
split_parameters-spaced argc w ws h few =
    let e : 2 + length ws ≡ 1 + suc (length ws) = omega arith in
    rw (
      split_parameters,
      tokens_from-spaced w ws h,
      argument_loop_all 2 (w ∷ []) ws (omega arith),
      e,
    )

span_word :
    (w : List ℕ) (ws : List (List ℕ))
    → All (λ (c : ℕ). c ≢ 32) w
    → span (λ (c : ℕ). if c == 32 then false else true) (w ++ spaced ws) ≡ w
unfolding span
span_word [] [] h = refl
span_word [] (w ∷ ws) h = refl
span_word (c ∷ w) ws h =
    let no_space : (c == 32) ≡ false = ground (arith, h.0) in
    rw (span, no_space) (ap (λ (t : List ℕ). c ∷ t) (span_word w ws h.1))

strchr_word : (w rest : List ℕ) → All (λ (c : ℕ). c ≢ 32) w → strchr (w ++ rest) 32 ≡ strchr rest 32
unfolding strchr
strchr_word [] rest h = refl
strchr_word (c ∷ w) rest h =
    let no_space : (c == 32) ≡ false = ground (arith, h.0) in
    rw (strchr, no_space) (strchr_word w rest h.1)

plugin_name_word : (w : List ℕ) (ws : List (List ℕ)) → IsWord w → plugin_name (w ++ spaced ws) ≡ w
unfolding plugin_name
plugin_name_word [] ws h = absurd (omega (arith, h.0))
plugin_name_word (c ∷ w) ws h = rw (plugin_name, span_word (c ∷ w) ws h.1)

-- A plugin that the command line gives as its name and at most thirty words behind it, with one space
-- before each, is loaded by that name and is given exactly these words as its arguments, which argc
-- counts together with the name.
pub opened-spaced :
    (plugin : List ℕ) (ws : List (List ℕ))
    → IsWord plugin
    → All IsWord ws
    → length ws ≤ 30
    → opened (plugin ++ spaced ws) ≡ (plugin, record { argc = 1 + length ws; argv = ws })
unfolding opened
opened-spaced plugin [] h k few =
    rw (plugin_name_word plugin [] h, strchr_word plugin [] h.1)
      (unfold split_parameters strchr in refl)
opened-spaced plugin (w ∷ ws) h k few =
    let e : strchr (spaced (w ∷ ws)) 32 ≡ some (spaced (w ∷ ws)) = unfold strchr in refl in
    rw (
      plugin_name_word plugin (w ∷ ws) h,
      strchr_word plugin (spaced (w ∷ ws)) h.1,
      e,
      split_parameters-spaced 0 w ws k few,
    )
