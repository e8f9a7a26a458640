-- ===== src/Autofocus/Tests.antt =====
-- A search, with the sharpnesses counted in whole numbers.
use raspberry_car.Base.{ℕ, ◌-◌, ◌≡◌, refl, true, false, ltb, ◌||◌, [], ◌∷◌, length, arith, All}
use raspberry_car.Autofocus.{Sharpness, Focus, adjust}
use raspberry_car.Autofocus.Search.{after, search_ends}
use raspberry_car.Autofocus.Best.{IsOrder, Found, after-Found}

abbrev counted : Sharpness ℕ
counted = record {
  measure = length;
  above = λ a b. ltb b a;
  far = λ a b. ltb 500 (a - b) || ltb 500 (b - a);
  hundred = 100;
  minus_one = 0;
}

counted-IsOrder : IsOrder counted.above
counted-IsOrder = record { irreflexive = λ a. ground arith; transitive = λ a b c h k. ground arith }

abbrev started : Focus ℕ
started = record { max_sv = 0; focus = 25; max_focus = 255; search_focus = true }

started_runs :
    (after counted (7 ∷ 9 ∷ 8 ∷ 10 ∷ []) started)
    ≡ record { max_sv = 9; focus = 15; max_focus = 15; search_focus = false }
unfolding adjust
started_runs = refl

search_ends_example :
    ((after counted (7 ∷ 9 ∷ 8 ∷ []) started).search_focus ≡ true)
    × ((after counted (7 ∷ 9 ∷ 8 ∷ 10 ∷ []) started).search_focus ≡ false)
    × ((after counted (7 ∷ 9 ∷ 8 ∷ 10 ∷ []) started).focus
        ≡ (after counted (7 ∷ 9 ∷ 8 ∷ []) started).max_focus)
search_ends_example = search_ends counted (7 ∷ 9 ∷ 8 ∷ []) 10 started refl (omega arith) refl

after-Found_example :
    let t = after counted (7 ∷ 9 ∷ 8 ∷ []) started in
    Found counted.above 25 (7 ∷ 9 ∷ 8 ∷ []) 0 t.max_sv 255 t.max_focus
    × All (λ (sv : ℕ). counted.above sv t.max_sv ≡ false) (7 ∷ 9 ∷ 8 ∷ [])
after-Found_example =
    after-Found counted counted-IsOrder (7 ∷ 9 ∷ 8 ∷ []) started refl (omega arith) (omega arith)
