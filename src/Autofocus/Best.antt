-- ===== src/Autofocus/Best.antt =====
-- What a search finds.
use raspberry_car.Base.{
  ℕ, suc, ◌+◌, ◌-◌, ◌*◌, ◌/◌, ◌≤◌, ◌<◌, ◌≡◌, refl, sym, ap, Bool, true, false, List, [], ◌∷◌, some,
  All, get_elem?, length, arith, ◌⊎◌, inl, inr, Bool-cases,
}
use raspberry_car.Autofocus.{Sharpness, Focus, adjust}
use raspberry_car.Autofocus.Search.{after}

-- `>` of the C numbers: a strict order, also with NaN.
pub record IsOrder {V : Type 0} (above : V → V → Bool) : Type 0 where
  pub irreflexive : (a : V) → above a a ≡ false
  pub transitive : (a b c : V) → above a b ≡ true → above b c ≡ true → above a c ≡ true

-- The search that stands at `place` with the record `top` at `best` has led over `svs` to `top'` and
-- `best'`: either no frame was sharper, or the record is that of a frame, at its place.
pub data Found {V : Type 0} (above : V → V → Bool) (place : ℕ) (svs : List V) (top top' : V)
    (best best' : ℕ) : Type 0 where
  kept : top' ≡ top → best' ≡ best → Found above place svs top top' best best'
  moved :
      (i : ℕ)
      → get_elem? svs i ≡ some top'
      → best' ≡ place - 10 * i
      → above top' top ≡ true
      → Found above place svs top top' best best'

module _ {V : Type 0} (sharp : Sharpness V) (order : IsOrder sharp.above) where
  adjust_search :
      (sv : V) (s : Focus V)
      → s.search_focus ≡ true
      → 0 < s.focus
      → s.focus ≤ 255
      → ((adjust sharp sv s).search_focus ≡ true) × ((adjust sharp sv s).focus ≡ s.focus - 10)
  unfolding adjust
  adjust_search sv s h p q = ground arith

  adjust_better :
      (sv : V) (s : Focus V)
      → s.search_focus ≡ true
      → 0 < s.focus
      → sharp.above sv s.max_sv ≡ true
      → ((adjust sharp sv s).max_sv ≡ sv) × ((adjust sharp sv s).max_focus ≡ s.focus)
  unfolding adjust
  adjust_better sv s h p k = ground arith

  adjust_worse :
      (sv : V) (s : Focus V)
      → s.search_focus ≡ true
      → 0 < s.focus
      → sharp.above sv s.max_sv ≡ false
      → ((adjust sharp sv s).max_sv ≡ s.max_sv) × ((adjust sharp sv s).max_focus ≡ s.max_focus)
  unfolding adjust
  adjust_worse sv s h p k = ground arith

  -- What is not above a value is not above what is above that value.
  not_above :
      (a b c : V)
      → sharp.above a b ≡ false
      → (c ≡ b) ⊎ (sharp.above c b ≡ true)
      → sharp.above a c ≡ false
  not_above a b c h (inl e) = rw (e, h)
  not_above a b c h (inr k) = elim (Bool-cases (sharp.above a c)) [
    | inl t ↦ cc (order.transitive a c b t k, h)
    | inr f ↦ f
  ]

  higher :
      {place : ℕ} {svs : List V} {top top' : V} {best best' : ℕ}
      → Found sharp.above place svs top top' best best'
      → (top' ≡ top) ⊎ (sharp.above top' top ≡ true)
  higher (kept e k) = inl e
  higher (moved i e k a) = inr a

  Found-worse :
      (place : ℕ) (sv : V) (svs : List V) {top top' : V} {best best' : ℕ}
      → Found sharp.above (place - 10) svs top top' best best'
      → Found sharp.above place (sv ∷ svs) top top' best best'
  Found-worse place sv svs (kept e k) = kept e k
  Found-worse place sv svs (moved i e k a) = moved (suc i) e (omega (arith, k)) a

  Found-better :
      (place : ℕ) (sv : V) (svs : List V) {top top' : V} {best best' : ℕ}
      → sharp.above sv top ≡ true
      → Found sharp.above (place - 10) svs sv top' place best'
      → Found sharp.above place (sv ∷ svs) top top' best best'
  Found-better place sv svs t (kept e k) = moved 0 (ap some (sym e)) (omega (arith, k)) (rw (e, t))
  Found-better place sv svs {top} {top'} t (moved i e k a) =
      moved (suc i) e (omega (arith, k)) (order.transitive top' sv top a t)

  Found-next :
      (sv : V) (svs : List V) (s : Focus V) {top' : V} {best' : ℕ}
      → s.search_focus ≡ true
      → 0 < s.focus
      → Found sharp.above
          (s.focus - 10)
          svs
          (adjust sharp sv s).max_sv
          top'
          (adjust sharp sv s).max_focus
          best'
      → Found sharp.above s.focus (sv ∷ svs) s.max_sv top' s.max_focus best'
        × (sharp.above sv top' ≡ false)
  Found-next sv svs s h p found = elim (Bool-cases (sharp.above sv s.max_sv)) [
    | inl t ↦
        let b = adjust_better sv s h p t in
        let found' = (rw (b.0, b.1) at found) in
        (
          Found-better s.focus sv svs t found',
          not_above sv sv _ (order.irreflexive sv) (higher found'),
        )
    | inr f ↦
        let w = adjust_worse sv s h p f in
        let found' = (rw (w.0, w.1) at found) in
        (Found-worse s.focus sv svs found', not_above sv s.max_sv _ f (higher found'))
  ]

  -- While a search goes on (`>` of the sharpnesses being a strict order), no frame of it is sharper than
  -- the record that it keeps; and the record is the one from before, or else that of one of the
  -- frames, and the best place is the place of the focus at that frame: ten below for each frame.
  pub after-Found :
      (svs : List V) (s : Focus V)
      → s.search_focus ≡ true
      → s.focus ≤ 255
      → length svs ≤ (s.focus + 9) / 10
      → let t = after sharp svs s in
        Found sharp.above s.focus svs s.max_sv t.max_sv s.max_focus t.max_focus
        × All (λ (sv : V). sharp.above sv t.max_sv ≡ false) svs
  after-Found [] s h q l = (kept refl refl, tt)
  after-Found (sv ∷ svs) s h q l =
      let on = adjust_search sv s h (omega arith) q in
      let (found, all) =
        after-Found svs (adjust sharp sv s) on.0 (omega (arith, on.1)) (omega (arith, on.1)) in
      let (found', last) = Found-next sv svs s h (omega arith) (rw (← on.1) found) in
      (found', (last, all))
