-- ===== src/Frames/Order.antt =====
-- Each thread sees the published pictures in order, none twice.
use mathlib.Core.List.{Sublistᴰ}
use mathlib.Core.List.Sublistᴰ.{slnil, cons, cons-cons, append}
use raspberry_car.Base.{
  ℕ, ◌≡◌, refl, sym, ap, ◌∙◌, subst, true, false, List, [], ◌∷◌, ◌++◌, ◌==◌, Bool-cases, inl, inr,
}
use raspberry_car.Http.Stream.{Frame}
use raspberry_car.Frames.{
  Pc, waiting, woken, busy, System, wake, current, Step, publish, wait, copy, wake_up, Reach, begin,
  later,
}

module _ {ℓ} {A : Type ℓ} where
  -- One more element behind the longer list, and behind both.
  Sublist-snoc : (a : A) {xs ys : List A} → Sublistᴰ xs ys → Sublistᴰ xs (ys ++ a ∷ [])
  Sublist-snoc a slnil = cons slnil
  Sublist-snoc a (cons h) = cons (Sublist-snoc a h)
  Sublist-snoc a (cons-cons e h) = cons-cons e (Sublist-snoc a h)

  Sublist-snoc_both :
      (a : A) {xs ys : List A} → Sublistᴰ xs ys → Sublistᴰ (xs ++ a ∷ []) (ys ++ a ∷ [])
  Sublist-snoc_both a h = append h (cons-cons refl slnil)

current-snoc : (log : List Frame) (f : Frame) → current (log ++ f ∷ []) ≡ f
unfolding current
current-snoc [] f = refl
current-snoc (g ∷ []) f = refl
current-snoc (g ∷ h ∷ log) f = current-snoc (h ∷ log) f

-- The last picture of the log is fresh: it is none of those the thread has.
record Fresh (got log : List Frame) : Type 0 where
  older : List Frame
  last : Frame
  whole : log ≡ older ++ last ∷ []
  behind : Sublistᴰ got older

abbrev Seen : Pc → List Frame → List Frame → Type 0
Seen waiting got log = Sublistᴰ got log
Seen busy got log = Sublistᴰ got log
Seen woken got log = Fresh got log

Fresh-Sublist : {got log : List Frame} → Fresh got log → Sublistᴰ got log
Fresh-Sublist {got} h = subst (Sublistᴰ got) (sym h.whole) (Sublist-snoc h.last h.behind)

Seen-Sublist : (pc : Pc) {got log : List Frame} → Seen pc got log → Sublistᴰ got log
Seen-Sublist waiting h = h
Seen-Sublist busy h = h
Seen-Sublist woken h = Fresh-Sublist h

fresh : (f : Frame) {got log : List Frame} → Sublistᴰ got log → Fresh got (log ++ f ∷ [])
fresh f {log = log} h = record { older = log; last = f; whole = refl; behind = h }

Seen-publish :
    (f : Frame) (pc : Pc) (got log : List Frame)
    → Seen pc got log
    → Seen (wake pc) got (log ++ f ∷ [])
unfolding wake
Seen-publish f waiting got log h = fresh f h
Seen-publish f woken got log h = fresh f (Fresh-Sublist h)
Seen-publish f busy got log h = Sublist-snoc f h

copy-Fresh : {got log : List Frame} → Fresh got log → Sublistᴰ (got ++ current log ∷ []) log
copy-Fresh {got} {log} h =
    let last : current log ≡ h.last = ap current h.whole ∙ current-snoc h.older h.last in
    rw last
      (subst (Sublistᴰ (got ++ h.last ∷ [])) (sym h.whole) (Sublist-snoc_both h.last h.behind))

abbrev AllSeen : System → Type 0
AllSeen s = (i : ℕ) → Seen (s.pc i) (s.got i) s.log

Step-AllSeen : {s t : System} → Step false s t → AllSeen s → AllSeen t
Step-AllSeen {s} (publish f) h i = Seen-publish f (s.pc i) (s.got i) s.log (h i)
Step-AllSeen {s} (wait i e) h j = elim (Bool-cases (j == i)) [
  | inl same ↦ rw same (Seen-Sublist (s.pc j) (h j))
  | inr differ ↦ rw differ (h j)
]
Step-AllSeen {s} (copy i e) h j = elim (Bool-cases (j == i)) [
  | inl same ↦ rw same (copy-Fresh (subst (λ p. Seen p (s.got i) s.log) e (h i)))
  | inr differ ↦ rw differ (h j)
]
Step-AllSeen (wake_up i e k) h j = cc

Reach-AllSeen : {s : System} → Reach false s → AllSeen s
Reach-AllSeen begin i = slnil
Reach-AllSeen (later r step) i = Step-AllSeen step (Reach-AllSeen r) i

-- However the steps of the threads interleave, if a wait never ends without a broadcast, then the
-- pictures that a thread has copied are published ones, whole, in the order of their publication
-- and each at most once: they are a sublist of those published.
pub Reach-Sublist : (s : System) (i : ℕ) → Reach false s → Sublistᴰ (s.got i) s.log
Reach-Sublist s i r = Seen-Sublist (s.pc i) (Reach-AllSeen r i)

-- A wait that ends without a broadcast hands the same picture out again: the code does not look
-- whether there is a new one. So for each picture there is a run with one publication in which a
-- thread copies it twice.
pub Reach-twice :
    (f : Frame) → (s : System) × Reach true s × (s.log ≡ f ∷ []) × (s.got 0 ≡ f ∷ f ∷ [])
unfolding wake current
Reach-twice f =
    let r₁ = later (later begin (wait 0 refl)) (publish f) in
    let r₂ = later (later (later r₁ (copy 0 refl)) (wait 0 refl)) (wake_up 0 refl refl) in
    (_, later r₂ (copy 0 refl), refl, refl)
