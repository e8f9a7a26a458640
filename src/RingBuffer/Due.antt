-- ===== src/RingBuffer/Due.antt =====
-- When the folder is maintained, and what that does.
use native.Mathlib.Nat.{suc-mod, mod-eq_of_lt, mod_self, mod-lt}
use raspberry_car.Base.{
  ℕ, zero, suc, ◌+◌, ◌-◌, ◌%◌, ◌^◌, ◌<◌, ◌≡◌, refl, ap, ◌∙◌, Bool, true, false, List, [], ◌∷◌, take,
  drop, length, ◌⊎◌, inl, inr, Bool-cases, ltb, ◌≢◌, arith,
}
use raspberry_car.Base.Int.{ℤ, pos, negsuc}
use raspberry_car.RingBuffer.{Folder, unlink_all, maintain_ringbuffer, is_due}

-- How far `exceed` lets the folder grow.
abbrev pub slack : ℤ → ℕ
slack (pos n) = n
slack (negsuc n) = 0

unlink_all-nil :
    (unlinks : List ℕ → Bool) (names : Folder)
    → ((name : List ℕ) → unlinks name ≡ true)
    → unlink_all unlinks names ≡ []
unfolding unlink_all
unlink_all-nil unlinks [] h = refl
unlink_all-nil unlinks (name ∷ names) h = rw (h name) (unlink_all-nil unlinks names h)

pub maintain_ringbuffer-drop :
    (unlinks : List ℕ → Bool) (size : ℕ) (names : Folder)
    → ((name : List ℕ) → unlinks name ≡ true)
    → maintain_ringbuffer true unlinks (pos size) names ≡ drop (length names - size) names
unfolding maintain_ringbuffer
maintain_ringbuffer-drop unlinks size names h =
    rw (unlink_all-nil unlinks (take (length names - size) names) h)

-- A counter that is not due has counted one more since it was.
pub next-mod : (c m : ℕ) → (suc c % suc m ≡ 0) ⊎ (suc c % suc m ≡ suc (c % suc m))
next-mod c m = elim (Bool-cases (ltb (suc (c % suc m)) (suc m))) [
  | inl less ↦ inr (suc-mod c (suc m) ∙ mod-eq_of_lt (below less))
  | inr full ↦ inl (suc-mod c (suc m) ∙ ap (λ (d : ℕ). d % suc m) (top full) ∙ mod_self (suc m))
]
  where
    below : ltb (suc (c % suc m)) (suc m) ≡ true → suc (c % suc m) < suc m
    below h = ground arith

    room : c % suc m < suc m
    room = mod-lt c (omega arith)

    top : ltb (suc (c % suc m)) (suc m) ≡ false → suc (c % suc m) ≡ suc m
    top h = ground (arith, room)

pub is_due-not : (exceed : ℤ) (c : ℕ) → is_due exceed c ≡ false → c % suc (slack exceed) ≢ 0
unfolding is_due
is_due-not (negsuc n) c h e = cc h
is_due-not (pos zero) c h e = cc h
is_due-not (pos (suc n)) c h e =
    let same : suc n + 1 ≡ suc (suc n) = omega arith in
    let zero_mod : c % (suc n + 1) ≡ 0 = ap (λ (d : ℕ). c % d) same ∙ e in ground (arith, zero_mod)

pub is_due-first : (exceed : ℤ) → is_due exceed 1 ≡ true
unfolding is_due
is_due-first (negsuc n) = refl
is_due-first (pos zero) = refl
is_due-first (pos (suc n)) = refl

-- The counter of an unsigned 64-bit number.
pub next_counter : (c : ℕ) → c < 2 ^ 64 → ((c + 1) % 2 ^ 64 ≡ 0) ⊎ ((c + 1) % 2 ^ 64 ≡ suc c)
next_counter c h = elim (Bool-cases (ltb (c + 1) (2 ^ 64))) [
  | inl less ↦ inr (ground arith)
  | inr full ↦ inl (ground arith)
]
