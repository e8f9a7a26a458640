-- ===== src/Uvc/Ioctl.antt =====
-- v4l2uvc.c: xioctl, a call of the driver with retries.
use raspberry_car.Base.{
  ℕ, zero, suc, ◌+◌, ◌≤◌, ◌≡◌, refl, ap, Bool, true, false, List, [], ◌∷◌, ◌++◌, replicate, arith,
}

-- What a call comes to: 0, an error that is tried again (EINTR, EAGAIN, ETIMEDOUT), or another.
pub data Outcome : Type 0 where
  success transient error : Outcome

-- What is returned, 0 or not, and what the calls came to, the first one first.
pub record Tried : Type 0 where
  pub ret : Bool
  pub calls : List Outcome

abbrev pub ioctl_retry : ℕ
ioctl_retry = 4

-- A call behind which more are allowed, and the last one.
unfoldable pub tried : Outcome → Tried → Tried
tried success again = record { ret = true; calls = success ∷ [] }
tried transient again = record again { calls = transient ∷ again.calls }
tried error again = record { ret = false; calls = error ∷ [] }

unfoldable pub last_try : Outcome → Tried
last_try success = record { ret = true; calls = success ∷ [] }
last_try a = record { ret = false; calls = a ∷ [] }

-- `tries` more calls, from call `k` on.
unfoldable pub xioctl_loop : ℕ → (ℕ → Outcome) → ℕ → Tried
unfolding tried last_try
xioctl_loop zero answers k = last_try (answers k)
xioctl_loop (suc tries) answers k = tried (answers k) (xioctl_loop tries answers (k + 1))

unfoldable pub xioctl : (ℕ → Outcome) → Tried
unfolding xioctl_loop
xioctl answers = xioctl_loop ioctl_retry answers 0

-- How the last call ends the loop, after `n` others of at most `tries`.
abbrev pub Ends : ℕ → ℕ → Outcome → Bool → Type 0
Ends tries n success ret = (ret ≡ true) × (n ≤ tries)
Ends tries n error ret = (ret ≡ false) × (n ≤ tries)
Ends tries n transient ret = (ret ≡ false) × (n ≡ tries)

abbrev pub Retries : ℕ → Tried → Type 0
Retries tries t =
    (n : ℕ) × (last : Outcome) × (t.calls ≡ replicate n transient ++ last ∷ [])
    × Ends tries n last t.ret

Ends-suc :
    (tries n : ℕ) (a : Outcome) (ret : Bool) → Ends tries n a ret → Ends (suc tries) (suc n) a ret
Ends-suc tries n success ret h = (h.0, omega (arith, h.1))
Ends-suc tries n error ret h = (h.0, omega (arith, h.1))
Ends-suc tries n transient ret h = (h.0, ap suc h.1)

tried-Retries :
    (tries : ℕ) (a : Outcome) (again : Tried)
    → Retries tries again
    → Retries (suc tries) (tried a again)
unfolding tried
tried-Retries tries success again h = (0, success, refl, (refl, omega arith))
tried-Retries tries error again h = (0, error, refl, (refl, omega arith))
tried-Retries tries transient again h =
    (suc h.0, h.1, ap (◌∷◌ transient) h.2, Ends-suc tries h.0 h.1 again.ret h.3)

last_try-Retries : (a : Outcome) → Retries 0 (last_try a)
unfolding last_try
last_try-Retries success = (0, success, refl, (refl, omega arith))
last_try-Retries error = (0, error, refl, (refl, omega arith))
last_try-Retries transient = (0, transient, refl, (refl, refl))

xioctl_loop-Retries :
    (tries : ℕ) (answers : ℕ → Outcome) (k : ℕ) → Retries tries (xioctl_loop tries answers k)
unfolding xioctl_loop
xioctl_loop-Retries zero answers k = last_try-Retries (answers k)
xioctl_loop-Retries (suc tries) answers k =
    tried-Retries tries (answers k) (xioctl_loop tries answers (k + 1))
      (xioctl_loop-Retries tries answers (k + 1))

-- A call is made again only after an error that passes, and at most four times: the calls but the
-- last end in such errors. 0 is returned if the last call succeeds; otherwise it ended in an error
-- of another kind, or was the fifth.
pub xioctl-Retries : (answers : ℕ → Outcome) → Retries ioctl_retry (xioctl answers)
unfolding xioctl
xioctl-Retries answers = xioctl_loop-Retries ioctl_retry answers 0
