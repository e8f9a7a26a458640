-- ===== src/Http/Server/Blocks.antt =====
-- A round of clients: who is served, and what the threads find in the memory that they are given.
use raspberry_car.Base.{
  ℕ, zero, suc, ◌≤◌, ◌<◌, ◌≡◌, refl, ap, List, [], ◌∷◌, ◌++◌, Option, none, some, leb,
  if◌then◌else◌, take, length, Bool-cases, inl, inr, arith,
}
use raspberry_car.Base.Int.{ℤ}
use raspberry_car.Http.Server.{
  Sockets, Act, accepts, launch, drop_client, Network, client_acts, before, accept_loop,
}

-- The sockets among these that are ready.
abbrev pub ready_ones : Network → Sockets → List ℕ
ready_ones w [] = []
ready_ones w (none ∷ sd) = ready_ones w sd
ready_ones w (some fd ∷ sd) = let rest = ready_ones w sd in if w.ready fd then fd ∷ rest else rest

abbrev pub all_acts : Network → List ℕ → List Act
all_acts w [] = []
all_acts w (fd ∷ fds) = client_acts w fd ++ all_acts w fds

accept_loop-acts :
    (w : Network) (n : ℕ) (sd : Sockets)
    → n ≤ length sd
    → accept_loop w n sd ≡ some (all_acts w (ready_ones w (take n sd)))
unfolding accept_loop
accept_loop-acts w zero sd h = refl
accept_loop-acts w (suc n) [] h = absurd (omega arith)
accept_loop-acts w (suc n) (none ∷ sd) h = accept_loop-acts w n sd (omega arith)
accept_loop-acts w (suc n) (some fd ∷ sd) h = elim (Bool-cases (w.ready fd)) [
  | inl r ↦ rw r (ap (before (client_acts w fd)) (accept_loop-acts w n sd (omega arith)))
  | inr r ↦ rw r (accept_loop-acts w n sd (omega arith))
]

-- How many threads are given the block.
abbrev pub launches : List Act → ℕ
launches [] = 0
launches (accepts fd ∷ acts) = launches acts
launches (launch ∷ acts) = suc (launches acts)
launches (drop_client ∷ acts) = launches acts

-- The descriptor in the block behind these acts.
abbrev pub content : Option ℤ → List Act → Option ℤ
content held [] = held
content held (accepts fd ∷ acts) = content (some fd) acts
content held (launch ∷ acts) = content held acts
content held (drop_client ∷ acts) = content none acts

-- The client of the last of these sockets.
abbrev pub last_client : Network → ℕ → List ℕ → ℤ
last_client w fd [] = w.accept fd
last_client w fd (next ∷ fds) = last_client w next fds

accept_loop-none : (w : Network) (n : ℕ) (sd : Sockets) → length sd < n → accept_loop w n sd ≡ none
unfolding accept_loop
accept_loop-none w zero sd h = absurd (omega arith)
accept_loop-none w (suc n) [] h = refl
accept_loop-none w (suc n) (none ∷ sd) h = accept_loop-none w n sd (omega arith)
accept_loop-none w (suc n) (some fd ∷ sd) h =
    rw (accept_loop-none w n sd (omega arith))
      (elim (Bool-cases (w.ready fd)) [ inl r ↦ rw r refl | inr r ↦ rw r refl ])

-- The bound of the loop is a descriptor, not the length of the array. Where it is at most that
-- length, each ready socket among its places, and no other, has its client accepted, once and in
-- order, and a thread made for it, or the client dropped; where it is more, whatever the sockets
-- are, the loop reads behind the array.
pub accept_loop-bound :
    (w : Network) (n : ℕ) (sd : Sockets)
    → accept_loop w n sd
      ≡ (if leb n (length sd) then some (all_acts w (ready_ones w (take n sd))) else none)
accept_loop-bound w n sd = elim (Bool-cases (leb n (length sd))) [
  | inl within ↦ rw within (accept_loop-acts w n sd (ground arith))
  | inr beyond ↦ rw beyond (accept_loop-none w n sd (ground arith))
]
