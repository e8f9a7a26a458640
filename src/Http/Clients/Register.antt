-- ===== src/Http/Clients/Register.antt =====
-- The list of clients: one entry for each address, which stays.
use raspberry_car.Base.{
  ℕ, zero, suc, ◌+◌, ◌≡◌, ◌≢◌, refl, sym, ap, ◌∙◌, Bool, true, false, List, [], ◌∷◌, ◌++◌, Option,
  none, some, inl, inr, length, get_elem?, All, Bool-cases, Option-cases, arith, subst,
}
use raspberry_car.CString.{str_eq, str_eq-eq, str_eq_refl}
use raspberry_car.Http.Clients.{ClientInfo, ClientInfos, find_client, add_client}

-- No entry has the address.
abbrev pub IsNew : List ℕ → ClientInfos → Type 0
IsNew address infos = All (λ (c : ClientInfo). c.address ≢ address) infos

-- No two entries have the same address.
abbrev pub Distinct : ClientInfos → Type 0
Distinct [] = Unit {0}
Distinct (c ∷ infos) = IsNew c.address infos × Distinct infos

-- The entry at a position has the address.
abbrev pub Has : ClientInfos → ℕ → List ℕ → Type 0
Has infos i address = (c : ClientInfo) × (get_elem? infos i ≡ some c) × (c.address ≡ address)

find_client-missing :
    (i : ℕ) (infos : ClientInfos) (address : List ℕ)
    → find_client i infos address ≡ none
    → IsNew address infos
unfolding find_client
find_client-missing i [] address h = tt
find_client-missing i (c ∷ infos) address h = elim (Bool-cases (str_eq c.address address)) [
  | inl same ↦ absurd (some-none (rw same at h))
  | inr other ↦ (
    (λ e. true-ne-false (sym (rw e (str_eq_refl address)) ∙ other)),
    find_client-missing (i + 1) infos address (rw other at h),
  )
]
  where
    some-none : some i ≡ none → ⊥
    some-none e = cc

    true-ne-false : true ≡ false → ⊥
    true-ne-false e = cc

find_client-Has :
    (k i : ℕ) (infos : ClientInfos) (address : List ℕ)
    → find_client k infos address ≡ some i
    → (j : ℕ) × (i ≡ k + j) × Has infos j address
unfolding find_client
find_client-Has k i [] address h = cc
find_client-Has k i (c ∷ infos) address h = elim (Bool-cases (str_eq c.address address)) [
  | inl same ↦
      let e : k ≡ i = cc (rw same at h) in
      (0, omega (arith, e), (c, refl, str_eq-eq c.address address same))
  | inr other ↦
      let (j, e, found) = find_client-Has (k + 1) i infos address (rw other at h) in
      (suc j, omega (arith, e), found)
]

find_client-append :
    (k : ℕ) (infos : ClientInfos) (new : ClientInfo)
    → find_client k infos new.address ≡ none
    → find_client k (infos ++ new ∷ []) new.address ≡ some (k + length infos)
unfolding find_client
find_client-append k [] new h = rw (str_eq_refl new.address) (ap some (omega arith))
find_client-append k (c ∷ infos) new h = elim (Bool-cases (str_eq c.address new.address)) [
  | inl same ↦ absurd (some-none (rw same at h))
  | inr other ↦
      rw other (find_client-append (k + 1) infos new (rw other at h) ∙ ap some (omega arith))
]
  where
    some-none : some k ≡ none → ⊥
    some-none e = cc

IsNew-append :
    (address : List ℕ) (infos : ClientInfos) (new : ClientInfo)
    → IsNew address infos
    → new.address ≢ address
    → IsNew address (infos ++ new ∷ [])
IsNew-append address [] new h k = (k, tt)
IsNew-append address (c ∷ infos) new h k = (h.0, IsNew-append address infos new h.1 k)

Distinct-append :
    (infos : ClientInfos) (new : ClientInfo)
    → Distinct infos
    → IsNew new.address infos
    → Distinct (infos ++ new ∷ [])
Distinct-append [] new d h = (tt, tt)
Distinct-append (c ∷ infos) new d h =
    (IsNew-append c.address infos new d.0 (λ e. h.0 (sym e)), Distinct-append infos new d.1 h.1)

get_elem?-append_old :
    (infos ys : ClientInfos) (j : ℕ) (c : ClientInfo)
    → get_elem? infos j ≡ some c
    → get_elem? (infos ++ ys) j ≡ some c
get_elem?-append_old [] ys j c h = cc
get_elem?-append_old (x ∷ infos) ys zero c h = h
get_elem?-append_old (x ∷ infos) ys (suc j) c h = get_elem?-append_old infos ys j c h

get_elem?-append_new :
    (infos : ClientInfos) (new : ClientInfo)
    → get_elem? (infos ++ new ∷ []) (length infos) ≡ some new
get_elem?-append_new [] new = refl
get_elem?-append_new (x ∷ infos) new = get_elem?-append_new infos new

abbrev unseen : List ℕ → ClientInfo
unseen address = record { address = address; last_take_time = record { tv_sec = 0; tv_usec = 0 } }

module _ (infos : ClientInfos) (address : List ℕ) where
  add_client-old :
      (memory : Bool) (i : ℕ)
      → find_client 0 infos address ≡ some i
      → add_client memory infos address ≡ (infos, some i)
  unfolding add_client
  add_client-old memory i h = rw (add_client, h)

  add_client-new :
      find_client 0 infos address ≡ none
      → add_client true infos address ≡ (infos ++ unseen address ∷ [], some (length infos))
  unfolding add_client
  add_client-new h = rw (add_client, h)

  add_client-full :
      find_client 0 infos address ≡ none → add_client false infos address ≡ (infos, none)
  unfolding add_client
  add_client-full h = rw (add_client, h)

-- What `add_client` promises: the addresses stay distinct, the entries that were there stay where
-- they are, and the entry that it returns has the address.
abbrev pub Registered : ClientInfos → List ℕ → ClientInfos × Option ℕ → Type 0
Registered infos address r =
    Distinct r.0
    × ((j : ℕ) (c : ClientInfo) → get_elem? infos j ≡ some c → get_elem? r.0 j ≡ some c)
    × ((i : ℕ) → r.1 ≡ some i → Has r.0 i address)

some-eq : {i j : ℕ} → some i ≡ some j → i ≡ j
some-eq h = cc

-- In a list without two entries for one address, `add_client` keeps it so, moves no entry, and
-- returns, if anything, an entry with the client's address, whether there is memory or not.
pub add_client-Registered :
    (memory : Bool) (infos : ClientInfos) (address : List ℕ)
    → Distinct infos
    → Registered infos address (add_client memory infos address)
add_client-Registered memory infos address d = elim (Option-cases (find_client 0 infos address)) [
  | inl missing ↦ new memory missing
  | inr (i, found) ↦
      let (j, e, here) = find_client-Has 0 i infos address found in
      subst (Registered infos address) (sym (add_client-old infos address memory i found)) (
        d,
        (λ k c h. h),
        (λ k h. subst (λ n. Has infos n address) (omega (arith, e, some-eq h)) here),
      )
]
  where
    new :
        (memory : Bool)
        → find_client 0 infos address ≡ none
        → Registered infos address (add_client memory infos address)
    new true missing =
        subst (Registered infos address) (sym (add_client-new infos address missing)) (
          Distinct-append infos (unseen address) d (find_client-missing 0 infos address missing),
          (λ k c h. get_elem?-append_old infos (unseen address ∷ []) k c h),
          (λ k h.
              subst (λ n. Has (infos ++ unseen address ∷ []) n address) (some-eq h)
                (unseen address, get_elem?-append_new infos (unseen address), refl)),
        )
    new false missing =
        subst (Registered infos address) (sym (add_client-full infos address missing))
          (d, (λ k c h. h), (λ k h. absurd (none-some k h)))
      where
        none-some : (k : ℕ) → none ≡ some k → ⊥
        none-some k e = cc

-- A client that was registered while there was memory gets, when it comes again, the entry that it
-- got first, and no second one.
pub add_client_again :
    (memory : Bool) (infos : ClientInfos) (address : List ℕ)
    → let r = add_client true infos address in add_client memory r.0 address ≡ r
add_client_again memory infos address = elim (Option-cases (find_client 0 infos address)) [
  | inl missing ↦ rw (add_client-new infos address missing) (
      add_client-old (infos ++ unseen address ∷ []) address memory (length infos)
        (find_client-append 0 infos (unseen address) missing ∙ ap some zero_add))
  | inr (i, found) ↦
      rw (add_client-old infos address true i found) (add_client-old infos address memory i found)
]
  where
    zero_add : 0 + length infos ≡ length infos
    zero_add = omega arith
