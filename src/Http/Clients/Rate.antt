-- ===== src/Http/Clients/Rate.antt =====
-- How often a client gets a picture.
use raspberry_car.Base.{
  ℕ, ◌+◌, ◌*◌, ◌≤◌, ◌<◌, ◌≡◌, refl, ap, Bool, true, false, List, some, inl, inr, get_elem?, set,
  zero, suc, [], ◌∷◌, arith, Bool-cases,
}
use raspberry_car.Http.Clients.{
  Timeval, ClientInfo, ClientInfos, milliseconds, is_cheater, check_client_status, with_time,
  update_client_timestamp, picture_request, piggy_fine,
}

-- A time in microseconds.
abbrev pub micro : Timeval → ℕ
micro t = t.tv_sec * 1000000 + t.tv_usec

abbrev pub IsTime : Timeval → Type 0
IsTime t = t.tv_usec < 1000000

is_cheater-soon :
    (last now : Timeval)
    → IsTime last
    → IsTime now
    → micro last + 1000 ≤ micro now
    → micro now ≤ micro last + 999000
    → is_cheater last now ≡ true
unfolding is_cheater milliseconds
is_cheater-soon last now v w early late = ground arith

is_cheater-late :
    (last now : Timeval)
    → IsTime last
    → IsTime now
    → micro last + 1000000 ≤ micro now
    → is_cheater last now ≡ false
unfolding is_cheater milliseconds
is_cheater-late last now v w late = ground arith

is_cheater-before :
    (last now : Timeval)
    → IsTime last
    → IsTime now
    → micro now ≤ micro last
    → is_cheater last now ≡ false
unfolding is_cheater milliseconds
is_cheater-before last now v w h = ground arith

get_elem?-set :
    {A : Type 0} (xs : List A) (i : ℕ) (a v : A)
    → get_elem? xs i ≡ some a
    → get_elem? (set xs i v) i ≡ some v
get_elem?-set [] i a v h = cc
get_elem?-set (x ∷ xs) zero a v h = refl
get_elem?-set (x ∷ xs) (suc i) a v h = get_elem?-set xs i a v h

module _ (infos : ClientInfos) (i : ℕ) (c : ClientInfo) (known : get_elem? infos i ≡ some c) where
  get_elem?-with_time :
      (f : Timeval → Timeval)
      → get_elem? (with_time infos i f) i ≡ some (record c { last_take_time = f c.last_take_time })
  unfolding with_time
  get_elem?-with_time f =
      rw (with_time, known)
        (get_elem?-set infos i c (record c { last_take_time = f c.last_take_time }) known)

  check_client_status-known :
      (now : Timeval) → check_client_status infos i now ≡ is_cheater c.last_take_time now
  unfolding check_client_status
  check_client_status-known now = rw (check_client_status, known)

  request-refused :
      (now served : Timeval)
      → is_cheater c.last_take_time now ≡ true
      → picture_request infos i now served
        ≡ (with_time infos i (λ (t : Timeval). record t { tv_sec = t.tv_sec + piggy_fine }), true)
  unfolding picture_request
  request-refused now served h = rw (check_client_status-known now, h)

  request-served :
      (now served : Timeval)
      → is_cheater c.last_take_time now ≡ false
      → picture_request infos i now served ≡ (update_client_timestamp infos i served, false)
  unfolding picture_request
  request-served now served h = rw (check_client_status-known now, h)

-- A client that took a picture at some time is refused one from a millisecond to 0.999 seconds
-- later.
pub picture_request-soon :
    (infos : ClientInfos) (i : ℕ) (c : ClientInfo) (last now served : Timeval)
    → get_elem? infos i ≡ some c
    → IsTime last
    → IsTime now
    → micro last + 1000 ≤ micro now
    → micro now ≤ micro last + 999000
    → (picture_request (update_client_timestamp infos i last) i now served).1 ≡ true
unfolding update_client_timestamp
picture_request-soon infos i c last now served known v w early late =
    ap (λ (r : ClientInfos × Bool). r.1)
      (request-refused (with_time infos i (λ _. last)) i (record c { last_take_time = last })
        (get_elem?-with_time infos i c known (λ _. last)) now served
        (is_cheater-soon last now v w early late))

-- A client that took a picture at some time gets one from a second later on, and without a fine: its
-- time becomes that of the new picture.
pub picture_request-late :
    (infos : ClientInfos) (i : ℕ) (c : ClientInfo) (last now served : Timeval)
    → get_elem? infos i ≡ some c
    → IsTime last
    → IsTime now
    → micro last + 1000000 ≤ micro now
    → picture_request (update_client_timestamp infos i last) i now served
      ≡ (update_client_timestamp (update_client_timestamp infos i last) i served, false)
unfolding update_client_timestamp
picture_request-late infos i c last now served known v w late =
    request-served (with_time infos i (λ _. last)) i (record c { last_take_time = last })
      (get_elem?-with_time infos i c known (λ _. last)) now served
      (is_cheater-late last now v w late)

-- The fine of a refused client, of two seconds, lets it in. If it asks again within two seconds of
-- the time that it was counted from, it gets a picture. That moves its time back from the future, so
-- that it is refused again from a millisecond to 0.999 seconds behind that picture.
pub picture_request-fined :
    (infos : ClientInfos) (i : ℕ) (c : ClientInfo) (now again last later sent sent' : Timeval)
    → get_elem? infos i ≡ some c
    → IsTime c.last_take_time
    → IsTime again
    → IsTime last
    → IsTime later
    → (picture_request infos i now sent).1 ≡ true
    → micro again ≤ micro c.last_take_time + 2000000
    → micro last + 1000 ≤ micro later
    → micro later ≤ micro last + 999000
    → let fined = (picture_request infos i now sent).0 in
      ((picture_request fined i again last).1 ≡ false)
      × ((picture_request (picture_request fined i again last).0 i later sent').1 ≡ true)
picture_request-fined infos i c now again last later sent sent' known v w v' w' refused soon early
      late =
    elim (Bool-cases (is_cheater c.last_take_time now)) [
      | inl cheats ↦
          let fine = λ (t : Timeval). record t { tv_sec = t.tv_sec + piggy_fine } in
          let c' : ClientInfo = record c { last_take_time = fine c.last_take_time } in
          let known' = get_elem?-with_time infos i c known fine in
          let served =
            request-served (with_time infos i fine) i c' known' again last
              (is_cheater-before c'.last_take_time again v w (omega arith)) in
          rw (request-refused infos i c known now sent cheats) (
            rw served (
              refl,
              picture_request-soon (with_time infos i fine) i c' last later sent' known' v' w' early
                  late,
            ))
      | inr waits ↦ absurd (contradiction waits)
    ]
  where
    contradiction : is_cheater c.last_take_time now ≡ false → ⊥
    contradiction waits =
        let e =
          ap (λ (r : ClientInfos × Bool). r.1) (request-served infos i c known now sent waits) in
        cc (refused, e)
