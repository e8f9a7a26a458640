-- ===== src/Http/Clients.antt =====
-- add_client, check_client_status and update_client_timestamp: the clients that took pictures.
pub mod Register
pub mod Rate
use raspberry_car.Base.{
  ℕ, zero, suc, ◌+◌, ◌-◌, ◌*◌, ◌/◌, Bool, true, false, ◌&&◌, List, [], ◌∷◌, ◌++◌, Option, none,
  some, leb, if◌then◌else◌, length, get_elem?, set,
}
use raspberry_car.Base.Int.{ℤ, pos, sub_ℕ, ltb_ℤ}
use raspberry_car.CString.{str_eq}

-- `struct timeval`, of times since 1970.
pub record Timeval : Type 0 where
  pub tv_sec : ℕ
  pub tv_usec : ℕ

pub record ClientInfo : Type 0 where
  pub address : List ℕ
  pub last_take_time : Timeval

-- `client_infos`. Entries are never moved or removed, so a `client_info *` is its position.
abbrev pub ClientInfos : Type 0
ClientInfos = List ClientInfo

-- The first loop of `add_client`, from position `i` on.
unfoldable pub find_client : ℕ → ClientInfos → List ℕ → Option ℕ
unfolding str_eq
find_client i [] address = none
find_client i (c ∷ infos) address =
    let later = find_client (i + 1) infos address in
    if str_eq c.address address then some i else later

-- `memory` says whether both calls of `malloc` succeed. (That of `realloc` is not checked.)
unfoldable pub add_client : Bool → ClientInfos → List ℕ → ClientInfos × Option ℕ
unfolding find_client
add_client memory infos address = elim (find_client 0 infos address) [
  | some i ↦ (infos, some i)
  | none ↦
      let new : ClientInfo = record {
        address = address;
        last_take_time = record { tv_sec = 0; tv_usec = 0 };
      } in
      if memory then (infos ++ new ∷ [], some (length infos)) else (infos, none)
]

-- `msec`. The division of a negative difference goes towards 0.
unfoldable pub milliseconds : Timeval → Timeval → ℤ
milliseconds last now =
    if leb last.tv_usec now.tv_usec
    then sub_ℕ (now.tv_sec * 1000 + (now.tv_usec - last.tv_usec) / 1000) (last.tv_sec * 1000)
    else sub_ℕ (now.tv_sec * 1000) (last.tv_sec * 1000 + (last.tv_usec - now.tv_usec) / 1000)

unfoldable pub is_cheater : Timeval → Timeval → Bool
unfolding milliseconds
is_cheater last now =
    let msec = milliseconds last now in ltb_ℤ msec (pos 1000) && ltb_ℤ (pos 0) msec

unfoldable pub check_client_status : ClientInfos → ℕ → Timeval → Bool
unfolding is_cheater
check_client_status infos client now = elim (get_elem? infos client) [
  | none ↦ false
  | some c ↦ is_cheater c.last_take_time now
]

unfoldable pub with_time : ClientInfos → ℕ → (Timeval → Timeval) → ClientInfos
with_time infos client f = elim (get_elem? infos client) [
  | none ↦ infos
  | some c ↦ set infos client (record c { last_take_time = f c.last_take_time })
]

unfoldable pub update_client_timestamp : ClientInfos → ℕ → Timeval → ClientInfos
unfolding with_time
update_client_timestamp infos client now = with_time infos client (λ _. now)

abbrev pub piggy_fine : ℕ
piggy_fine = 2

-- What client_thread does at a request for a picture: whether it refuses, and the fine; otherwise
-- send_snapshot stores the time at which it sends the picture.
unfoldable pub picture_request : ClientInfos → ℕ → Timeval → Timeval → ClientInfos × Bool
unfolding check_client_status with_time update_client_timestamp
picture_request infos client now served =
    if check_client_status infos client now
    then (
      with_time infos client (λ (t : Timeval). record t { tv_sec = t.tv_sec + piggy_fine }),
      true,
    )
    else (update_client_timestamp infos client served, false)
