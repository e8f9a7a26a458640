-- ===== src/Http/Tests/Rates.antt =====
-- Runs of the register of clients.
use raspberry_car.Base.{ℕ, ◌≢◌, get_or, ap, ◌≡◌, refl, true, false, List, [], ◌∷◌, arith}
use raspberry_car.CString.{codes}
use raspberry_car.Http.Clients.{
  Timeval, ClientInfo, ClientInfos, add_client, milliseconds, is_cheater, check_client_status,
  picture_request,
}
use raspberry_car.Http.Clients.Register.{Registered, add_client-Registered}
use raspberry_car.Http.Clients.Rate.{picture_request-fined}

abbrev pub at : ℕ → ℕ → Timeval
at s us = record { tv_sec = s; tv_usec = us }

abbrev anna : ClientInfo
anna = record { address = codes "10.0.0.1"; last_take_time = at 100 0 }

abbrev bert : ClientInfo
bert = record { address = codes "10.0.0.2"; last_take_time = at 0 0 }

abbrev known : ClientInfos
known = anna ∷ bert ∷ []

distinct : bert.address ≢ anna.address
distinct e = omega (arith, ap (λ (l : List ℕ). get_or l 7 0) e)

add_client-Registered_example :
    Registered known (codes "10.0.0.3") (add_client true known (codes "10.0.0.3"))
add_client-Registered_example =
    add_client-Registered true known (codes "10.0.0.3") ((distinct, tt), (tt, tt))

anna-refused : (picture_request known 0 (at 100 500000) (at 0 0)).1 ≡ true
unfolding picture_request check_client_status is_cheater milliseconds
anna-refused = refl

abbrev fined : ClientInfos
fined = (picture_request known 0 (at 100 500000) (at 0 0)).0

-- Refused at 100.5, let in at 100.6 with a picture at 100.7, and refused at 101.
picture_request-fined_example :
    ((picture_request fined 0 (at 100 600000) (at 100 700000)).1 ≡ false)
    × ((picture_request
          (picture_request fined 0 (at 100 600000) (at 100 700000)).0
          0
          (at 101 0)
          (at 0 0)).1
        ≡ true)
picture_request-fined_example =
    picture_request-fined known 0 anna (at 100 500000) (at 100 600000) (at 100 700000) (at 101 0)
      (at 0 0) (at 0 0) refl (omega arith) (omega arith) (omega arith) (omega arith) anna-refused
      (omega arith) (omega arith) (omega arith)
