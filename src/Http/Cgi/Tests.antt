-- ===== src/Http/Cgi/Tests.antt =====
-- Runs of a script.
use raspberry_car.Base.{ℕ, Bool, true, ◌≡◌, refl, List, Option, some, replicate, arith}
use raspberry_car.CString.{codes}
use raspberry_car.Http.File.{absolute_path}
use raspberry_car.Http.Cgi.{cgi_command, ran, overflow, execute_cgi}
use raspberry_car.Http.Cgi.Command.{joined, execute_cgi-ran, execute_cgi-overflow}

abbrev everything : List ℕ → Bool
everything path = true

abbrev says_hello : List ℕ → Option (List ℕ)
says_hello command = some (codes "hello, car")

execute_cgi-ran_example :
    (pieces : List (List ℕ)) × (execute_cgi everything says_hello 100
        (codes "/www/")
        8080
        (codes "a.cgi")
        (codes "x=1")
      ≡ ran
          (cgi_command 8080
            (codes "a.cgi")
            (codes "x=1")
            (absolute_path (codes "/www/") (codes "a.cgi")))
          pieces)
    × (joined pieces ≡ codes "hello, car")
execute_cgi-ran_example =
    execute_cgi-ran everything says_hello 100 8080 (codes "/www/") (codes "a.cgi") (codes "x=1")
      (codes "hello, car") refl refl (omega arith) (omega arith) (omega arith)

execute_cgi-overflow_example :
    execute_cgi everything says_hello 100 (codes "/www/") 8080 (codes "a.cgi") (replicate 300 b'a')
    ≡ overflow
execute_cgi-overflow_example =
    execute_cgi-overflow everything says_hello 100 8080 (codes "/www/") (codes "a.cgi")
      (replicate 300 b'a') refl (omega arith)
