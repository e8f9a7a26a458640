-- ===== src/Frames.antt =====
-- The global buffer of an input plugin, shared by the thread that publishes pictures (cam_thread of
-- plugins/input_uvc/input_uvc.c) and those that wait for them (send_stream of
-- plugins/output_http/httpd.c): the mutex `db` and the condition `db_update`.
pub mod Order
pub mod Delivery
pub mod Tests
use raspberry_car.Base.{ℕ, ◌≡◌, Bool, true, false, List, [], ◌∷◌, ◌++◌, ◌==◌, if◌then◌else◌}
use raspberry_car.Http.Stream.{Frame}

-- What a thread that wants pictures does: it waits for `db_update`; it was woken and is about to
-- copy the buffer, or to get the lock for that; or it works on the picture that it copied.
pub data Pc : Type 0 where
  waiting woken busy : Pc

-- The pictures published so far, in order, where each thread stands, and the pictures that it
-- copied. The last picture published is the one in the buffer.
pub record System : Type 0 where
  pub log : List Frame
  pub pc : ℕ → Pc
  pub got : ℕ → List Frame

abbrev pub update {ℓ} : {A : Type ℓ} → (ℕ → A) → ℕ → A → ℕ → A
update f i a j = if j == i then a else f j

-- `pthread_cond_broadcast`, for one thread.
unfoldable pub wake : Pc → Pc
wake waiting = woken
wake woken = woken
wake busy = busy

-- The buffer before the first picture: `calloc` clears its size and time.
abbrev pub no_frame : Frame
no_frame = record { buf = []; tv_sec = 0; tv_usec = 0 }

unfoldable pub current : List Frame → Frame
current [] = no_frame
current (f ∷ []) = f
current (f ∷ g ∷ log) = current (g ∷ log)

-- What happens under the lock, in one step each: a picture is published and the threads that wait
-- are woken; a thread begins to wait; a woken thread copies the buffer. `pthread_cond_wait` may also
-- return with no broadcast, if `spurious`.
pub data Step (spurious : Bool) (s : System) : System → Type 0 where
  publish :
      (f : Frame) → Step spurious s (record s { log = s.log ++ f ∷ []; pc = λ i. wake (s.pc i) })
  wait : (i : ℕ) → s.pc i ≡ busy → Step spurious s (record s { pc = update s.pc i waiting })
  copy :
      (i : ℕ)
      → s.pc i ≡ woken
      → Step spurious s (record s {
        pc = update s.pc i busy;
        got = update s.got i (s.got i ++ current s.log ∷ []);
      })
  wake_up :
      (i : ℕ)
      → spurious ≡ true
      → s.pc i ≡ waiting
      → Step spurious s (record s { pc = update s.pc i woken })

abbrev pub init : System
init = record { log = []; pc = λ i. busy; got = λ i. [] }

pub data Reach (spurious : Bool) : System → Type 0 where
  begin : Reach spurious init
  later : {s t : System} → Reach spurious s → Step spurious s t → Reach spurious t
