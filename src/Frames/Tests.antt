-- ===== src/Frames/Tests.antt =====
-- Runs of the threads that share the global buffer.
use mathlib.Core.List.{Sublistᴰ}
use raspberry_car.Base.{◌≡◌, refl, sym, ap, true, false, List, [], ◌∷◌, none, map}
use raspberry_car.Http.Stream.{Frame, stream_header, send_stream}
use raspberry_car.Frames.{
  System, wake, current, publish, wait, copy, Reach, begin, later, update, waiting, busy,
}
use raspberry_car.Frames.Order.{Reach-Sublist}
use raspberry_car.Frames.Delivery.{written, whole_round, parts, send_stream-delivers}
use raspberry_car.Uvc.Camera.{cam_thread}
use raspberry_car.Uvc.Camera.Sample.{at, small_vd, jpeg, each_one, picture, whole}
use raspberry_car.Uvc.Camera.Whole.{frame_of}
use raspberry_car.Uvc.Camera.Every.{
  Shots, shot_of, taken_of, every_nth, Plain, cam_thread-every_nth,
}
use raspberry_car.Uvc.Camera.Spaced.{published}

abbrev shots : Shots
shots = (picture 180 1, at 9 0) ∷ []

abbrev taken : Frame
taken = frame_of (picture 180 1)

-- The first thread waits, is woken by a picture and copies it.
abbrev delivered : System
delivered = record {
  log = taken ∷ [];
  pc = update (λ i. wake (update (λ j. busy) 0 waiting i)) 0 busy;
  got = update (λ i. []) 0 (taken ∷ []);
}

delivered-Reach : Reach false delivered
unfolding current wake
delivered-Reach = later (later (later begin (wait 0 refl)) (publish taken)) (copy 0 refl)

Reach-Sublist_example : Sublistᴰ (taken ∷ []) (taken ∷ [])
Reach-Sublist_example = Reach-Sublist delivered 0 delivered-Reach

plain : Plain small_vd each_one shots
plain = record {
  format = refl;
  undropped = refl;
  sized = (refl, refl);
  unstamped = refl;
  whole = (whole 1, tt);
}

log-published :
    delivered.log ≡ published (cam_thread jpeg each_one none true small_vd (map shot_of shots))
unfolding every_nth
log-published = sym (ap published (cam_thread-every_nth jpeg small_vd each_one shots plain).1)

send_stream-delivers_example :
    (frames : List Frame) × (written (send_stream true (map whole_round (delivered.got 0)))
      ≡ stream_header ∷ parts frames)
    × Sublistᴰ frames (map taken_of shots)
send_stream-delivers_example =
    send_stream-delivers jpeg small_vd each_one shots delivered 0 plain delivered-Reach
      log-published
