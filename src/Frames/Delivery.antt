-- ===== src/Frames/Delivery.antt =====
-- From the driver of a camera to a client of the HTTP server: uvcGrab, cam_thread, the global buffer
-- and send_stream together.
use mathlib.Core.List.{Sublistᴰ}
use mathlib.Core.List.Sublistᴰ.{trans}
use raspberry_car.Base.{
  ℕ, ◌+◌, ◌-◌, ◌≡◌, refl, sym, ap, ◌∙◌, subst, true, false, List, [], ◌∷◌, none, ltb, map, length,
  Bool-cases, inl, inr,
}
use raspberry_car.Http.Stream.{
  Frame, Round, Act, resize, copy, write, send_error, ten_k, part_header, part_end, send_part,
  send_rounds, stream_header, send_stream,
}
use raspberry_car.Frames.{System, Reach}
use raspberry_car.Frames.Order.{Reach-Sublist}
use raspberry_car.Uvc.Device.{VdIn}
use raspberry_car.Uvc.Camera.{Settings, cam_thread}
use raspberry_car.Uvc.Camera.Every.{
  Shots, shot_of, taken_of, every_nth, Plain, cam_thread-every_nth, every_nth-Sublist,
}
use raspberry_car.Uvc.Camera.Spaced.{published}

-- What reaches the client.
abbrev pub written : List Act → List (List ℕ)
written [] = []
written (write bytes ∷ acts) = bytes ∷ written acts
written (resize n ∷ acts) = written acts
written (copy n ∷ acts) = written acts
written (send_error code ∷ acts) = written acts

-- A round in which nothing fails, for a frame that was copied.
abbrev pub whole_round : Frame → Round
whole_round f = record { stop = false; frame = f; memory = true; writes = 3 }

abbrev pub parts : List Frame → List (List ℕ)
parts [] = []
parts (f ∷ frames) = part_header f ∷ f.buf ∷ part_end ∷ parts frames

written-send_rounds :
    (frames : List Frame) (size : ℕ)
    → written (send_rounds size (map whole_round frames)) ≡ parts frames
unfolding send_rounds send_part
written-send_rounds [] size = refl
written-send_rounds (f ∷ frames) size =
    let each : (n : ℕ)
        → parts (f ∷ frames)
          ≡ part_header f ∷ f.buf ∷ part_end ∷ written (send_rounds n (map whole_round frames)) =
      λ n.
        ap (λ rest. part_header f ∷ f.buf ∷ part_end ∷ rest) (sym (written-send_rounds frames n)) in
    elim (Bool-cases (ltb size (length f.buf))) [
      | inl grow ↦ rw grow (sym (each (length f.buf + ten_k)))
      | inr fits ↦ rw fits (sym (each size))
    ]

-- A client whose writes succeed receives the header of the stream and then pictures that the driver
-- handed out, each completed and as a part of its own, with its length and time, in their order and
-- none twice: they are a sublist of them. This holds however the thread of the client and that of the
-- camera interleave, if a wait never ends without a broadcast, and under the conditions of `Plain`
-- on the camera.
pub send_stream-delivers :
    (jpeg : ℕ → List (List ℕ) → List ℕ) (vd : VdIn) (s : Settings) (shots : Shots) (t : System)
    (client : ℕ)
    → Plain vd s shots
    → Reach false t
    → t.log ≡ published (cam_thread jpeg s none true vd (map shot_of shots))
    → (frames : List Frame) × (written (send_stream true (map whole_round (t.got client)))
        ≡ stream_header ∷ parts frames)
      × Sublistᴰ frames (map taken_of shots)
unfolding send_stream
send_stream-delivers jpeg vd s shots t client p r log =
    let run = cam_thread-every_nth jpeg vd s shots p in
    let all : t.log ≡ every_nth (s.every - 1) 0 shots = log ∙ ap published run.1 in
    (
      t.got client,
      ap (◌∷◌ stream_header) (written-send_rounds (t.got client) 0),
      trans (subst (Sublistᴰ (t.got client)) all (Reach-Sublist t client r))
          (every_nth-Sublist (s.every - 1) 0 shots),
    )
