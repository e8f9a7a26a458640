-- ===== src/Uvc/Controls/Tests.antt =====
-- Runs of the commands of the camera.
use raspberry_car.Base.{refl, true, false, List, [], ◌∷◌, All}
use raspberry_car.Base.Int.{pos, negsuc}
use raspberry_car.Uvc.Camera.Sample.{small_vd, accepted}
use raspberry_car.Uvc.Controls.{
  Parameter, v4l2_set_control, InputPlugin, resolution, Answers, input_cmd,
}
use raspberry_car.Uvc.Controls.Ranges.{IsValid, Allowed, v4l2_set_control-Safe}
use raspberry_car.Uvc.Controls.Commands.{Resized, input_cmd-Resized}

abbrev brightness : Parameter
brightness = record {
  id = 1;
  user = true;
  minimum = pos 0;
  maximum = pos 9;
  group = 1;
  value = pos 5;
}

abbrev contrast : Parameter
contrast = record {
  id = 2;
  user = true;
  minimum = negsuc 9;
  maximum = pos 9;
  group = 1;
  value = pos 0;
}

abbrev controls : List Parameter
controls = brightness ∷ contrast ∷ []

abbrev answers : Answers
answers = record { sets = true; change = accepted; compresses = true; is_signed = false }

abbrev plugin : InputPlugin
plugin = record {
  parameters = controls;
  vd = small_vd;
  resolutions = record { width = 20; height = 10 } ∷ [];
  current_resolution = pos 0;
  quality = pos 50;
}

v4l2_set_control-Safe_example :
    All IsValid (v4l2_set_control true 2 (negsuc 3) controls).parameters
    × All (Allowed controls) (v4l2_set_control true 2 (negsuc 3) controls).calls
v4l2_set_control-Safe_example =
    v4l2_set_control-Safe true 2 (negsuc 3) controls ((refl, refl), ((refl, refl), tt))

input_cmd-Resized_example :
    Resized false (pos 0) plugin (input_cmd answers resolution 7 (pos 0) plugin)
input_cmd-Resized_example = input_cmd-Resized answers 7 (pos 0) plugin
