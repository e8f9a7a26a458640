-- ===== src/Uvc.antt =====
-- plugins/input_uvc: the pictures of a camera.
pub mod Tables
pub mod Picture
pub mod Pixels
pub mod Device
pub mod Ioctl
pub mod Destination
pub mod Camera
pub mod Controls
pub mod Tests
