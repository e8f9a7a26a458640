-- ===== src/Lib.antt =====
-- mjpg-streamer, the streaming server of the car: a model of its core, with proofs.
--
-- The program copies JPEG frames from input plugins to output plugins. All paths below are relative
-- to mjpg-streamer-master/mjpg-streamer-experimental/. An input plugin puts each frame into a global
-- buffer and signals it; the threads of the output plugins wake up and send it on. The HTTP output
-- plugin serves each connection by a thread of its own, and the HTTP input plugin is the other end
-- of such a connection: it takes the frames out of the stream of another server.
--
-- * Http (plugins/output_http/httpd.c, httpd.h): the server.
--     Http/Unescape: hex_char_to_int and unescape, in place over a buffer that is a list of bytes; a
--       read outside the buffer is an outcome of its own.
--     Http/Base64: decodeBase64, likewise. The shift register is an unsigned int of 32 bits.
--     Http/Buffer: init_iobuffer, _read and _readline. The socket is the list of what successive
--       calls of select and read give; at its end it stays silent. exit() is a status.
--     Http/Stream: send_stream, as the list of what it does (resize, copy, write).
--     Http/Snapshot: send_snapshot, likewise.
--     Http/Request: the first line of a request in client_thread, up to the plugin number.
--     Http/Client: the rest of client_thread: header, password, range of the number, answer. Its
--       input is the list of the lines that _readline gives; its output is the list of the
--       replies, each with the arguments of the function that sends it.
--     Http/Clients: add_client, check_client_status, update_client_timestamp, and the fine that
--       client_thread imposes. A pointer to an entry is its position.
--     Http/Command: command, from the variables in its parameter to the call of a plugin and the
--       answer. What the plugin returns is a parameter.
--     Http/File: send_file. What the files hold that can be opened is a parameter.
--     Http/Cgi: execute_cgi. Which files can be opened and what a command outputs are parameters.
--     Http/Server: the sockets of server_thread, and the threads that a round of its loop starts.
--     Http/Json: the descriptions. Text has the buffer and the loops; Clients, Program, Controls, Output
--       and Input are send_clients_JSON, send_program_JSON, check_JSON_string, send_output_JSON and
--       send_input_JSON, each a text put together by sprintf; none stands for a write past the end
--       of an allocation. Reader is an independent reader of JSON, and the other files are about what it
--       makes of these texts.
--     Http/Tests: runs.
-- * Proxy (plugins/input_http/misc.c, mjpg-proxy.c): push_byte to extract_data, one function for
--     each function of the source, and one for each case of the switch. The sign of a char is a
--     parameter. Proxy/Session puts send_stream and extract_data together.
-- * RingBuffer (plugins/output_file/output_file.c): maintain_ringbuffer and the part of worker_thread
--     that saves a picture and decides when to maintain the folder. The folder is the list of names
--     that scandir gives, in the order of alphasort; what sscanf says of a name is a parameter.
--     RingBuffer/Shared is the buffer that worker_thread and output_cmd share, as steps in any order, with failing
--     and short writes, and with memory that realloc does not give.
-- * Uvc (plugins/input_uvc): the camera. The memory behind a pointer is a list of bytes, and a read or
--     write outside it is none, or an outcome of its own.
--     Uvc/Picture: is_huffman and memcpy_picture of v4l2uvc.c, which put Huffman tables (huffman.h) into a
--       frame that has none.
--     Uvc/Pixels: the conversion of pixels in compress_image_to_jpeg of jpeg_utils.c; Uvc/Destination is the
--       destination manager there, with libjpeg's calls as a list of blocks.
--     Uvc/Ioctl: xioctl of v4l2uvc.c.
--     Uvc/Device: struct vdIn, its buffers, video_enable, video_disable and uvcGrab; Uvc/Device/Setup is
--       init_v4l2, video_set_dv_timings and setResolution. What the driver answers is an argument.
--     Uvc/Camera: cam_thread of input_uvc.c, a list of turns of its loop, each with what select, the driver
--       and the clock say, and of commands between them. It gives the pictures that are published.
--     Uvc/Controls: v4l2SetControl of v4l2uvc.c and input_cmd of input_uvc.c.
-- * Frames (plugins/input.h): the global buffer that the threads share, as steps in any order. Frames/Delivery
--     puts uvcGrab, cam_thread, the buffer and send_stream together.
-- * Autofocus (plugins/output_autofocus/output_autofocus.c): the search for the focus in worker_thread, a
--     step for each frame. The numbers of type double are a parameter with their tests.
-- * Main (mjpg_streamer.c): the command line, split_parameters, the loading of plugins, and
--     signal_handler as the list of what it does; Main/Resolutions is parse_resolution_opt of utils.c.
--     dlopen, the plugins' init and sscanf are parameters.
-- * Base, CString, Decimal: shared types, C strings (lists of character codes without the NUL), and
--     the decimal numbers that sprintf writes.
--
-- Numbers. Bytes and lengths are natural numbers; an int that may be negative is an integer of
-- Base/Int. Where the source wraps around, the remainder is written out.
--
-- Fuel. unescape's loop has one round of fuel more than the string has characters, the loop of
-- decodeBase64 has as many as its buffer has bytes; the theorems about them show that this is
-- enough, since the result is never the outcome for lack of fuel. The output of a script has
-- as much fuel as it has bytes, which is shown to be enough. All other loops are by recursion
-- on the bytes, events, lines or rounds.
--
-- The build. MANAGMENT and WXP_COMPAT are fields of a record that client_thread takes.
--
-- Not modelled: getaddrinfo, select and the creation of threads; the option parsing of plugins; those
-- failing calls of malloc that end the process; init_videoIn and enumerateControls of the camera, and its
-- dynamic controls; the calls of V4L2, libjpeg and MMAL, and the library MMAL itself with the input
-- plugin that is built around it; the measure of the sharpness; the other plugins, which call libraries
-- or copy a frame to a file or a socket.
pub mod Autofocus
pub mod Base
pub mod CString
pub mod Decimal
pub mod Frames
pub mod Http
pub mod Main
pub mod Proxy
pub mod RingBuffer
pub mod Uvc
