-- ===== src/Uvc/Destination.antt =====
-- jpeg_utils.c: the destination manager, which takes the compressed bytes from libjpeg and writes
-- them to the buffer of the caller.
use raspberry_car.Base.{
  ℕ, ◌+◌, ◌≡◌, refl, ap, ap₂, All, List, [], ◌∷◌, ◌++◌, append_assoc, take, take_all, length,
  length-append, arith,
}

abbrev pub output_buf_size : ℕ
output_buf_size = 4096

-- What stands in the caller's buffer up to `outbuffer_cursor`, what libjpeg put into the manager's
-- own buffer since it was last reset, and the number at `written`.
pub record Destination : Type 0 where
  pub outbuffer : List ℕ
  pub buffer : List ℕ
  pub written : ℕ

unfoldable pub init_destination : Destination
init_destination = record { outbuffer = []; buffer = []; written = 0 }

unfoldable pub empty_output_buffer : Destination → Destination
empty_output_buffer d = record {
  outbuffer = d.outbuffer ++ take output_buf_size d.buffer;
  buffer = [];
  written = d.written + output_buf_size;
}

unfoldable pub term_destination : Destination → Destination
term_destination d = record d {
  outbuffer = d.outbuffer ++ d.buffer;
  written = d.written + length d.buffer;
}

-- libjpeg fills the manager's buffer with these bytes.
abbrev pub filled_with : List ℕ → Destination → Destination
filled_with bytes d = record d { buffer = bytes }

-- The calls between jpeg_start_compress and jpeg_finish_compress: one of empty_output_buffer for
-- each block, and the last of term_destination, with the bytes that libjpeg has then put into the
-- buffer.
unfoldable pub empty_blocks : Destination → List (List ℕ) → Destination
unfolding empty_output_buffer
empty_blocks d [] = d
empty_blocks d (block ∷ blocks) = empty_blocks (empty_output_buffer (filled_with block d)) blocks

unfoldable pub compress : List (List ℕ) → List ℕ → Destination
unfolding init_destination empty_blocks term_destination
compress blocks rest = term_destination (filled_with rest (empty_blocks init_destination blocks))

abbrev pub joined : List (List ℕ) → List ℕ → List ℕ
joined [] rest = rest
joined (block ∷ blocks) rest = block ++ joined blocks rest

-- libjpeg calls empty_output_buffer only when the buffer is full.
abbrev pub IsFull : List ℕ → Type 0
IsFull block = length block ≡ output_buf_size

-- What stands in the caller's buffer, and the number at `written`, when the rest follows.
abbrev Wrote : List ℕ → Destination → Type 0
Wrote bytes d = (d.outbuffer ≡ bytes) × (d.written ≡ length bytes)

empty_output_buffer-Wrote :
    (bytes block : List ℕ) (d : Destination)
    → IsFull block
    → Wrote bytes d
    → Wrote (bytes ++ block) (empty_output_buffer (filled_with block d))
unfolding empty_output_buffer
empty_output_buffer-Wrote bytes block d full h =
    let cut : take output_buf_size block ≡ block = take_all output_buf_size block (omega arith) in
    (ap₂ (λ a b. a ++ b) h.0 cut, omega (arith, h.1, length-append bytes block))

empty_blocks-Wrote :
    (bytes : List ℕ) (blocks : List (List ℕ)) (rest : List ℕ) (d : Destination)
    → All IsFull blocks
    → Wrote bytes d
    → Wrote
        (bytes ++ joined blocks rest)
        (term_destination (filled_with rest (empty_blocks d blocks)))
unfolding empty_blocks term_destination
empty_blocks-Wrote bytes [] rest d full h =
    (ap (λ a. a ++ rest) h.0, omega (arith, h.1, length-append bytes rest))
empty_blocks-Wrote bytes (block ∷ blocks) rest d full h =
    rw (← append_assoc bytes block (joined blocks rest)) (
      empty_blocks-Wrote (bytes ++ block) blocks rest (empty_output_buffer (filled_with block d))
        full.1 (empty_output_buffer-Wrote bytes block d full.0 h))

-- The caller's buffer receives the bytes that libjpeg puts out, all of them and in order, and the
-- number that is returned is theirs. The condition is libjpeg's promise that the buffer is full
-- when it calls empty_output_buffer.
pub compress-joined :
    (blocks : List (List ℕ)) (rest : List ℕ)
    → All IsFull blocks
    → ((compress blocks rest).outbuffer ≡ joined blocks rest)
      × ((compress blocks rest).written ≡ length (joined blocks rest))
unfolding compress init_destination
compress-joined blocks rest full =
    empty_blocks-Wrote [] blocks rest init_destination full (refl, refl)
