-- ===== src/Frames/Tests.antt =====
-- Runs of the decoder of public/workers/lsp-frames.js, and the theorems at concrete inputs.
use mathlib.Core.List.{flatten}
use qed.Common.{◌≡◌, refl, false, none, inl, List, [], ◌∷◌, arith}
use qed.Common.Text.{codes, ascii}
use qed.Frames.Buffer.{Bytes}
use qed.Frames.Scan.{skip_spaces, read_digits, trim_line_end, header_continues}
use qed.Frames.Decoder.{
  TextDecoder, Decoder, frame, junk, new_decoder, double_to, grow, emit_body, flush_junk_to,
  flush_junk, resync, await_body, parse_header, settle_junk, push_junk, push_header, push,
  push_bytes, push_each,
}
use qed.Frames.Stream.{view, feed}
use qed.Frames.Resync.{Delivers, push_bytes-Delivers}
use qed.Frames.Encoder.{framed, decimal_onto, resident_frame}
use qed.Frames.Refines.{IsSound, new_decoder-IsSound, push-view, push_each-IsSound}
use qed.Frames.Chunks.{push_bytes-push_each, push_bytes-IsSound}
use qed.Frames.RoundTrip.{IsLength, push_chunks, push_chunks-wire, after_frames}

-- ASCII text, where `trim` is seen on an empty line only.
abbrev plain : TextDecoder
plain = record { decode = ascii; trim = λ s. s }

abbrev two_bodies : List Bytes
two_bodies = codes "{}" ∷ codes "[1]" ∷ []

abbrev stray : Bytes
stray = codes "hello\nboContent-Length: 2\r\n\r\n{}"

stray_events : (push_each plain new_decoder stray).out ≡ junk "hello" ∷ junk "bo" ∷ frame "{}" ∷ []
unfolding push grow emit_body push_header push_junk settle_junk parse_header await_body
    flush_junk_to flush_junk resync skip_spaces read_digits trim_line_end header_continues double_to
stray_events = refl

abbrev cut : List Bytes
cut = codes "Content-Length: 2\r\n" ∷ codes "\r\n{}Content-Length: 3\r\n\r\n[" ∷ codes "1]" ∷ []

push_bytes-push_each_example :
    view (push_bytes plain new_decoder stray) ≡ view (push_each plain new_decoder stray)
push_bytes-push_each_example = push_bytes-push_each plain new_decoder stray new_decoder-IsSound

push_chunks-wire_example :
    (view (push_chunks plain new_decoder cut)) ≡ after_frames plain (view new_decoder) two_bodies
unfolding resident_frame decimal_onto flatten
push_chunks-wire_example = push_chunks-wire plain two_bodies cut (omega arith) refl

-- A body that lacks its last byte.
abbrev unfinished : Decoder
unfinished = push_each plain new_decoder (codes "Content-Length: 2\r\n\r\n{")

push-view_example : view (push plain unfinished 0x7d) ≡ feed plain (view unfinished) 0x7d
push-view_example =
    push-view plain unfinished 0x7d
      (push_each-IsSound plain new_decoder (codes "Content-Length: 2\r\n\r\n{") new_decoder-IsSound)

push_bytes-IsSound_example : IsSound (push_bytes plain unfinished stray)
push_bytes-IsSound_example =
    push_bytes-IsSound plain unfinished stray
      (push_each-IsSound plain new_decoder (codes "Content-Length: 2\r\n\r\n{") new_decoder-IsSound)

-- Junk without a line end, before a frame.
abbrev boo : Decoder
boo = push_each plain new_decoder (codes "boo")

boo_is_junk : boo.header_ok ≡ false
unfolding push grow emit_body push_header push_junk settle_junk parse_header await_body
    flush_junk_to flush_junk resync skip_spaces read_digits trim_line_end header_continues double_to
boo_is_junk = refl

boo_idle : boo.need ≡ none
unfolding push grow emit_body push_header push_junk settle_junk parse_header await_body
    flush_junk_to flush_junk resync skip_spaces read_digits trim_line_end header_continues double_to
boo_idle = refl

two : IsLength (codes "2") 2
two = record { digits = refl; nonempty = omega arith; short = omega arith; value = refl }

push_bytes-Delivers_example :
    Delivers plain
      (view boo)
      (view (push_bytes plain boo (framed (codes "2") (codes "{}"))))
      (codes "{}")
push_bytes-Delivers_example =
    push_bytes-Delivers plain boo (codes "2") (codes "{}")
      (push_each-IsSound plain new_decoder (codes "boo") new_decoder-IsSound) boo_idle
      (inl boo_is_junk) two
