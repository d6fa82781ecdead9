-- ===== src/Frames/Decoder.antt =====
-- `LspFrameDecoder` of public/workers/lsp-frames.js, method by method. The callbacks `onFrame` and
-- `onJunk` are the list `out` of what they were called with, in order; `TextDecoder.decode` and
-- `String.trim` are parameters.
use text.Mathlib.Text.{◌==◌ as str_eq}
use qed.Common.{
  ℕ, zero, suc, ◌+◌, ◌-◌, ◌*◌, min, String, Bool, true, false, ◌&&◌, ◌||◌, Option, none, some, List,
  [], ◌∷◌, ◌++◌, ltb, leb, ◌==◌, if◌then◌else◌,
}
use qed.Common.Lists.{length, take, drop}
use qed.Frames.Buffer.{Bytes, Buffer, zeros, store, store_all, slice, copy_to_front}
use qed.Frames.Scan.{
  header_length, junk_line_cap, lf, header_byte_matches, header_at, header_continues, blank_line_at,
  skip_spaces, read_digits, trim_line_end,
}

pub record TextDecoder : Type 0 where
  pub decode : Bytes → String
  pub trim : String → String

pub data Event : Type 0 where
  frame : String → Event
  junk : String → Event

-- `need` is `none` where the source has -1: no body is awaited.
pub record Decoder : Type 0 where
  pub buf : Buffer
  pub head : ℕ
  pub len : ℕ
  pub need : Option ℕ
  pub header_ok : Bool
  pub matched : ℕ
  pub frames : ℕ
  pub junk_lines : ℕ
  pub junk_bytes : ℕ
  pub out : List Event

abbrev pub initial_size : ℕ
initial_size = 64 * 1024

abbrev pub new_decoder : Decoder
new_decoder = record {
  buf = zeros initial_size;
  head = 0;
  len = 0;
  need = none;
  header_ok = true;
  matched = 0;
  frames = 0;
  junk_lines = 0;
  junk_bytes = 0;
  out = [];
}

abbrev pub pending_bytes : Decoder → ℕ
pending_bytes d = d.len - d.head

-- `while (size < wanted) size *= 2`; `wanted` rounds are enough from any positive size.
unfoldable pub double_to : ℕ → ℕ → ℕ → ℕ
double_to zero size wanted = size
double_to (suc fuel) size wanted =
    let more = double_to fuel (size * 2) wanted in if ltb size wanted then more else size

abbrev pub compact : Decoder → Decoder
compact d =
    if ltb 0 d.head
    then record d { buf = copy_to_front d.buf d.head d.len; len = d.len - d.head; head = 0 }
    else d

abbrev pub enlarge : Decoder → ℕ → Decoder
enlarge d extra =
    if ltb d.buf.size (d.len + extra)
    then record d {
      buf =
          store_all (zeros (double_to (d.len + extra) (d.buf.size * 2) (d.len + extra))) 0
            (slice d.buf 0 d.len);
    }
    else d

unfoldable pub grow : Decoder → ℕ → Decoder
grow d extra = enlarge (compact d) extra

-- The rolling match of the header over the tail of a junk run.
abbrev pub roll : ℕ → ℕ → ℕ
roll matched byte =
    if header_byte_matches byte (header_at matched)
    then matched + 1
    else (if header_byte_matches byte (header_at 0) then 1 else 0)

-- The bytes behind "Content-Length:", as `parseHeader` scans them.
abbrev pub header_rest : Decoder → Bytes
header_rest d = slice d.buf (d.head + header_length) (d.len - (d.head + header_length))

abbrev pub header_terminated : Decoder → Bool
header_terminated d = blank_line_at (d.len - d.head) (λ k. d.buf.at (d.len - k))

abbrev pub append_byte : Decoder → ℕ → Decoder
append_byte d byte = record d { buf = store d.buf d.len byte; len = d.len + 1 }

module _ (text : TextDecoder) where
  -- `emitBody`, where `n` is `this.need`
  unfoldable pub emit_body : Decoder → ℕ → Decoder
  emit_body d n =
      let body = text.decode (slice d.buf d.head n) in
      let done = d.head + n == d.len in
      record d {
        head = if done then 0 else d.head + n;
        len = if done then 0 else d.len;
        need = none;
        header_ok = true;
        matched = 0;
        frames = d.frames + 1;
        out = d.out ++ frame body ∷ [];
      }

  -- `onJunk`, unless the line is blank
  abbrev pub report_junk : String → Decoder → Decoder
  report_junk line d =
      if str_eq (text.trim line) ""
      then d
      else record d { junk_lines = d.junk_lines + 1; out = d.out ++ junk line ∷ [] }

  -- `flushJunk` with its `end`
  unfoldable pub flush_junk_to : Decoder → ℕ → Decoder
  flush_junk_to d end =
      let line = text.decode (trim_line_end (slice d.buf d.head (end - d.head))) in
      let all = end == d.len in
      report_junk line (record d {
        head = if all then 0 else end;
        len = if all then 0 else d.len;
        header_ok = if all then true else d.header_ok;
        matched = if all then 0 else d.matched;
        junk_bytes = d.junk_bytes + (end - d.head);
      })

  -- `flushJunk()`: a junk run keeps the bytes that may begin a header.
  unfoldable pub flush_junk : Decoder → Decoder
  flush_junk d = flush_junk_to d (d.len - (if d.header_ok then 0 else d.matched))

  unfoldable pub resync : Decoder → ℕ → Decoder
  resync d start = record (flush_junk_to d start) { header_ok = true; matched = 0 }

  -- The end of `parseHeader`, with the length `n` that was read and its number of digits.
  unfoldable pub await_body : Decoder → ℕ → ℕ → Decoder
  await_body d n digits =
      if digits == 0
      then flush_junk d
      else if n == 0
      then emit_body (record d { head = d.len; need = some n }) n
      else record d { head = d.len; need = some n }

  unfoldable pub parse_header : Decoder → Decoder
  parse_header d =
      let (n, digits) = read_digits 0 0 (skip_spaces (header_rest d)) in await_body d n digits

  -- `push` in a junk run, the rolling match being updated
  unfoldable pub settle_junk : Decoder → ℕ → Decoder
  settle_junk d byte =
      if d.matched == header_length
      then resync d (d.len - header_length)
      else if byte == lf || leb junk_line_cap (d.len - d.head)
      then flush_junk d
      else d

  unfoldable pub push_junk : Decoder → ℕ → Decoder
  push_junk d byte = settle_junk (record d { matched = roll d.matched byte }) byte

  -- `push` while a header is read, the byte being stored
  unfoldable pub push_header : Decoder → ℕ → Decoder
  push_header d byte =
      let at = d.len - d.head - 1 in
      let still = d.header_ok && header_continues at byte in
      if still
      then (if byte == lf && header_terminated d
          then parse_header d
          else if leb junk_line_cap (d.len - d.head)
          then flush_junk d
          else d)
      else push_junk
          (record d { header_ok = false; matched = if d.header_ok then 0 else d.matched }) byte

  -- `push` behind the append
  abbrev pub after_append : Option ℕ → Decoder → ℕ → Decoder
  after_append (some n) d byte = if leb n (d.len - d.head) then emit_body d n else d
  after_append none d byte = push_header d byte

  unfoldable pub push : Decoder → ℕ → Decoder
  push d byte =
      let roomy = if d.len == d.buf.size then grow d 1 else d in
      after_append d.need (append_byte roomy byte) byte

  -- One round of `pushBytes` inside a body: `count` bytes at once.
  unfoldable pub push_bulk : Decoder → ℕ → Bytes → Decoder
  push_bulk d n bulk =
      let count = length bulk in
      let roomy = if ltb d.buf.size (d.len + count) then grow d count else d in
      let filled = record roomy {
        buf = store_all roomy.buf roomy.len bulk;
        len = roomy.len + count;
      } in
      if leb n (filled.len - filled.head) then emit_body filled n else filled

  -- One round of the loop of `pushBytes` on the bytes that are left, and what is left then.
  abbrev pub push_round : Option ℕ → Decoder → ℕ → Bytes → Decoder × Bytes
  push_round (some n) d b bs =
      let count = min (length (b ∷ bs)) (n - (d.len - d.head)) in
      (push_bulk d n (take count (b ∷ bs)), drop count (b ∷ bs))
  push_round none d b bs = (push d b, bs)

  -- `pushBytes`; each round takes at least a byte, so as many rounds as bytes are enough.
  unfoldable pub push_bytes_on : ℕ → Decoder → Bytes → Decoder
  push_bytes_on zero d bytes = d
  push_bytes_on (suc fuel) d [] = d
  push_bytes_on (suc fuel) d (b ∷ bs) =
      let (e, rest) = push_round d.need d b bs in push_bytes_on fuel e rest

  abbrev pub push_bytes : Decoder → Bytes → Decoder
  push_bytes d bytes = push_bytes_on (length bytes) d bytes

  -- The bytes one at a time, as the put_char sink feeds them.
  abbrev pub push_each : Decoder → Bytes → Decoder
  push_each d [] = d
  push_each d (b ∷ bs) = push_each (push d b) bs
