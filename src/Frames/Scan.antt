-- ===== src/Frames/Scan.antt =====
-- The byte tests of public/workers/lsp-frames.js: the header pattern, the blank line behind a
-- header, the digits in it, and the end of a junk line.
use qed.Common.{
  ℕ, ◌+◌, ◌-◌, ◌*◌, ◌/◌, ◌%◌, Bool, true, ◌&&◌, ◌||◌, [], ◌∷◌, ltb, leb, ◌==◌, if◌then◌else◌,
}
use qed.Common.Lists.{get_or}
use qed.Frames.Buffer.{Bytes}

-- "content-length:", 15 bytes
abbrev pub header : Bytes
header =
    0x63 ∷ 0x6f ∷ 0x6e ∷ 0x74 ∷ 0x65 ∷ 0x6e ∷ 0x74 ∷ 0x2d ∷ 0x6c ∷ 0x65 ∷ 0x6e ∷ 0x67 ∷ 0x74 ∷ 0x68
    ∷ 0x3a ∷ []

abbrev pub header_length : ℕ
header_length = 15

abbrev pub junk_line_cap : ℕ
junk_line_cap = 4096

abbrev pub cr : ℕ
cr = 0x0d

abbrev pub lf : ℕ
lf = 0x0a

-- `byte | 32` on a byte: the bit of value 32 is set.
abbrev pub or_32 : ℕ → ℕ
or_32 byte = if (byte / 32) % 2 == 1 then byte else byte + 32

abbrev pub header_byte_matches : ℕ → ℕ → Bool
header_byte_matches byte want =
    if leb 0x61 want && leb want 0x7a then or_32 byte == want else byte == want

-- `HEADER[at]` of an index inside the pattern
abbrev pub header_at : ℕ → ℕ
header_at i = get_or header i 0

-- The byte at index `at` of a header run fits the pattern, or stands behind it.
unfoldable pub header_continues : ℕ → ℕ → Bool
header_continues at byte =
    if ltb at header_length then header_byte_matches byte (header_at at) else true

-- `headerTerminated`, on a function that reads the byte `k` places before the end.
abbrev pub blank_line_at : ℕ → (ℕ → ℕ) → Bool
blank_line_at count before =
    (leb 4 count && (before 4 == cr) && (before 3 == lf) && (before 2 == cr) && (before 1 == lf))
    || (leb 2 count && (before 2 == lf) && (before 1 == lf))

abbrev pub is_digit : ℕ → Bool
is_digit b = leb 0x30 b && leb b 0x39

-- `while (b[i] === 0x20) i += 1`
unfoldable pub skip_spaces : Bytes → Bytes
skip_spaces [] = []
skip_spaces (b ∷ bs) = let rest = skip_spaces bs in if b == 0x20 then rest else b ∷ bs

-- The digits loop, with `n` and `digits` as it has them: their value, and how many there are.
unfoldable pub read_digits : ℕ → ℕ → Bytes → ℕ × ℕ
read_digits n digits [] = (n, digits)
read_digits n digits (b ∷ bs) =
    let rest = read_digits (n * 10 + (b - 0x30)) (digits + 1) bs in
    if is_digit b then rest else (n, digits)

-- The line without the CR and LF at its end.
unfoldable pub trim_line_end : Bytes → Bytes
trim_line_end [] = []
trim_line_end (b ∷ bs) = elim (trim_line_end bs) [
  | [] ↦ if b == lf || b == cr then [] else b ∷ []
  | c ∷ cs ↦ b ∷ c ∷ cs
]
