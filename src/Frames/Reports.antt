-- ===== src/Frames/Reports.antt =====
-- The junk lines that public/workers/lsp-frames.js reports.
use qed.Common.{◌+◌, ◌≡◌, refl, ◌∙◌, Bool, true, false, List, [], ◌∷◌, ◌++◌, arith, String}
use qed.Common.Lists.{all, length}
use qed.Frames.Decoder.{Event, frame, junk}
use qed.Frames.Stream.{Stream}

abbrev pub is_junk : Event → Bool
is_junk (junk line) = true
is_junk (frame text) = false

-- Behind the events of `origin` there are only junk lines, each counted, and no frame more.
pub record Reports (origin s : Stream) : Type 0 where
  pub same_frames : s.frames ≡ origin.frames
  pub more : List Event
  pub events : s.out ≡ origin.out ++ more
  pub only_junk : all is_junk more ≡ true
  pub lines : s.junk_lines ≡ origin.junk_lines + length more

pub Reports-same :
    (origin s t : Stream)
    → t.frames ≡ s.frames
    → t.out ≡ s.out
    → t.junk_lines ≡ s.junk_lines
    → Reports origin s
    → Reports origin t
Reports-same origin s t f o l r = record {
  same_frames = f ∙ r.same_frames;
  more = r.more;
  events = o ∙ r.events;
  only_junk = r.only_junk;
  lines = l ∙ r.lines;
}

pub all_junk-snoc :
    (es : List Event) (line : String)
    → all is_junk es ≡ true
    → all is_junk (es ++ junk line ∷ []) ≡ true
all_junk-snoc [] line h = refl
all_junk-snoc (e ∷ es) line h = ground (arith, all_junk-snoc es line, h)
