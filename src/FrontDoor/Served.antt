-- ===== src/FrontDoor/Served.antt =====
-- The invariant of the front door machine (public/workers/lsp-front-door.js) through the frames of
-- the FileWorker and of the ring.
use qed.Common.{
  ◌≡◌, refl, sym, subst, String, Bool, true, false, ◌&&◌, Option, none, some, List, [], ◌∷◌, arith,
  if◌then◌else◌, if_rule,
}
use qed.Common.Lists.{all}
use qed.Common.Int.{ℤ}
use qed.Common.Json.{Json, Items, get, get_in, items_of, is_some, truthy}
use qed.FrontDoor.Machine.{
  Phase, booting, ready, opened, dead, Held, Machine, Turn, Progress, Collision, Doc, version_of,
  begin, has_method,
}
use qed.FrontDoor.Wire.{wire_ok, all_held}
use qed.FrontDoor.Valid.{IsSoundIn, IsSound}
use qed.FrontDoor.Step.{
  msgs_of, on_ring, server_frame, published_or, on_notice, on_progress, progress_of, on_publish,
  publish,
}

all-msgs_of : (p : Json → Bool) (qs : List Held) → all_held p qs ≡ true → all p (msgs_of qs) ≡ true
all-msgs_of p [] h = refl
all-msgs_of p (q ∷ qs) h = ground (arith, all-msgs_of p qs)

-- Between two steps the writes and the replies of the last are gone.
pub begin-IsSoundIn : (p : Phase) (t : Turn) → IsSoundIn p t → IsSoundIn p (begin t.state)
begin-IsSoundIn booting t r = record {
  no_doc = r.no_doc;
  no_backlog = r.no_backlog;
  no_writes = refl;
  no_loop = refl;
}
begin-IsSoundIn ready t r = record {
  no_doc = r.no_doc;
  no_backlog = r.no_backlog;
  no_writes = refl;
  no_loop = refl;
}
begin-IsSoundIn opened t r = record {
  doc = r.doc;
  is_doc = r.is_doc;
  in_step = r.in_step;
  no_queue = r.no_queue;
  unblocked = r.unblocked;
  parked = r.parked;
  written = refl;
}
begin-IsSoundIn dead t r = record { no_backlog = r.no_backlog; no_writes = refl; no_loop = refl }

-- What a frame of the FileWorker may change.
pub data Seen (s s' : Machine) : Type 0 where
  seen :
      (p : Option Progress) (h : Option Json) (c : Option Collision)
      → s' ≡ record s { progress = p; header = h; collision = c }
      → Seen s s'

notice-Seen : (s : Machine) (raw : Option Json) (msg : Json) → Seen s (on_notice s raw msg)
notice-Seen s raw msg =
    if_rule (Seen s)
      (has_method msg "$/lean/fileProgress" && is_some (version_of (get_in raw "textDocument")))
      (on_progress raw (version_of (get_in raw "textDocument")) s)
      (if has_method msg "$/qed64/headerStatus" && truthy (get "params" msg)
        then record s { header = get "params" msg }
        else s)
      (λ _. progress-Seen (version_of (get_in raw "textDocument")))
      λ _.
        if_rule (Seen s) (has_method msg "$/qed64/headerStatus" && truthy (get "params" msg))
          (record s { header = get "params" msg }) s
          (λ _. seen s.progress (get "params" msg) s.collision refl)
          λ _. seen s.progress s.header s.collision refl
  where
    progress-Seen : (o : Option ℤ) → Seen s (on_progress raw o s)
    progress-Seen none = seen s.progress s.header s.collision refl
    progress-Seen (some v) = seen (some (progress_of raw v)) s.header s.collision refl

publish-Seen :
    (ns : List String) (s : Machine) (msg p : Json) (xs : Items) (v : ℤ)
    → Seen s (publish ns s msg p xs v).0
publish-Seen [] s msg p xs v = seen s.progress s.header none refl
publish-Seen (n ∷ ns) s msg p xs v = seen s.progress s.header _ refl

on_publish-Seen :
    (p : Option Json) (xs : Option Items) (d : Option Doc) (s : Machine) (msg : Json)
    (other : Machine × Json)
    → Seen s other.0
    → Seen s (published_or (on_publish p xs d s msg) other).0
on_publish-Seen (some p) (some xs) (some d) s msg other h = publish-Seen _ s msg p xs d.version
on_publish-Seen none xs d s msg other h = h
on_publish-Seen (some p) none d s msg other h = h
on_publish-Seen (some p) (some xs) none s msg other h = h

pub server_frame-Seen :
    (s : Machine) (raw : Option Json) (msg : Json) → Seen s (server_frame s raw msg).0
unfolding server_frame
server_frame-Seen s raw msg =
    if_rule (λ o. Seen s (published_or o (on_notice s raw msg, msg)).0)
      (has_method msg "textDocument/publishDiagnostics")
      (on_publish (get "params" msg) (items_of (get_in (get "params" msg) "diagnostics")) s.doc s
        msg)
      none (λ _. on_publish-Seen _ _ s.doc s msg _ (notice-Seen s raw msg))
      λ _. notice-Seen s raw msg

Seen-IsSoundIn :
    (p : Phase) (s : Machine) (replies : List Json) (g : Option Progress) (h : Option Json)
    (c : Option Collision)
    → IsSoundIn p (begin s)
    → IsSoundIn p (record (begin (record s { progress = g; header = h; collision = c })) {
      replies = replies;
    })
Seen-IsSoundIn booting s replies g h c r = record {
  no_doc = r.no_doc;
  no_backlog = r.no_backlog;
  no_writes = refl;
  no_loop = refl;
}
Seen-IsSoundIn ready s replies g h c r = record {
  no_doc = r.no_doc;
  no_backlog = r.no_backlog;
  no_writes = refl;
  no_loop = refl;
}
Seen-IsSoundIn opened s replies g h c r = record {
  doc = r.doc;
  is_doc = r.is_doc;
  in_step = r.in_step;
  no_queue = r.no_queue;
  unblocked = r.unblocked;
  parked = r.parked;
  written = refl;
}
Seen-IsSoundIn dead s replies g h c r = record {
  no_backlog = r.no_backlog;
  no_writes = refl;
  no_loop = refl;
}

pub Seen-IsSound :
    (s s' : Machine) (replies : List Json)
    → IsSound (begin s)
    → Seen s s'
    → IsSound (record (begin s') { replies = replies })
Seen-IsSound s s' replies sound (seen g h c e) =
    subst (λ x. IsSound (record (begin x) { replies = replies })) (sym e)
      (Seen-IsSoundIn s.phase s replies g h c sound)

ring-IsSoundIn :
    (p : Phase) (s : Machine) (busy : Bool) → IsSoundIn p (begin s) → IsSoundIn p (on_ring s busy)
ring-IsSoundIn booting s true r = record {
  no_doc = r.no_doc;
  no_backlog = r.no_backlog;
  no_writes = refl;
  no_loop = refl;
}
ring-IsSoundIn booting s false r = record {
  no_doc = r.no_doc;
  no_backlog = refl;
  no_writes = rw (r.no_backlog);
  no_loop = refl;
}
ring-IsSoundIn ready s true r = record {
  no_doc = r.no_doc;
  no_backlog = r.no_backlog;
  no_writes = refl;
  no_loop = refl;
}
ring-IsSoundIn ready s false r = record {
  no_doc = r.no_doc;
  no_backlog = refl;
  no_writes = rw (r.no_backlog);
  no_loop = refl;
}
ring-IsSoundIn opened s true r = record {
  doc = r.doc;
  is_doc = r.is_doc;
  in_step = r.in_step;
  no_queue = r.no_queue;
  unblocked = λ free. absurd cc;
  parked = r.parked;
  written = refl;
}
ring-IsSoundIn opened s false r = record {
  doc = r.doc;
  is_doc = r.is_doc;
  in_step = r.in_step;
  no_queue = r.no_queue;
  unblocked = λ _. refl;
  parked = refl;
  written = all-msgs_of wire_ok s.backlog r.parked;
}
ring-IsSoundIn dead s true r = record {
  no_backlog = r.no_backlog;
  no_writes = refl;
  no_loop = refl;
}
ring-IsSoundIn dead s false r = record {
  no_backlog = refl;
  no_writes = rw (r.no_backlog);
  no_loop = refl;
}

pub ring-IsSound : (s : Machine) (busy : Bool) → IsSound (begin s) → IsSound (on_ring s busy)
ring-IsSound s true r = ring-IsSoundIn s.phase s true r
ring-IsSound s false r = ring-IsSoundIn s.phase s false r
