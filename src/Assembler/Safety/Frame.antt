-- ===== src/Assembler/Safety/Frame.antt =====
-- A whole frame: packets in sequence with one timestamp, of which the last one is marked.
use obs_st.Base.{
  Returns, u32, none, some, ◌∙◌, ap, sym, [], refl, splice, ℕ, refl, ◌+◌, ◌≡◌, arith, Bool, true,
  false, Option, some, List, ◌∷◌, Bytes, length, ok, ◌>>=◌, Exec, replicate,
}
use obs_st.Types.{PixFmt, Frame}
use obs_st.Rtp.{RtpHeader}
use obs_st.Rtp.View.{view}
use obs_st.Assembler.{Assembler, IsReady}
use obs_st.Assembler.Packet.{remember, rx_assembler_process_packet}
use obs_st.Assembler.Packet.{Processed}
use obs_st.Assembler.Deliver.{frame_of, swap_buffers}
use obs_st.Assembler.Segments.{Segment}
use obs_st.Assembler.Safety.Segments.{painted, headers_view, place, segment_limit}
use obs_st.Assembler.Safety.Frames.{SameShape}
use obs_st.Assembler.Safety.Whole.{view_bounds, stored-IsReady, remember-IsReady}
use obs_st.Assembler.Safety.InOrder.{
  collect, IsNext, advanced, process_next, process_last, closed, restarted, restarted-IsReady,
}

painted-SameShape :
    (a b : Assembler) (pkt : Bytes) (end : ℕ) (segs : List Segment) (p : ℕ) (fill : Bytes)
    → SameShape a b
    → painted b pkt end segs p fill ≡ painted a pkt end segs p fill
unfolding painted
painted-SameShape a b pkt end [] p fill shape = refl
painted-SameShape a b pkt end (seg ∷ segs) p fill shape =
    let next = p + seg.seg_length in
    rw
      (
        shape.same_width,
        shape.same_height,
        shape.same_pgroup,
        painted-SameShape a b pkt end segs next fill shape,
        painted-SameShape a b pkt end segs next (splice fill (place b seg) pkt p seg.seg_length)
            shape,
      )
      refl

-- The calls of `rx_assembler_process_packet` for one packet after the other.
abbrev pub feed : PixFmt → Processed (List Frame) → List Bytes → Exec (Processed (List Frame))
feed fmt r [] = ok r
feed fmt r (pkt ∷ rest) =
    rx_assembler_process_packet r.asm (some pkt) (length pkt) (some collect) r.user fmt r.lost
    >>= λ r'. feed fmt (record r' { completed = r.completed + r'.completed }) rest

-- The packets of a frame from the assembler `a` on: each is the next one, only the last is marked, and
-- `b` is the assembler before the frame is delivered.
pub data IsFrame : Assembler → List Bytes → Assembler → Type 0 where
  last :
      {a : Assembler} {pkt : Bytes} {header : RtpHeader}
      → IsNext a true pkt header
      → IsFrame a (pkt ∷ []) (advanced a pkt header)
  more :
      {a : Assembler} {pkt : Bytes} {header : RtpHeader} {rest : List Bytes} {b : Assembler}
      → IsNext a false pkt header
      → IsFrame (advanced a pkt header) rest b
      → IsFrame a (pkt ∷ rest) b

-- The picture after the segments of a packet, and of several packets, are stored in it.
abbrev pub paint_segments : Assembler → Bytes → Bytes → Option RtpHeader → Bytes
paint_segments a pkt fill none = fill
paint_segments a pkt fill (some header) =
    let headers = headers_view pkt (length pkt) segment_limit (header.payload + 2) [] in
    painted a pkt (length pkt) headers.segments headers.payloads fill

abbrev pub paint : Assembler → Bytes → Bytes → Bytes
paint a pkt fill = paint_segments a pkt fill (view pkt (length pkt))

abbrev pub picture : Assembler → List Bytes → Bytes → Bytes
picture a [] fill = fill
picture a (pkt ∷ rest) fill = picture a rest (paint a pkt fill)

pub paint-SameShape :
    (a b : Assembler) (pkt fill : Bytes) (o : Option RtpHeader)
    → SameShape a b
    → paint_segments b pkt fill o ≡ paint_segments a pkt fill o
paint-SameShape a b pkt fill none shape = refl
paint-SameShape a b pkt fill (some header) shape =
    let headers = headers_view pkt (length pkt) segment_limit (header.payload + 2) [] in
    painted-SameShape a b pkt (length pkt) headers.segments headers.payloads fill shape

pub picture-SameShape :
    (a b : Assembler) (pkts : List Bytes) (fill : Bytes)
    → SameShape a b
    → picture b pkts fill ≡ picture a pkts fill
picture-SameShape a b [] fill shape = refl
picture-SameShape a b (pkt ∷ rest) fill shape =
    rw (paint-SameShape a b pkt fill (view pkt (length pkt)) shape)
      (picture-SameShape a b rest (paint a pkt fill) shape)

pub advanced-SameShape :
    (a : Assembler) (pkt : Bytes) (header : RtpHeader) → SameShape a (advanced a pkt header)
advanced-SameShape a pkt header = ground arith

pub advanced_fill :
    (a : Assembler) {marker : Bool} {pkt : Bytes} {header : RtpHeader}
    → IsNext a marker pkt header
    → (advanced a pkt header).fill_buf ≡ paint a pkt a.fill_buf
advanced_fill a {marker} {pkt} {header} next =
    paint-SameShape a (remember (restarted a header) header) pkt a.fill_buf (some header)
      (ground arith)
    ∙ ap (paint_segments a pkt a.fill_buf) (sym next.parsed)

-- One frame more, that shows the painted picture of `a` and is marked as it was, and no loss.
pub record IsDelivered (a : Assembler) (fmt : PixFmt) (pkts : List Bytes)
    (before r : Processed (List Frame)) : Type 0 where
  pub frame : Frame
  pub user : r.user ≡ frame ∷ before.user
  pub plane : frame.plane ≡ picture a pkts a.fill_buf
  pub incomplete : frame.incomplete ≡ a.frame_incomplete
  pub frame_number : frame.frame_number ≡ a.frame_number
  pub dimensions :
      (frame.linesize ≡ a.fill_stride)
      × (frame.width ≡ a.width)
      × (frame.height ≡ a.height)
      × (frame.format ≡ fmt)
  pub lost : r.lost ≡ before.lost
  pub completed : r.completed ≡ before.completed + 1
  pub next : Assembler
  pub is_next : r.asm ≡ some next
  pub blank : next.fill_buf ≡ replicate (length a.deliver_buf) 0
  pub next_number : next.frame_number ≡ u32 (a.frame_number + 1)

pub advanced-IsReady :
    {a : Assembler} {marker : Bool} {pkt : Bytes} {header : RtpHeader}
    → IsNext a marker pkt header
    → IsReady a
    → IsReady (advanced a pkt header)
advanced-IsReady {pkt} {header} next ready =
    let (seq_range, ts_range, inside) = view_bounds pkt (length pkt) next.octets next.parsed in
    stored-IsReady pkt (header.payload + 2) (length pkt) next.octets (omega arith)
      (remember-IsReady header seq_range ts_range (restarted-IsReady header ready))

-- The packets of one frame, in sequence, unmarked but for the last one, at a ready assembler: the calls
-- deliver exactly one frame, behind the last packet. It shows the fill buffer with the segments of all
-- packets painted in their order, is incomplete only if the assembler was already at the first
-- packet, and has its number; no packet counts as lost, and the next picture starts blank.
pub feed-IsDelivered :
    {a b : Assembler} {pkts : List Bytes} (fmt : PixFmt) (frames : List Frame) (lost : Option ℕ)
    (n : ℕ)
    → IsFrame a pkts b
    → IsReady a
    → let before : Processed (List Frame) = record {
      asm = some a;
      user = frames;
      lost = lost;
      completed = n;
    } in
      Returns (feed fmt before pkts) (IsDelivered a fmt pkts before)
feed-IsDelivered {a} fmt frames lost n (last {pkt} {header} next) ready = (
  _,
  rw (process_last a collect frames fmt lost pkt header ready _ next refl) refl,
  record {
    frame = frame_of (swap_buffers (advanced a pkt header)) fmt header.timestamp;
    user = refl;
    plane = advanced_fill a next;
    incomplete = refl;
    frame_number = refl;
    dimensions = (refl, refl, refl, refl);
    lost = refl;
    completed = refl;
    next = closed a pkt header;
    is_next = refl;
    blank = refl;
    next_number = refl;
  },
)
feed-IsDelivered {a} fmt frames lost n (more {pkt} {header} {rest} next others) ready =
    let (r, e, d) = feed-IsDelivered fmt frames lost (n + 0) others (advanced-IsReady next ready) in
    (
      r,
      rw (process_next a collect frames fmt lost pkt header ready next) e,
      record {
        frame = d.frame;
        user = d.user;
        plane =
            d.plane
            ∙ picture-SameShape a (advanced a pkt header) rest (advanced a pkt header).fill_buf
                (advanced-SameShape a pkt header)
            ∙ ap (picture a rest) (advanced_fill a next);
        incomplete = d.incomplete;
        frame_number = d.frame_number;
        dimensions = d.dimensions;
        lost = d.lost;
        completed = omega (arith, d.completed);
        next = d.next;
        is_next = d.is_next;
        blank = d.blank;
        next_number = d.next_number;
      },
    )
