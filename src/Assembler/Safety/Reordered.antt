-- ===== src/Assembler/Safety/Reordered.antt =====
-- `rx_assembler_process_packet` for packets of one frame in any order, before the last one.
use mathlib.Core.List.{Permᴰ}
use obs_st.Base.{
  ℕ, ◌+◌, ◌-◌, ◌≡◌, refl, arith, Option, some, List, [], ◌∷◌, length, Bytes, false, ok, Returns,
  subst, sym, ◌∙◌, ap, ltb, inl,
}
use obs_st.Types.{PixFmt, Frame}
use obs_st.Rtp.{RtpHeader}
use obs_st.Rtp.View.{parse_rtp_header-eq-view}
use obs_st.Assembler.{Assembler, IsReady}
use obs_st.Assembler.Packet.{
  Processed, remember, check_seq, check_marker, accept_packet, rx_assembler_process_packet,
}
use obs_st.Assembler.Safety.Whole.{
  stored, store_segments-eq-stored, view_bounds, check_seq-IsReady, stored-IsReady,
  check_seq-SameShape, stored-SameShape, remember-IsReady,
}
use obs_st.Assembler.Safety.InOrder.{collect, check_timestamp-quiet, restarted, restarted-IsReady}
use obs_st.Assembler.Safety.Frame.{
  feed, picture, paint, paint-SameShape, picture-SameShape, paint_segments,
}
use obs_st.Assembler.Safety.Losses.{IsAccepted}
use obs_st.Assembler.Safety.Segments.{picture_size-eq-buf_size}
use obs_st.Assembler.Safety.Repeated.{
  no_packet, once, more_often, PairwiseAgree-Repeated, arrived-Repeated, Repeated,
}
use obs_st.Assembler.Safety.Order.{PairwiseAgree, Arrived, arrived, shown, arrived-perm}
use obs_st.Assembler.Safety.Frames.{SameShape}

-- A packet of the frame with the timestamp `ts` that does not end it.
pub record IsPart (ts : ℕ) (pkt : Bytes) : Type 0 where
  pub header : RtpHeader
  pub accepted : IsAccepted pkt header
  pub unmarked : header.marker ≡ false
  pub timestamp : header.timestamp ≡ ts

abbrev pub AreParts : ℕ → List Bytes → Type 0
AreParts ts [] = Unit {0}
AreParts ts (pkt ∷ pkts) = IsPart ts pkt × AreParts ts pkts

module _ (a : Assembler) (frames : List Frame) (fmt : PixFmt) (lost : Option ℕ) (pkt : Bytes)
    (part : IsPart a.last_ts pkt) (ready : IsReady a) where
  abbrev checked : Assembler
  checked = (check_seq a part.header.seq lost).0

  abbrev reached : Assembler
  reached =
      stored (remember (restarted checked part.header) part.header) pkt (part.header.payload + 2)
        (length pkt)

  checked-SameShape : SameShape a checked
  checked-SameShape = check_seq-SameShape a part.header.seq lost

  reached-IsReady : IsReady reached
  reached-IsReady =
      let (seq_range, ts_range, inside) =
        view_bounds pkt (length pkt) part.accepted.octets part.accepted.parsed in
      stored-IsReady pkt (part.header.payload + 2) (length pkt) part.accepted.octets (omega arith) (
        remember-IsReady part.header seq_range ts_range
          (restarted-IsReady part.header (check_seq-IsReady part.header.seq lost ready)))

  reached-SameShape : SameShape a reached
  reached-SameShape =
      stored-SameShape (restarted checked part.header) part.header pkt (part.header.payload + 2)
        (length pkt) (ground (arith, checked-SameShape))

  checked_ts : checked.last_ts ≡ a.last_ts
  unfolding check_seq
  checked_ts = ground arith

  checked_fill : checked.fill_buf ≡ a.fill_buf
  unfolding check_seq
  checked_fill = ground arith

  process_part :
      rx_assembler_process_packet (some a) (some pkt) (length pkt) (some collect) frames fmt lost
      ≡ ok (record {
        asm = some reached;
        user = frames;
        lost = (check_seq a part.header.seq lost).1;
        completed = 0;
      })
  unfolding rx_assembler_process_packet accept_packet check_marker
  process_part =
      let octets = part.accepted.octets in
      let (seq_range, ts_range, inside) =
        view_bounds pkt (length pkt) octets part.accepted.parsed in
      let long : ltb (length pkt - part.header.payload) 2 ≡ false =
        ground (arith, part.accepted.long) in
      rw
        (
          parse_rtp_header-eq-view pkt (length pkt) octets (omega arith),
          part.accepted.parsed,
          long,
          check_timestamp-quiet checked collect frames fmt part.header
              (λ e. inl (part.timestamp ∙ sym checked_ts)),
          store_segments-eq-stored (remember (restarted checked part.header) part.header) pkt
              (part.header.payload + 2) (length pkt)
              (remember-IsReady part.header seq_range ts_range
                (restarted-IsReady part.header (check_seq-IsReady part.header.seq lost ready)))
              octets (omega arith),
          part.unmarked,
        )
        refl

  reached_fill : reached.fill_buf ≡ paint a pkt a.fill_buf
  reached_fill =
      paint-SameShape a (remember (restarted checked part.header) part.header) pkt checked.fill_buf
        (some part.header) (ground (arith, checked-SameShape))
      ∙ ap (paint_segments a pkt checked.fill_buf) (sym part.accepted.parsed)
      ∙ ap (paint a pkt) checked_fill

  picture_reached :
      (pkts : List Bytes)
      → picture reached pkts reached.fill_buf ≡ picture a (pkt ∷ pkts) a.fill_buf
  picture_reached pkts =
      picture-SameShape a reached pkts reached.fill_buf reached-SameShape
      ∙ ap (picture a pkts) reached_fill

feed-Painted :
    (pkts : List Bytes) (a : Assembler) (before : Processed (List Frame)) (fmt : PixFmt)
    → before.asm ≡ some a
    → IsReady a
    → AreParts a.last_ts pkts
    → Returns (feed fmt before pkts) (λ r.
      (b : Assembler) × (r.asm ≡ some b)
      × (b.fill_buf ≡ picture a pkts a.fill_buf)
      × (r.user ≡ before.user))
feed-Painted [] a before fmt is_a ready parts = (before, refl, (a, is_a, refl, refl))
feed-Painted (pkt ∷ pkts) a before fmt is_a ready (part, parts) =
    let b = reached a before.user fmt before.lost pkt part ready in
    let (r, e, (c, is_c, fill, user)) =
      feed-Painted pkts b
        (record {
          asm = some b;
          user = before.user;
          lost = (check_seq a part.header.seq before.lost).1;
          completed = before.completed + 0;
        })
        fmt refl (reached-IsReady a before.user fmt before.lost pkt part ready)
        (subst (λ ts. AreParts ts pkts) (sym part.timestamp) parts) in
    (
      r,
      rw (is_a, process_part a before.user fmt before.lost pkt part ready) e,
      (c, is_c, fill ∙ picture_reached a before.user fmt before.lost pkt part ready pkts, user),
    )

-- An assembler whose buffer shows what has arrived, and no frame delivered.
pub record IsPainted (a : Assembler) (ready : IsReady a) (before : Processed (List Frame))
    (what : Arrived a) (r : Processed (List Frame)) : Type 0 where
  pub next : Assembler
  pub is_next : r.asm ≡ some next
  pub fill :
      next.fill_buf
      ≡ shown a a.fill_buf (ready.fill_holds ∙ sym (picture_size-eq-buf_size ready)) what
  pub user : r.user ≡ before.user

feed-IsPainted :
    (pkts : List Bytes) (a : Assembler) (before : Processed (List Frame)) (fmt : PixFmt)
    → before.asm ≡ some a
    → (ready : IsReady a) → AreParts a.last_ts pkts
    → Returns (feed fmt before pkts) (IsPainted a ready before (arrived a pkts))
unfolding shown
feed-IsPainted pkts a before fmt is_a ready parts =
    let (r, e, (b, is_b, fill, user)) = feed-Painted pkts a before fmt is_a ready parts in
    (r, e, record { next = b; is_next = is_b; fill = fill; user = user })

AreParts-perm : (ts : ℕ) {xs ys : List Bytes} → Permᴰ xs ys → AreParts ts xs → AreParts ts ys
AreParts-perm ts Permᴰ.nil h = tt
AreParts-perm ts (Permᴰ.cons e perm) (h, hs) = (subst (IsPart ts) e h, AreParts-perm ts perm hs)
AreParts-perm ts (Permᴰ.swap e e') (h, (h', hs)) =
    (subst (IsPart ts) e' h', (subst (IsPart ts) e h, hs))
AreParts-perm ts (Permᴰ.trans perm perm') h = AreParts-perm ts perm' (AreParts-perm ts perm h)

AreParts-Repeated : (ts : ℕ) {xs ys : List Bytes} → Repeated xs ys → AreParts ts xs → AreParts ts ys
AreParts-Repeated ts no_packet h = tt
AreParts-Repeated ts (once r) (h, hs) = (h, AreParts-Repeated ts r hs)
AreParts-Repeated ts (more_often r) (h, hs) = (h, AreParts-Repeated ts r (h, hs))

-- Unmarked packets with the timestamp of the frame at a ready assembler, of which any two store at every
-- octet of the picture the same or not both something: in their order, and in any order in which
-- each of them comes once or more often, the calls of rx_assembler_process_packet return, deliver no
-- frame, and leave a fill buffer that shows what has arrived, the packets up to repetitions and to the
-- order of those that agree.
pub feed-perm :
    {xs zs ys : List Bytes} (a : Assembler) (before : Processed (List Frame)) (fmt : PixFmt)
    → before.asm ≡ some a
    → (ready : IsReady a) → AreParts a.last_ts xs
    → PairwiseAgree a xs
    → Repeated xs zs
    → Permᴰ zs ys
    → Returns (feed fmt before xs) (IsPainted a ready before (arrived a xs))
      × Returns (feed fmt before ys) (IsPainted a ready before (arrived a xs))
feed-perm {xs} {zs} {ys} a before fmt is_a ready parts agree repeated perm = (
  feed-IsPainted xs a before fmt is_a ready parts,
  subst (λ what. Returns (feed fmt before ys) (IsPainted a ready before what))
      (sym (arrived-perm a perm (PairwiseAgree-Repeated a repeated agree))
        ∙ arrived-Repeated a repeated)
      (feed-IsPainted ys a before fmt is_a ready
        (AreParts-perm a.last_ts perm (AreParts-Repeated a.last_ts repeated parts))),
)
