-- ===== src/Assembler/Safety/Typed.antt =====
-- The numbers of the assembler over a sequence of packets, in the C types of their fields.
use obs_st.Base.{
  some, refl, [], ok, inl, inr, List, Bytes, ◌∷◌, IsBytes, ℕ, ◌≡◌, length, ◌<◌, ◌^◌, Ensures,
  Returns, ◌+◌, Returns-both, arith, Option-cases, subst, Ensures-ok, Ensures-if, ltb, ◌-◌,
}
use obs_st.Types.{PixFmt, Frame}
use obs_st.Assembler.Packet.{rx_assembler_process_packet, Processed, ignored}
use obs_st.Assembler.{Assembler, IsReady}
use obs_st.Assembler.Safety.Widths.{Types, HasTypes, AreTyped, Typed, accept_packet-Types}
use obs_st.Assembler.Safety.InOrder.{collect}
use obs_st.Assembler.Safety.Frame.{feed}
use obs_st.Rtp.View.{parse_rtp_header-eq-view, view}
use obs_st.Assembler.Safety.Whole.{process_packet-Sound, view_bounds}

module _ (fmt : PixFmt) where
  process_packet-Types :
      (a : Assembler) (pkt : Bytes) (frames : List Frame) (lost : ℕ)
      → Types a frames
      → lost < 2 ^ 64
      → IsBytes pkt
      → Ensures
          (rx_assembler_process_packet
            (some a)
            (some pkt)
            (length pkt)
            (some collect)
            frames
            fmt
            (some lost))
          Typed
  unfolding rx_assembler_process_packet
  process_packet-Types a pkt frames lost h range octets =
      rw (parse_rtp_header-eq-view pkt (length pkt) octets (omega arith))
        (elim (Option-cases (view pkt (length pkt))) [
          | inl bad ↦ rw bad (Ensures-ok Typed (ignored (some a) frames (some lost)) untouched)
          | inr (header, good) ↦
              let (p, q, _) = view_bounds pkt (length pkt) octets good in
              rw good (
                Ensures-if Typed (ltb (length pkt - header.payload) 2) _ _
                  (Ensures-ok Typed (ignored (some a) frames (some lost)) untouched)
                  (accept_packet-Types fmt a pkt (length pkt) frames lost header h range p q))
        ])
    where
      untouched : Typed (ignored (some a) frames (some lost))
      untouched = record {
        asm = a;
        is_asm = refl;
        types = h;
        lost = lost;
        is_lost = refl;
        lost_range = range;
      }

feed-run :
    (fmt : PixFmt) (pkt : Bytes) (pkts : List Bytes) (a : Assembler) (lost : ℕ)
    (before r r' : Processed (List Frame))
    → before.asm ≡ some a
    → before.lost ≡ some lost
    → rx_assembler_process_packet
        (some a)
        (some pkt)
        (length pkt)
        (some collect)
        before.user
        fmt
        (some lost)
      ≡ ok r
    → feed fmt (record r { completed = before.completed + r.completed }) pkts ≡ ok r'
    → feed fmt before (pkt ∷ pkts) ≡ ok r'
feed-run fmt pkt pkts a lost before r r' is_a is_l run run' = rw (is_a, is_l, run) run'

abbrev pub AreBytes : List Bytes → Type 0
AreBytes [] = Unit {0}
AreBytes (pkt ∷ pkts) = IsBytes pkt × AreBytes pkts

-- For a ready assembler whose numbers fit the C types of their fields, a count of lost packets of 64
-- bits and frames that are typed, the calls of rx_assembler_process_packet for any packets of octets
-- return, and all numbers fit again: those of the assembler, the count, and those of each frame handed
-- out, whose time stays below 2 ^ 46 nanoseconds.
pub feed-HasTypes :
    (fmt : PixFmt) (pkts : List Bytes) (a : Assembler) (before : Processed (List Frame)) (lost : ℕ)
    → before.asm ≡ some a
    → before.lost ≡ some lost
    → IsReady a
    → HasTypes a
    → AreTyped before.user
    → lost < 2 ^ 64
    → AreBytes pkts
    → Returns (feed fmt before pkts) Typed
feed-HasTypes fmt [] a before lost is_a is_l ready h hs range octets = (
  before,
  refl,
  record {
    asm = a;
    is_asm = is_a;
    types = (h, hs);
    lost = lost;
    is_lost = is_l;
    lost_range = range;
  },
)
feed-HasTypes fmt (pkt ∷ pkts) a before lost is_a is_l ready h hs range (now, later) =
    let (r, run, (sound, typed)) =
      Returns-both Typed
        (process_packet-Sound a fmt collect (λ u. Unit {0}) (λ f u whole k. (_, refl, tt)) pkt
          (length pkt) before.user (some lost) ready now (omega arith) tt)
        (process_packet-Types fmt a pkt before.user lost (h, hs) range now) in
    let same : sound.asm ≡ typed.asm = cc (sound.is_asm, typed.is_asm) in
    let (r', run', result) =
      feed-HasTypes fmt pkts typed.asm (record r { completed = before.completed + r.completed })
        typed.lost typed.is_asm typed.is_lost (subst IsReady same sound.ready) typed.types.0
        typed.types.1 typed.lost_range later in
    (r', feed-run fmt pkt pkts a lost before r r' is_a is_l run run', result)
