-- ===== src/Assembler/Safety/Frames.antt =====
-- The handling of a frame's start and end, for a callback that returns for every whole picture.
use obs_st.Base.{
  ℕ, ◌+◌, ◌*◌, ◌≤◌, ◌≡◌, refl, sym, subst, ◌∙◌, arith, Bool, true, false, length, length-replicate,
  replicate, ok, Returns, Returns-bind, memset_zero, memset_zero-eq-ok, u32, if◌then◌else◌,
  Bool-cases, inl, inr, not, ◌&&◌, ◌==◌, IsBytes, IsBytes-replicate,
}
use obs_st.Types.{FrameCb, PixFmt, Frame}
use obs_st.Rtp.{RtpHeader}
use obs_st.Assembler.{Assembler, buf_size, IsReady}
use obs_st.Assembler.Deliver.{deliver_frame, frame_of, swap_buffers}
use obs_st.Assembler.Packet.{Progress, check_timestamp, check_marker, deliver_counted}

-- A frame whose plane holds the picture of the assembler `a`.
pub record IsWhole (a : Assembler) (fmt : PixFmt) (f : Frame) : Type 0 where
  pub plane_holds : length f.plane ≡ f.linesize * f.height
  pub plane_octets : IsBytes f.plane
  pub same_linesize : f.linesize ≡ a.fill_stride
  pub same_width : f.width ≡ a.width
  pub same_height : f.height ≡ a.height
  pub same_format : f.format ≡ fmt

-- The dimensions, which no packet changes.
pub record SameShape (a b : Assembler) : Type 0 where
  pub same_stride : a.fill_stride ≡ b.fill_stride
  pub same_width : a.width ≡ b.width
  pub same_height : a.height ≡ b.height
  pub same_pgroup : a.pgroup_size ≡ b.pgroup_size
  pub same_groups : a.pixels_per_group ≡ b.pixels_per_group

pub SameShape-refl : (a : Assembler) → SameShape a a
SameShape-refl a = ground arith

-- The assembler after `deliver_frame`.
abbrev pub delivered : Assembler → ℕ → Assembler
delivered a timestamp = record a {
  fill_buf = replicate (length a.deliver_buf) 0;
  deliver_buf = a.fill_buf;
  frame_number = u32 (a.frame_number + 1);
  delivered_incomplete = if a.frame_incomplete then 1 else 0;
  delivered_timestamp = timestamp;
  frame_incomplete = false;
}

pub delivered-IsReady :
    {a : Assembler} {timestamp : ℕ} → IsReady a → IsReady (delivered a timestamp)
delivered-IsReady {a} r = record {
  fill_holds = length-replicate (length a.deliver_buf) 0 ∙ r.deliver_holds;
  deliver_holds = r.fill_holds;
  fill_octets = IsBytes-replicate (length a.deliver_buf);
  deliver_octets = r.fill_octets;
  line_holds = r.line_holds;
  groups = r.groups;
  pgroup = r.pgroup;
  width_even = r.width_even;
  width_range = r.width_range;
  height_range = r.height_range;
  seq_range = r.seq_range;
  ts_range = r.ts_range;
}

-- The flags of the current frame do not matter.
pub flagged-IsReady :
    {a : Assembler} (incomplete is_delivered : Bool)
    → IsReady a
    → IsReady (record a { frame_incomplete = incomplete; frame_delivered = is_delivered })
flagged-IsReady incomplete is_delivered r = ground arith

pub flagged-SameShape :
    {a0 a : Assembler} (incomplete is_delivered : Bool)
    → SameShape a0 a
    → SameShape a0 (record a { frame_incomplete = incomplete; frame_delivered = is_delivered })
flagged-SameShape incomplete is_delivered r = ground arith

module _ {ℓ κ} {U : Type ℓ} (a0 : Assembler) (fmt : PixFmt) (frame_cb : FrameCb U) (J : U → Type κ)
    (accepts : (f : Frame) (u : U) → IsWhole a0 fmt f → J u → Returns (frame_cb f u) J) where
  -- At a ready assembler of the callback's dimensions `deliver_frame` returns: the buffers are swapped,
  -- the new fill buffer is blank, the frame is numbered, its flag and its timestamp are recorded and
  -- the flag is reset, and the callback keeps its invariant.
  pub deliver_frame-Returns :
      (a : Assembler) (u : U) (timestamp : ℕ)
      → IsReady a
      → SameShape a0 a
      → J u
      → Returns
          (deliver_frame a frame_cb u fmt timestamp)
          (λ r. (r.0 ≡ delivered a timestamp) × J r.1)
  unfolding deliver_frame
  deliver_frame-Returns a u timestamp ready shape j =
      let whole : IsWhole a0 fmt (frame_of (swap_buffers a) fmt timestamp) = record {
        plane_holds = ready.fill_holds;
        plane_octets = ready.fill_octets;
        same_linesize = sym shape.same_stride;
        same_width = sym shape.same_width;
        same_height = sym shape.same_height;
        same_format = refl;
      } in
      let (u', e, j') = accepts (frame_of (swap_buffers a) fmt timestamp) u whole j in
      let clear : memset_zero a.deliver_buf (buf_size a) ≡ ok (replicate (length a.deliver_buf) 0) =
        subst (λ n. memset_zero a.deliver_buf n ≡ ok (replicate (length a.deliver_buf) 0))
          ready.deliver_holds (memset_zero-eq-ok a.deliver_buf) in
      ((delivered a timestamp, u'), rw (e, clear) refl, (refl, j'))

  -- What the steps of a packet keep, with `n` frames completed at most.
  pub record Keeps (n : ℕ) (s : Progress U) : Type κ where
    pub ready : IsReady s.asm
    pub shape : SameShape a0 s.asm
    pub user_kept : J s.user
    pub few : s.completed ≤ n

  pub deliver_counted-Keeps :
      {n : ℕ} {s : Progress U} (timestamp : ℕ)
      → Keeps n s
      → Returns (deliver_counted s frame_cb fmt timestamp) (Keeps (n + 1))
  unfolding deliver_counted
  deliver_counted-Keeps {s} timestamp k =
      Returns-bind (deliver_frame-Returns s.asm s.user timestamp k.ready k.shape k.user_kept) λ r p.
        (
          record { asm = r.0; user = r.1; completed = s.completed + 1 },
          refl,
          record {
            ready = rw p.0 (delivered-IsReady k.ready);
            shape = rw p.0 (record {
              same_stride = k.shape.same_stride;
              same_width = k.shape.same_width;
              same_height = k.shape.same_height;
              same_pgroup = k.shape.same_pgroup;
              same_groups = k.shape.same_groups;
            });
            user_kept = p.1;
            few = omega (arith, k.few);
          },
        )

  abbrev flagged : Progress U → Bool → Bool → Progress U
  flagged s incomplete is_delivered = record s {
    asm = record s.asm { frame_incomplete = incomplete; frame_delivered = is_delivered };
  }

  flagged-Keeps :
      {n : ℕ} {s : Progress U} (incomplete is_delivered : Bool)
      → Keeps n s
      → Keeps n (flagged s incomplete is_delivered)
  flagged-Keeps incomplete is_delivered k = record {
    ready = flagged-IsReady incomplete is_delivered k.ready;
    shape = flagged-SameShape incomplete is_delivered k.shape;
    user_kept = k.user_kept;
    few = k.few;
  }

  relax : {n m : ℕ} {s : Progress U} → n ≤ m → Keeps n s → Keeps m s
  relax h k = record {
    ready = k.ready;
    shape = k.shape;
    user_kept = k.user_kept;
    few = omega (arith, k.few);
  }

  pub check_timestamp-Keeps :
      {s : Progress U} (header : RtpHeader)
      → Keeps 0 s
      → Returns (check_timestamp s frame_cb fmt header) (Keeps (if header.marker then 0 else 1))
  unfolding check_timestamp
  check_timestamp-Keeps {s} header k =
      elim (Bool-cases (s.asm.has_prev_packet && not (header.timestamp == s.asm.last_ts))) [
        | inr same ↦ rw same (s, refl, relax (ground arith) k)
        | inl changed ↦
            rw changed (elim (Bool-cases (not s.asm.frame_delivered && not header.marker)) [
              | inr quiet ↦ rw quiet (
                flagged s s.asm.frame_incomplete false,
                refl,
                relax (ground arith) (flagged-Keeps s.asm.frame_incomplete false k),
              )
              | inl flush ↦ rw flush (
                  Returns-bind
                    (deliver_counted-Keeps s.asm.last_ts
                      (flagged-Keeps true s.asm.frame_delivered k))
                    λ s' k'. (
                      flagged s' s'.asm.frame_incomplete false,
                      refl,
                      relax (ground arith) (flagged-Keeps s'.asm.frame_incomplete false k'),
                    ))
            ])
      ]

  pub check_marker-Keeps :
      {s : Progress U} (header : RtpHeader)
      → Keeps (if header.marker then 0 else 1) s
      → Returns (check_marker s frame_cb fmt header) (Keeps 1)
  unfolding check_marker
  check_marker-Keeps {s} header k = elim (Bool-cases header.marker) [
    | inr open_frame ↦ rw open_frame (s, refl, relax (ground arith) k)
    | inl last_packet ↦ rw last_packet (
        Returns-bind (deliver_counted-Keeps {n = 0} header.timestamp (relax (ground arith) k))
          λ s' k'. (
            flagged s' s'.asm.frame_incomplete true,
            refl,
            relax (omega arith) (flagged-Keeps s'.asm.frame_incomplete true k'),
          ))
  ]
