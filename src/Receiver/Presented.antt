-- ===== src/Receiver/Presented.antt =====
-- What `rx_internal_frame_cb` shows the user's callback of an assembled frame.
use obs_st.Base.{
  ℕ, refl, ◌+◌, ◌*◌, ◌/◌, ◌<◌, ◌≡◌, ◌⊎◌, inl, inr, arith, some, length, get_or, ok, Ensures,
  Ensures-run, Ensures-ok, Bytes, Ensures-split,
}
use obs_st.Types.{PixFmt, Config, Frame, FrameCb, uyvy, ycbcr422_10bit}
use obs_st.Assembler.{Assembler, IsReady, pgroup_of}
use obs_st.Assembler.Safety.Frames.{IsWhole}
use obs_st.Convert.Groups.{sample}
use obs_st.Convert.Rows.{convert-IsConverted, IsConverted}
use obs_st.Receiver.Frames.{Sink, is_uyvy, is_10bit, convert_frame, call_user, rx_internal_frame_cb}

-- The frame `out` shows the frame `f`: its octets, or, where UYVY is asked for and ten bits came, the
-- top eight bits of each of its samples in every line.
pub record IsPresented (output_fmt : PixFmt) (f out : Frame) : Type 0 where
  pub same_size : (out.width ≡ f.width) × (out.height ≡ f.height)
  pub same_time : out.timestamp_ns ≡ f.timestamp_ns
  pub same_number : out.frame_number ≡ f.frame_number
  pub same_incomplete : out.incomplete ≡ f.incomplete
  pub picture :
      ((out.plane ≡ f.plane) × (out.linesize ≡ f.linesize) × (out.format ≡ f.format))
      ⊎ ((output_fmt ≡ uyvy)
          × (f.format ≡ ycbcr422_10bit)
          × (out.format ≡ uyvy)
          × ((k i : ℕ)
              → k < f.height
              → i < 4 * (f.width / 2)
              → get_or out.plane (k * out.linesize + i) 0 ≡ sample f.plane (k * f.linesize) i))

converted_line :
    {src dst out : Bytes} (src_stride dst_stride groups lines k i : ℕ)
    → IsConverted src src_stride dst dst_stride groups 0 lines out
    → k < lines
    → i < 4 * groups
    → get_or out (k * dst_stride + i) 0 ≡ sample src (k * src_stride) i
converted_line src_stride dst_stride groups lines k i c lt in_line =
    let e : 0 + k ≡ k = omega arith in rw e at (c.inside k i lt in_line)

module _ {X : Type 0} (config : Config X) (frame_cb : FrameCb X)
    (is_cb : config.frame_cb ≡ some frame_cb) (a : Assembler) (ready : IsReady a)
    (same_pgroup : pgroup_of config.input_fmt ≡ some a.pgroup_size) (stride : ℕ) (f : Frame)
    (sink : Sink X) (whole : IsWhole a config.input_fmt f) (stride_lem : stride ≡ 2 * f.width)
    (holds : length sink.convert_buf ≡ stride * f.height) where
  -- The user's callback was called with a frame that shows `f`.
  abbrev pub Presents : Sink X → Type 0
  Presents sink' =
      (out : Frame) × IsPresented config.output_fmt f out × (frame_cb out sink.user ≡ ok sink'.user)

  call_user-Presents :
      (out : Frame) (buf : Sink X)
      → buf.user ≡ sink.user
      → IsPresented config.output_fmt f out
      → Ensures (call_user frame_cb out buf) Presents
  call_user-Presents out buf same shown =
      Ensures-run _ (frame_cb out buf.user) _ λ user e. Ensures-ok _ _ (out, shown, rw (← same) e)

  convert_frame-Presents :
      config.output_fmt ≡ uyvy
      → f.format ≡ ycbcr422_10bit
      → Ensures (convert_frame frame_cb stride f sink) Presents
  unfolding convert_frame
  convert_frame-Presents out ten =
      let five : a.pgroup_size ≡ 5 = ground (arith, whole.same_format) in
      let (converted, e, c) =
        convert-IsConverted f.plane f.linesize sink.convert_buf stride f.width f.height
          whole.plane_octets (ground arith) (ground arith) (omega (arith, whole.plane_holds))
          (rw holds (omega arith)) in
      rw e (
        call_user-Presents (record f { plane = converted; linesize = stride; format = uyvy })
          (record sink { convert_buf = converted }) refl
          (record {
            same_size = (refl, refl);
            same_time = refl;
            same_number = refl;
            same_incomplete = refl;
            picture = inr (
              out,
              ten,
              refl,
              λ k i lt in_line.
                  converted_line f.linesize stride (f.width / 2) f.height k i c lt in_line,
            );
          }))

  pub internal_frame_cb-Presents : Ensures (rx_internal_frame_cb config stride f sink) Presents
  unfolding rx_internal_frame_cb
  internal_frame_cb-Presents = rw is_cb (
      Ensures-split _ (is_uyvy config.output_fmt) _ _
        (λ packed.
          Ensures-split _ (is_uyvy f.format) _ _
            (λ same.
              call_user-Presents (record f { format = uyvy }) sink refl
                (record {
                  same_size = (refl, refl);
                  same_time = refl;
                  same_number = refl;
                  same_incomplete = refl;
                  picture = inl (refl, refl, ground arith);
                }))
            (λ other.
              Ensures-split _ (is_10bit f.format) _ _
                (λ ten. convert_frame-Presents (ground arith) (ground arith))
                (λ neither. absurd (ground (arith, whole.same_format)))))
        (λ raw. call_user-Presents f sink refl (record {
          same_size = (refl, refl);
          same_time = refl;
          same_number = refl;
          same_incomplete = refl;
          picture = inl (refl, refl, refl);
        })))
