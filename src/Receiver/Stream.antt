-- ===== src/Receiver/Stream.antt =====
-- The path of a frame through a live receiver, up to the user's callback.
use obs_st.Base.{
  ℕ, refl, ◌*◌, ◌/◌, ◌≡◌, inl, inr, arith, true, false, some, length, Returns, Returns-bind, ok,
  Bool-cases, ◌>>=◌, ◌≢◌, ◌∙◌, ap, sym,
}
use obs_st.Types.{PixFmt, Config, Frame, FrameCb, uyvy}
use obs_st.Assembler.{Assembler, IsReady, pgroup_of}
use obs_st.Assembler.Safety.Frames.{IsWhole}
use obs_st.Convert.Rows.{convert-IsConverted}
use obs_st.Receiver.Frames.{Sink, is_uyvy, is_10bit, convert_frame, rx_internal_frame_cb}
use obs_st.Receiver.Live.{IsShown}

-- The condition on the user's callback: it returns for every frame that it is shown, and keeps `K`.
abbrev pub Accepts {κ} : {X : Type 0} → Config X → FrameCb X → (X → Type κ) → Type κ
Accepts {X = X} config frame_cb K =
    (out : Frame) (x : X) → IsShown config out → K x → Returns (frame_cb out x) K

-- A conversion buffer that holds the picture, and the user's own invariant.
pub record Holds {κ} {X : Type 0} (config : Config X) (K : X → Type κ) (stride : ℕ) (sink : Sink X)
    : Type κ where
  pub holds : length sink.convert_buf ≡ stride * config.height
  pub kept : K sink.user

module _ {κ} {X : Type 0} (config : Config X) (frame_cb : FrameCb X) (K : X → Type κ)
    (accepts : Accepts config frame_cb K) (a : Assembler) (ready : IsReady a)
    (same_width : a.width ≡ config.width) (same_height : a.height ≡ config.height)
    (same_pgroup : pgroup_of config.input_fmt ≡ some a.pgroup_size) (stride : ℕ)
    (stride_lem : stride ≡ 2 * config.width) where
  abbrev SinkOk : Sink X → Type κ
  SinkOk = Holds config K stride

  is_uyvy_lem : (fmt : PixFmt) → is_uyvy fmt ≡ true → fmt ≡ uyvy
  is_uyvy_lem fmt h = ground arith

  not_uyvy_lem : (fmt : PixFmt) → is_uyvy fmt ≡ false → fmt ≢ uyvy
  not_uyvy_lem fmt h = ground arith

  module _ (f : Frame) (sink : Sink X) (whole : IsWhole a config.input_fmt f)
      (s : SinkOk sink) where
    pass_through-SinkOk :
        (out : Frame)
        → IsShown config out
        → Returns (frame_cb out sink.user >>= λ user. ok (record sink { user = user })) SinkOk
    pass_through-SinkOk out shown =
        Returns-bind (accepts out sink.user shown s.kept)
          λ user k. (_, refl, record { holds = s.holds; kept = k })

    pgroup_ten : is_10bit f.format ≡ true → a.pgroup_size ≡ 5
    pgroup_ten h = ground arith

    pgroup_eight : is_uyvy f.format ≡ true → a.pgroup_size ≡ 4
    pgroup_eight h = ground arith

    ten_bit-line :
        is_10bit f.format ≡ true → (f.linesize ≡ 5 * (f.width / 2)) × (stride ≡ 4 * (f.width / 2))
    ten_bit-line h = ground (arith, pgroup_ten h)

    lines : f.height ≡ config.height
    lines = whole.same_height ∙ same_height

    convert_frame-SinkOk :
        config.output_fmt ≡ uyvy
        → is_10bit f.format ≡ true
        → Returns (convert_frame frame_cb stride f sink) SinkOk
    unfolding convert_frame
    convert_frame-SinkOk out h =
        let (line, line') = ten_bit-line h in
        Returns-bind
          (convert-IsConverted f.plane f.linesize sink.convert_buf stride f.width f.height
            whole.plane_octets (omega arith) (omega arith) (omega (arith, whole.plane_holds))
            (rw (lines, s.holds) (omega arith)))
          λ converted c.
            Returns-bind
              (accepts (record f { plane = converted; linesize = stride; format = uyvy }) sink.user
                (record {
                  plane_holds = c.same_length ∙ s.holds ∙ ap (λ h. stride * h) (sym lines);
                  same_width = whole.same_width ∙ same_width;
                  same_height = whole.same_height ∙ same_height;
                  shape = inl (out, refl, stride_lem);
                })
                s.kept)
              λ user k. (_, refl, record { holds = c.same_length ∙ s.holds; kept = k })

    uyvy-IsShown :
        config.output_fmt ≡ uyvy
        → is_uyvy f.format ≡ true
        → IsShown config (record f { format = uyvy })
    uyvy-IsShown out h = record {
      plane_holds = whole.plane_holds;
      same_width = whole.same_width ∙ same_width;
      same_height = whole.same_height ∙ same_height;
      shape = inl (out, refl, ground (arith, pgroup_eight h));
    }

    raw-IsShown : config.output_fmt ≢ uyvy → IsShown config f
    raw-IsShown out = record {
      plane_holds = whole.plane_holds;
      same_width = whole.same_width ∙ same_width;
      same_height = whole.same_height ∙ same_height;
      shape = inr (out, whole.same_format);
    }

    pub internal_frame_cb-SinkOk :
        config.frame_cb ≡ some frame_cb → Returns (rx_internal_frame_cb config stride f sink) SinkOk
    unfolding rx_internal_frame_cb
    internal_frame_cb-SinkOk is_cb = elim (Bool-cases (is_uyvy config.output_fmt)) [
      | inr raw ↦
          let (r, e, k) =
            pass_through-SinkOk f (raw-IsShown (not_uyvy_lem config.output_fmt raw)) in
          (r, ground arith, k)
      | inl packed ↦
          let out = is_uyvy_lem config.output_fmt packed in
          elim (Bool-cases (is_uyvy f.format)) [
            | inl same ↦
                let (r, e, k) =
                  pass_through-SinkOk (record f { format = uyvy }) (uyvy-IsShown out same) in
                (r, ground arith, k)
            | inr other ↦ elim (Bool-cases (is_10bit f.format)) [
              | inl ten ↦ let (r, e, k) = convert_frame-SinkOk out ten in (r, ground arith, k)
              | inr neither ↦ (sink, ground arith, s)
            ]
          ]
    ]
