-- ===== src/Receiver/Live.antt =====
-- What a receiver needs to serve packets, and what `st2110rx_create` sets up.
use obs_st.Base.{◌*◌, ◌^◌, ◌<◌, ◌≡◌, ◌⊎◌, some, length, IsBytes, ◌≢◌}
use obs_st.Types.{Config, Frame, uyvy}
use obs_st.Assembler.{IsReady, pgroup_of}
use obs_st.Stats.{Floats}
use obs_st.Receiver.{Rx}

-- Buffers that hold what is stored in them, for the dimensions and the formats of the configuration.
pub record IsLive {F : Floats} {X : Type 0} (config : Config X) (rx : Rx F X) : Type 0 where
  pub same_config : rx.config ≡ config
  pub ready : IsReady rx.assembler
  pub asm_width : rx.assembler.width ≡ config.width
  pub asm_height : rx.assembler.height ≡ config.height
  pub asm_pgroup : pgroup_of config.input_fmt ≡ some rx.assembler.pgroup_size
  pub stride : rx.convert_stride ≡ 2 * config.width
  pub convert_holds : length rx.convert_buf ≡ rx.convert_stride * config.height
  pub pkt_holds : length rx.pkt_buf ≡ rx.pkt_buf_size
  pub pkt_room : 0 < rx.pkt_buf_size
  pub pkt_octets : IsBytes rx.pkt_buf
  pub stats_range : rx.stats.last_rtp_ts < 2 ^ 32

-- A frame as the user's callback gets it.
pub record IsShown {X : Type 0} (config : Config X) (out : Frame) : Type 0 where
  pub plane_holds : length out.plane ≡ out.linesize * out.height
  pub same_width : out.width ≡ config.width
  pub same_height : out.height ≡ config.height
  pub shape :
      ((config.output_fmt ≡ uyvy) × (out.format ≡ uyvy) × (out.linesize ≡ 2 * config.width))
      ⊎ ((config.output_fmt ≢ uyvy) × (out.format ≡ config.input_fmt))
