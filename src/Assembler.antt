-- ===== src/Assembler.antt =====
-- The frame assembler of libst2110rx/src/rx_rfc4175.c: its state, `rx_assembler_init` and
-- `rx_assembler_free`. Its children model the handling of a packet, step by step.
pub mod Init
pub mod Deliver
pub mod Segments
pub mod Packet
pub mod Safety
use obs_st.Base.{
  ℕ, ◌*◌, ◌/◌, ◌%◌, Bool, false, not, Option, none, some, ◌||◌, [], Bytes, calloc, u32, ltb, ◌==◌,
  if◌then◌else◌, length, ◌⊎◌, ◌≡◌, ◌<◌, ◌≤◌, ◌^◌, IsBytes,
}
use obs_st.Types.{PixFmt, ycbcr422_10bit, uyvy, Rc, success, failure}

abbrev pub pgroup_422_10bit : ℕ
pgroup_422_10bit = 5

abbrev pub pgroup_422_8bit : ℕ
pgroup_422_8bit = 4

abbrev pub pixels_per_group_422 : ℕ
pixels_per_group_422 = 2

-- `rx_frame_assembler_t`. The two buffers are distinct blocks.
pub record Assembler : Type 0 where
  pub fill_buf : Bytes
  pub deliver_buf : Bytes
  pub fill_stride : ℕ
  pub width : ℕ
  pub height : ℕ
  pub pgroup_size : ℕ
  pub pixels_per_group : ℕ
  pub last_seq : ℕ
  pub last_ts : ℕ
  pub has_prev_packet : Bool
  pub frame_incomplete : Bool
  pub frame_delivered : Bool
  pub frame_number : ℕ
  pub delivered_incomplete : ℕ
  pub delivered_timestamp : ℕ

-- `(size_t)a->fill_stride * a->height`: both factors are `uint32_t`, so 64 bits hold the product.
abbrev pub buf_size : Assembler → ℕ
buf_size a = a.fill_stride * a.height

-- The `switch` on the input format.
abbrev pub pgroup_of : PixFmt → Option ℕ
pgroup_of ycbcr422_10bit = some pgroup_422_10bit
pgroup_of uyvy = some pgroup_422_8bit
pgroup_of _ = none

-- After `memset(a, 0, sizeof(*a))` and the stores of the dimensions, with the two blocks that
-- `calloc` gave.
abbrev pub cleared : ℕ → ℕ → ℕ → Bytes → Bytes → Assembler
cleared width height pgroup fill deliver = record {
  fill_buf = fill;
  deliver_buf = deliver;
  fill_stride = u32 (width / pixels_per_group_422 * pgroup);
  width = width;
  height = height;
  pgroup_size = pgroup;
  pixels_per_group = pixels_per_group_422;
  last_seq = 0;
  last_ts = 0;
  has_prev_packet = false;
  frame_incomplete = false;
  frame_delivered = false;
  frame_number = 0;
  delivered_incomplete = 0;
  delivered_timestamp = 0;
}

-- The part of `rx_assembler_init` behind the `switch`. The system grants either block or not.
unfoldable pub allocate : ℕ → ℕ → ℕ → Bool → Bool → Assembler × Rc
allocate width height pgroup fill_granted deliver_granted =
    let size = u32 (width / pixels_per_group_422 * pgroup) * height in
    if not fill_granted || not deliver_granted
    then (cleared width height pgroup [] [], failure)
    else (
      cleared width height pgroup (calloc fill_granted size) (calloc deliver_granted size),
      success,
    )

-- `rx_assembler_init`, with the object behind `a`, if it is not NULL.
unfoldable pub rx_assembler_init :
    Option Assembler → ℕ → ℕ → PixFmt → Bool → Bool → Option Assembler × Rc
rx_assembler_init none width height input_fmt fill_granted deliver_granted = (none, failure)
rx_assembler_init (some a) width height input_fmt fill_granted deliver_granted =
    if width == 0 || height == 0 || not (width % 2 == 0)
    then (some a, failure)
    else (if ltb 8192 width || ltb 4320 height
        then (some a, failure)
        else elim (pgroup_of input_fmt) [
          | none ↦ (some a, failure)
          | some pgroup ↦
              let (a', rc) = allocate width height pgroup fill_granted deliver_granted in
              (some a', rc)
        ])

-- `rx_assembler_free`
unfoldable pub rx_assembler_free : Option Assembler → Option Assembler
rx_assembler_free none = none
rx_assembler_free (some a) = some (record a { fill_buf = []; deliver_buf = [] })

-- What `rx_assembler_init` establishes and every packet keeps: two blocks that hold the picture,
-- a stride that holds a line, and fields inside their widths.
pub record IsReady (a : Assembler) : Type 0 where
  pub fill_holds : length a.fill_buf ≡ buf_size a
  pub deliver_holds : length a.deliver_buf ≡ buf_size a
  pub fill_octets : IsBytes a.fill_buf
  pub deliver_octets : IsBytes a.deliver_buf
  pub line_holds : a.fill_stride ≡ a.width / 2 * a.pgroup_size
  pub groups : a.pixels_per_group ≡ 2
  pub pgroup : (a.pgroup_size ≡ 5) ⊎ (a.pgroup_size ≡ 4)
  pub width_even : a.width % 2 ≡ 0
  pub width_range : (0 < a.width) × (a.width ≤ 8192)
  pub height_range : (0 < a.height) × (a.height ≤ 4320)
  pub seq_range : a.last_seq < 2 ^ 16
  pub ts_range : a.last_ts < 2 ^ 32
