-- ===== src/Sender.antt =====
-- libst2110rx/tools/st2110tx-test.c: the picture and the headers of the test sender.
pub mod Arguments
pub mod Accepted
pub mod Main
pub mod Groups
pub mod Bars
pub mod Picture
pub mod Header
pub mod Filled
pub mod Sending
pub mod Segment
pub mod Lines
pub mod Payloads
pub mod Whole
pub mod Exits
pub mod Mismatch
use obs_st.Base.{
  ℕ, zero, suc, ◌+◌, ◌*◌, ◌/◌, Bool, List, [], ◌∷◌, Bytes, Exec, ok, fault, ◌>>=◌, store_all,
  get_elem?, none, some, u8, ◌<<<◌, ◌>>>◌, bit_and, bit_or, ltb, ◌==◌, if◌then◌else◌, u16, memcpy,
  take,
}

-- The five octets that `pack_group` stores.
abbrev pub packed : ℕ → ℕ → ℕ → ℕ → Bytes
packed cb y0 cr y1 =
    u8 (cb >>> 2)
    ∷ u8 (bit_or (bit_and cb 0x3 <<< 6) (y0 >>> 4))
    ∷ u8 (bit_or (bit_and y0 0xF <<< 4) (cr >>> 6))
    ∷ u8 (bit_or (bit_and cr 0x3F <<< 2) (y1 >>> 8))
    ∷ u8 (bit_and y1 0xFF)
    ∷ []

unfoldable pub pack_group : Bytes → ℕ → ℕ → ℕ → ℕ → ℕ → Exec Bytes
pack_group dst at cb y0 cr y1 = store_all dst at (packed cb y0 cr y1)

-- One row of the table `bars`: Cb, Y, Cr.
pub record Bar : Type 0 where
  pub cb : ℕ
  pub luma : ℕ
  pub cr : ℕ

abbrev pub bars : List Bar
bars =
    record { cb = 512; luma = 940; cr = 512 }
    ∷ record { cb = 64; luma = 877; cr = 553 }
    ∷ record { cb = 671; luma = 754; cr = 159 }
    ∷ record { cb = 223; luma = 691; cr = 200 }
    ∷ record { cb = 800; luma = 566; cr = 824 }
    ∷ record { cb = 352; luma = 503; cr = 865 }
    ∷ record { cb = 960; luma = 380; cr = 471 }
    ∷ record { cb = 512; luma = 64; cr = 512 }
    ∷ []

-- `bars[bar]`, where an index behind the table faults.
unfoldable pub load_bar : ℕ → Exec Bar
load_bar i = elim (get_elem? bars i) [ none ↦ fault | some bar ↦ ok bar ]

-- The number of the bar that group g belongs to.
abbrev pub bar_of : ℕ → ℕ → ℕ
bar_of groups_per_bar g = let bar = g / groups_per_bar in if ltb 7 bar then 7 else bar

-- The inner loop at group g of the row at `row`, with `left` rounds left.
unfoldable pub draw_row : ℕ → ℕ → ℕ → Bytes → ℕ → Exec Bytes
draw_row groups_per_bar row zero frame g = ok frame
draw_row groups_per_bar row (suc left) frame g = do
  bar ← load_bar (bar_of groups_per_bar g)
  frame' ← pack_group frame (row + g * 5) bar.cb bar.luma bar.cr bar.luma
  draw_row groups_per_bar row left frame' (g + 1)

-- The outer loop at line y, with `left` rounds left.
unfoldable pub draw_rows : ℕ → ℕ → ℕ → ℕ → Bytes → ℕ → Exec Bytes
draw_rows groups_per_bar groups stride zero frame y = ok frame
draw_rows groups_per_bar groups stride (suc left) frame y =
    draw_row groups_per_bar (y * stride) groups frame 0 >>= λ frame'.
    draw_rows groups_per_bar groups stride left frame' (y + 1)

abbrev pub groups_per_bar_of : ℕ → ℕ
groups_per_bar_of groups = if groups / 8 == 0 then 1 else groups / 8

unfoldable pub generate_colorbars_be10 : Bytes → ℕ → ℕ → ℕ → Exec Bytes
generate_colorbars_be10 frame width height stride =
    draw_rows (groups_per_bar_of (width / 2)) (width / 2) stride height frame 0

-- The twelve octets that `write_rtp_header` stores.
abbrev pub rtp_octets : ℕ → ℕ → ℕ → Bool → Bytes
rtp_octets seq ts ssrc marker =
    0x80
    ∷ u8 (bit_or 96 (if marker then 0x80 else 0))
    ∷ u8 (seq >>> 8)
    ∷ u8 (bit_and seq 0xFF)
    ∷ u8 (ts >>> 24)
    ∷ u8 (bit_and (ts >>> 16) 0xFF)
    ∷ u8 (bit_and (ts >>> 8) 0xFF)
    ∷ u8 (bit_and ts 0xFF)
    ∷ u8 (ssrc >>> 24)
    ∷ u8 (bit_and (ssrc >>> 16) 0xFF)
    ∷ u8 (bit_and (ssrc >>> 8) 0xFF)
    ∷ u8 (bit_and ssrc 0xFF)
    ∷ []

unfoldable pub write_rtp_header : Bytes → ℕ → ℕ → ℕ → Bool → Exec Bytes
write_rtp_header pkt seq ts ssrc marker = store_all pkt 0 (rtp_octets seq ts ssrc marker)

-- The six octets behind the RTP header.
abbrev pub segment_octets : ℕ → ℕ → ℕ → Bool → Bytes
segment_octets seg_len line pixel_offset continuation =
    u8 (seg_len >>> 8)
    ∷ u8 (bit_and seg_len 0xFF)
    ∷ u8 (line >>> 8)
    ∷ u8 (bit_and line 0xFF)
    ∷ u8 (bit_or (if continuation then 0x80 else 0) (pixel_offset >>> 8))
    ∷ u8 (bit_and pixel_offset 0xFF)
    ∷ []

-- The packet's buffer once it is filled for `sendto`: `from` is the place of the segment in the frame.
unfoldable pub fill_buffer : Bytes → Bytes → ℕ → ℕ → ℕ → ℕ → ℕ → Bool → ℕ → ℕ → Bool → Exec Bytes
fill_buffer packet frame from seg_len seq ts ssrc is_last_packet line pixel_offset continuation = do
  with_rtp ← write_rtp_header packet (u16 seq) ts ssrc is_last_packet
  with_segment ← store_all with_rtp 12 (segment_octets seg_len line pixel_offset continuation)
  memcpy with_segment 18 frame from seg_len

-- What `sendto` gets: the first `pkt_len` octets.
unfoldable pub fill_packet : Bytes → Bytes → ℕ → ℕ → ℕ → ℕ → ℕ → Bool → ℕ → ℕ → Bool → Exec Bytes
unfolding fill_buffer
fill_packet packet frame from seg_len seq ts ssrc is_last_packet line pixel_offset continuation = do
  filled ←
      fill_buffer packet frame from seg_len seq ts ssrc is_last_packet line pixel_offset
        continuation
  ok (take (18 + seg_len) filled)
