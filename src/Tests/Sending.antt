-- ===== src/Tests/Sending.antt =====
-- The test sender at concrete groups and packets.
use obs_st.Base.{
  ℕ, ◌≡◌, arith, true, false, some, [], ◌∷◌, Bytes, IsBytes-replicate, replicate, length, get_or,
  ok, ◌>>=◌, Returns, Writes,
}
use obs_st.Convert.{convert_group}
use obs_st.Rtp.{parse_rtp_header}
use obs_st.Sender.{pack_group, generate_colorbars_be10, write_rtp_header, fill_packet}
use obs_st.Sender.Groups.{convert_group-pack_group}
use obs_st.Sender.Picture.{IsPicture, generate_colorbars_be10-IsPicture}
use obs_st.Sender.Header.{parse_rtp_header-write_rtp_header}
use obs_st.Sender.Mismatch.{IsMisread, fill_packet-IsMisread}

abbrev block : ℕ → Bytes
block n = replicate n 0

convert_group-pack_group_example :
    Returns
      (pack_group (block 8) 2 512 940 512 64 >>= λ filled. convert_group filled 2 (block 4) 0)
      (Writes (block 4) 0 4 (λ i. get_or (128 ∷ 235 ∷ 128 ∷ 16 ∷ []) i 0))
convert_group-pack_group_example =
    convert_group-pack_group 512 940 512 64 (omega arith) (omega arith) (omega arith) (omega arith)
      (block 8) 2 (block 4) 0 (IsBytes-replicate 8) (omega arith) (omega arith)

generate_colorbars_be10-IsPicture_example :
    Returns
      (generate_colorbars_be10 (block 80) 16 2 40)
      (λ out. (length out ≡ 80) × IsPicture 8 40 2 out)
generate_colorbars_be10-IsPicture_example =
    generate_colorbars_be10-IsPicture (block 80) 16 2 40 (IsBytes-replicate 80) (omega arith)
      (omega arith)

parse_rtp_header-write_rtp_header_example :
    (write_rtp_header (block 20) 7 90000 5 true >>= λ written. parse_rtp_header (some written) 18)
    ≡ ok (some (record { payload = 12; seq = 7; timestamp = 90000; marker = true }))
parse_rtp_header-write_rtp_header_example =
    parse_rtp_header-write_rtp_header 7 90000 5 true (omega arith) (omega arith) (omega arith)
      (block 20) 18 (IsBytes-replicate 20) (omega arith) (omega arith)

fill_packet-IsMisread_example :
    Returns
      (fill_packet (block 40) (block 10) 5 5 7 90000 5 false 1 4 true)
      (IsMisread 5 1 4 true (omega arith) (omega arith) (omega arith) (block 10) 5)
fill_packet-IsMisread_example =
    fill_packet-IsMisread 5 1 4 true (omega arith) (omega arith) (omega arith) (block 40) (block 10)
      5 7 90000 5 false (IsBytes-replicate 40) (omega arith) (omega arith) (omega arith)
      (omega arith) (omega arith)
