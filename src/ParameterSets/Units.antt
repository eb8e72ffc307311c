-- ===== src/ParameterSets/Units.antt =====
-- `bs_write_sps` and `bs_write_pps` as a decoder sees them: the NAL header, and behind it a payload
-- without start codes that unescapes to the parameter set.
use bc250_vulkan_encode_stop.Base.{
  ℕ, zero, suc, ◌+◌, ◌-◌, ◌/◌, ◌≤◌, ◌≡◌, refl, sym, ap, ◌∙◌, Bool, List, [], ◌∷◌, ◌++◌, arith,
  length, take, drop, leb-false,
}
use bc250_vulkan_encode_stop.Bits.{bits_of}
use bc250_vulkan_encode_stop.Bitstream.{Bitstream, bs_init, bs_bytes_written}
use bc250_vulkan_encode_stop.Bitstream.Content.{
  content, committed, bytes_bits, length-bytes_bits, IsValid, Wrote,
}
use bc250_vulkan_encode_stop.Bitstream.Writes.{Wrote-end}
use bc250_vulkan_encode_stop.Bitstream.Payload.{
  terminated, length-terminated, written_bytes, IsPayload, Writes-IsPayload, bs_init-IsValid,
  aligned_bytes, aligned_count,
}
use bc250_vulkan_encode_stop.Nal.{nal_header_writer, bs_rbsp_to_ebsp}
use bc250_vulkan_encode_stop.Nal.Header.{nal_header_code, nal_header_writer-Writes}
use bc250_vulkan_encode_stop.Nal.Emulation.{ebsp_to_rbsp, ebsp_to_rbsp-bs_rbsp_to_ebsp}
use bc250_vulkan_encode_stop.Nal.StartCode.{bs_rbsp_to_ebsp-no_start_code}
use bc250_vulkan_encode_stop.ParameterSets.{
  H264Sps, H264Pps, write_unit, bs_write_sps, bs_write_pps,
}
use bc250_vulkan_encode_stop.ParameterSets.Codes.{
  IsSps, IsPps, sps_code, pps_code, sps_writer-Writes, pps_writer-Writes, length-sps_code,
  length-pps_code,
}

-- A NAL unit with `nal_ref_idc` 3, type `nal_type` and payload `code`.
pub record IsNalUnit (nal_type : ℕ) (code : List Bool) (bytes : List ℕ) : Type 0 where
  pub header : bytes_bits (take 5 bytes) ≡ nal_header_code 3 nal_type
  pub payload : bytes_bits (ebsp_to_rbsp (drop 5 bytes)) ≡ terminated code
  pub no_start_code :
      (front : List ℕ) (b : ℕ) (back : List ℕ) → drop 5 bytes ≡ front ++ 0 ∷ 0 ∷ b ∷ back → 3 ≤ b

take-append_self : (xs ys : List ℕ) (n : ℕ) → length xs ≡ n → take n (xs ++ ys) ≡ xs
take-append_self [] ys zero e = refl
take-append_self [] ys (suc n) e = absurd (omega arith)
take-append_self (x ∷ xs) ys zero e = absurd (omega arith)
take-append_self (x ∷ xs) ys (suc n) e = ap (λ l. x ∷ l) (take-append_self xs ys n (omega arith))

drop-append_self : (xs ys : List ℕ) (n : ℕ) → length xs ≡ n → drop n (xs ++ ys) ≡ ys
drop-append_self [] ys zero e = refl
drop-append_self [] ys (suc n) e = absurd (omega arith)
drop-append_self (x ∷ xs) ys zero e = absurd (omega arith)
drop-append_self (x ∷ xs) ys (suc n) e = drop-append_self xs ys n (omega arith)

module _ (nal_type : ℕ) (buf : List ℕ) (buf_size : ℕ) (room : buf_size ≤ length buf)
    (fits : 6 ≤ buf_size) where
  out : Bitstream
  out = nal_header_writer 3 nal_type (bs_init buf buf_size)

  out-Wrote : Wrote (bs_init buf buf_size) (nal_header_code 3 nal_type) out
  unfolding out bs_init nal_header_code bits_of
  out-Wrote =
      (nal_header_writer-Writes 3 nal_type).complete (bs_init buf buf_size)
        (bs_init-IsValid buf buf_size room) refl (omega arith)

  out_end : (out.byte_offset ≡ 5) × (out.bit_offset ≡ 0)
  unfolding bs_init nal_header_code bits_of
  out_end =
      let v : IsValid out = out-Wrote.valid in
      omega (
        arith,
        v.pending,
        Wrote-end (bs_init buf buf_size) out (nal_header_code 3 nal_type)
            (bs_init-IsValid buf buf_size room) out-Wrote,
      )

  out_count : bs_bytes_written out ≡ 5
  out_count = aligned_count out out_end.1 ∙ out_end.0

  header_bits : bytes_bits (written_bytes out) ≡ nal_header_code 3 nal_type
  unfolding bs_init content committed bytes_bits bits_of
  header_bits = aligned_bytes out out_end.1 ∙ out-Wrote.appended

  length-header : length (written_bytes out) ≡ 5
  unfolding nal_header_code bits_of
  length-header = omega (arith, ap length header_bits, length-bytes_bits (written_bytes out))

  module _ (code : List Bool) (bs : Bitstream) (p : IsPayload code bs) where
    abbrev rbsp_bytes : List ℕ
    rbsp_bytes = written_bytes bs

    length-rbsp_bytes : length rbsp_bytes ≡ length code / 8 + 1
    length-rbsp_bytes =
        omega (arith, ap length p.bits, length-bytes_bits rbsp_bytes, length-terminated code)

    write_unit-run :
        write_unit nal_type bs buf buf_size
        ≡ written_bytes out ++ bs_rbsp_to_ebsp (buf_size - 5) rbsp_bytes
    unfolding write_unit out
    write_unit-run = rw (out_count, leb-false buf_size 5 (omega arith))

    pub write_unit-IsNalUnit :
        5 + (length code / 8 + 1) + (length code / 8 + 1) / 2 ≤ buf_size
        → IsNalUnit nal_type code (write_unit nal_type bs buf buf_size)
    write_unit-IsNalUnit space = rw write_unit-run (record {
      header = ap bytes_bits (take-append_self (written_bytes out) _ 5 length-header) ∙ header_bits;
      payload =
          ap (λ l. bytes_bits (ebsp_to_rbsp l))
            (drop-append_self (written_bytes out) _ 5 length-header)
          ∙ ap bytes_bits (
              ebsp_to_rbsp-bs_rbsp_to_ebsp (buf_size - 5) rbsp_bytes
                (omega (arith, length-rbsp_bytes)))
          ∙ p.bits;
      no_start_code = λ front b back e.
          bs_rbsp_to_ebsp-no_start_code (buf_size - 5) rbsp_bytes front b back
            (sym (drop-append_self (written_bytes out) _ 5 length-header) ∙ e);
    })

-- For an SPS whose fields fit, a scratch buffer of 1024 bytes and 576 bytes of room, bs_write_sps
-- gives a NAL unit of type 7 whose payload has no start code and unescapes to the SPS syntax
-- elements in order with trailing bits.
pub bs_write_sps-IsNalUnit :
    (rbsp buf : List ℕ) (buf_size : ℕ) (sps : H264Sps)
    → IsSps sps
    → 1024 ≤ length rbsp
    → buf_size ≤ length buf
    → 576 ≤ buf_size
    → IsNalUnit 7 (sps_code sps) (bs_write_sps rbsp buf buf_size sps)
unfolding bs_write_sps
bs_write_sps-IsNalUnit rbsp buf buf_size sps h scratch room fits =
    write_unit-IsNalUnit 7 buf buf_size room (omega arith) (sps_code sps) _
      (Writes-IsPayload rbsp 1024 (sps_writer-Writes sps h) scratch
        (omega (arith, length-sps_code sps h)))
      (omega (arith, length-sps_code sps h))

-- For a PPS whose fields fit, a scratch buffer of 1024 bytes and 256 bytes of room, bs_write_pps
-- gives a NAL unit of type 8 whose payload has no start code and unescapes to the PPS syntax
-- elements in order with trailing bits.
pub bs_write_pps-IsNalUnit :
    (rbsp buf : List ℕ) (buf_size : ℕ) (pps : H264Pps)
    → IsPps pps
    → 1024 ≤ length rbsp
    → buf_size ≤ length buf
    → 256 ≤ buf_size
    → IsNalUnit 8 (pps_code pps) (bs_write_pps rbsp buf buf_size pps)
unfolding bs_write_pps
bs_write_pps-IsNalUnit rbsp buf buf_size pps h scratch room fits =
    write_unit-IsNalUnit 8 buf buf_size room (omega arith) (pps_code pps) _
      (Writes-IsPayload rbsp 1024 (pps_writer-Writes pps h) scratch
        (omega (arith, length-pps_code pps h)))
      (omega (arith, length-pps_code pps h))
