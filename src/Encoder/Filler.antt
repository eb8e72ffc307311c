-- ===== src/Encoder/Filler.antt =====
-- `maybe_append_filler`: the padding of a frame to its target, within the output buffer.
use bc250_vulkan_encode_stop.Base.{
  ℕ, ◌+◌, ◌-◌, ◌≤◌, ◌≡◌, refl, ap, ◌∙◌, ◌⊎◌, inl, inr, true, List, ◌++◌, arith, not, ◌||◌, ltb, leb,
  if_split, length, take, drop, length-drop, take-prefix, drop-prefix, leb-false, ltb-false,
}
use bc250_vulkan_encode_stop.Bitstream.{bs_bytes_written}
use bc250_vulkan_encode_stop.Bitstream.Content.{bytes_bits}
use bc250_vulkan_encode_stop.Nal.{filler_stream, bs_write_filler}
use bc250_vulkan_encode_stop.Nal.Header.{
  filler_nal, bs_write_filler_lem, bs_bytes_written-filler_stream,
}
use bc250_vulkan_encode_stop.Encoder.{Encoder, maybe_append_filler, target_bytes, is_padded}

module _ {D : Type 0} where
  -- What the padding may do to the buffer's first `total` bytes and to the count.
  pub record Padded (encoder : Encoder D) (total : ℕ) (after : List ℕ × ℕ) : Type 0 where
    pub kept : take total after.0 ≡ take total encoder.output_buf
    pub bounded : after.1 ≤ encoder.output_buf_size
    pub exact : (after.1 ≡ total) ⊎ ((after.1 ≡ target_bytes encoder) × (total + 6 ≤ after.1))

  untouched :
      (encoder : Encoder D) (total : ℕ)
      → total ≤ encoder.output_buf_size
      → Padded encoder total (encoder.output_buf, total)
  untouched encoder total h = record { kept = refl; bounded = h; exact = inl refl }

  -- The buffer with the filler unit behind its first `total` bytes, as the source leaves it.
  abbrev padded : Encoder D → ℕ → List ℕ × ℕ
  padded encoder total =
      let s =
        filler_stream (drop total encoder.output_buf) (encoder.output_buf_size - total)
          (target_bytes encoder - total - 6) in
      (take total encoder.output_buf ++ s.buffer, total + bs_bytes_written s)

  padded-count :
      (encoder : Encoder D) (total : ℕ)
      → encoder.output_buf_size ≤ length encoder.output_buf
      → total + 6 ≤ target_bytes encoder
      → target_bytes encoder ≤ encoder.output_buf_size
      → (padded encoder total).1 ≡ target_bytes encoder
  padded-count encoder total room h k = omega (
    arith,
    length-drop total encoder.output_buf,
    bs_bytes_written-filler_stream (drop total encoder.output_buf) (encoder.output_buf_size - total)
        (target_bytes encoder - total - 6) (omega (arith, length-drop total encoder.output_buf))
        (omega arith),
  )

  padded-unit :
      (encoder : Encoder D) (total : ℕ)
      → encoder.output_buf_size ≤ length encoder.output_buf
      → total + 6 ≤ target_bytes encoder
      → target_bytes encoder ≤ encoder.output_buf_size
      → bytes_bits (take (target_bytes encoder - total) (drop total (padded encoder total).0))
        ≡ bytes_bits (filler_nal (target_bytes encoder - total - 6))
  unfolding bs_write_filler
  padded-unit encoder total room h k =
      let free = drop total encoder.output_buf in
      let size : ℕ = encoder.output_buf_size - total in
      let n : ℕ = target_bytes encoder - total - 6 in
      let fits : size ≤ length free = omega (arith, length-drop total encoder.output_buf) in
      let count : target_bytes encoder - total ≡ bs_bytes_written (filler_stream free size n) =
        omega (arith, bs_bytes_written-filler_stream free size n fits (omega arith)) in
      let buffer = (filler_stream free size n).buffer in
      rw (drop-prefix total encoder.output_buf buffer (omega arith)) (
        ap (λ (m : ℕ). bytes_bits (take m buffer)) count
        ∙ (bs_write_filler_lem free size n fits (omega arith)).0)

  padded-Padded :
      (encoder : Encoder D) (total : ℕ)
      → encoder.output_buf_size ≤ length encoder.output_buf
      → total + 6 ≤ target_bytes encoder
      → target_bytes encoder ≤ encoder.output_buf_size
      → Padded encoder total (padded encoder total)
  padded-Padded encoder total room h k =
      let count = padded-count encoder total room h k in
      record {
        kept = take-prefix total encoder.output_buf _ (omega arith);
        bounded = omega arith;
        exact = inr (count, omega arith);
      }

  -- For a buffer of at least output_buf_size bytes and a count within it, on every path of the
  -- padding the bytes already written stay, the count stays within the output buffer, and it is
  -- either unchanged or exactly the target, at least 6 bytes above.
  pub maybe_append_filler-Padded :
      (encoder : Encoder D) (total : ℕ)
      → encoder.output_buf_size ≤ length encoder.output_buf
      → total ≤ encoder.output_buf_size
      → Padded encoder total (maybe_append_filler encoder total)
  unfolding maybe_append_filler
  maybe_append_filler-Padded encoder total room h =
      let none = untouched encoder total h in
      let target = target_bytes encoder in
      if_split (Padded encoder total) (not encoder.cbr_intent || not (is_padded encoder.rc.mode))
        (λ e. none)
        (λ e.
          if_split (Padded encoder total) (leb target total) (λ e2. none)
            (λ e2.
              if_split (Padded encoder total) (ltb (target - total) 6) (λ e3. none)
                (λ e3.
                  if_split (Padded encoder total)
                    (ltb encoder.output_buf_size (total + (target - total))) (λ e4. none)
                    (λ e4. padded-Padded encoder total room (ground arith) (ground arith)))))

  -- For a buffer of at least output_buf_size bytes, the intent of a constant rate in a padded
  -- mode, a target at least 6 bytes above the frame and within the output buffer, the new count
  -- is the target and a filler NAL unit fills the gap.
  pub maybe_append_filler-reaches :
      (encoder : Encoder D) (total : ℕ)
      → encoder.output_buf_size ≤ length encoder.output_buf
      → encoder.cbr_intent ≡ true
      → is_padded encoder.rc.mode ≡ true
      → total + 6 ≤ target_bytes encoder
      → target_bytes encoder ≤ encoder.output_buf_size
      → ((maybe_append_filler encoder total).1 ≡ target_bytes encoder)
        × (bytes_bits (
              take
                (target_bytes encoder - total)
                (drop total (maybe_append_filler encoder total).0))
            ≡ bytes_bits (filler_nal (target_bytes encoder - total - 6)))
  unfolding maybe_append_filler
  maybe_append_filler-reaches encoder total room cbr mode h k =
      let short = leb-false (target_bytes encoder) total (omega arith) in
      let enough = ltb-false (target_bytes encoder - total) 6 (omega arith) in
      let fits =
        ltb-false encoder.output_buf_size (total + (target_bytes encoder - total)) (omega arith) in
      simp (cbr, mode, short, enough, fits)
        (padded-count encoder total room h k, padded-unit encoder total room h k)
