-- ===== src/ParameterSets/Cropping.antt =====
-- The picture size that `h264_sps_default` signals.
use bc250_vulkan_encode_stop.Base.{
  ℕ, ◌+◌, ◌-◌, ◌*◌, ◌%◌, ◌^◌, ◌<◌, ◌≡◌, ◌↔◌, false, arith, if◌then◌else◌,
}
use bc250_vulkan_encode_stop.ParameterSets.{H264Sps, mbs, h264_sps_default}
use bc250_vulkan_encode_stop.ParameterSets.Codes.{IsSps}

-- The luma size that a decoder shows (7.4.2.1.1): the coded size, where frame_cropping_flag is set
-- less the cropping, which counts in units of two.
unfoldable pub shown_width : H264Sps → ℕ
shown_width sps =
    16 * sps.pic_width_in_mbs
    - (if sps.frame_cropping then 2 * (sps.crop_left + sps.crop_right) else 0)

unfoldable pub shown_height : H264Sps → ℕ
shown_height sps =
    16 * sps.pic_height_in_mbs
    - (if sps.frame_cropping then 2 * (sps.crop_top + sps.crop_bottom) else 0)

-- A picture of even size below 2^32 - 16 is shown at that size, and cropping is signalled exactly
-- when the size is no whole number of macroblocks.
pub h264_sps_default-shown :
    (width height fps profile : ℕ)
    → width < 2 ^ 32 - 16
    → height < 2 ^ 32 - 16
    → width % 2 ≡ 0
    → height % 2 ≡ 0
    → (let sps = h264_sps_default width height fps profile in
        (shown_width sps ≡ width)
        × (shown_height sps ≡ height)
        × ((sps.frame_cropping ≡ false) ↔ ((width % 16 ≡ 0) × (height % 16 ≡ 0))))
unfolding h264_sps_default shown_width shown_height mbs
h264_sps_default-shown width height fps profile hw hh ew eh =
    (ground arith, ground arith, ground arith)

-- For an odd width below 2^32 - 16 a decoder, which crops where frame_cropping is set, shows a
-- picture one column wider than it is.
pub h264_sps_default-odd_width :
    (width height fps profile : ℕ)
    → width < 2 ^ 32 - 16
    → width % 2 ≡ 1
    → shown_width (h264_sps_default width height fps profile) ≡ width + 1
unfolding h264_sps_default shown_width mbs
h264_sps_default-odd_width width height fps profile hw ow = ground arith

-- The defaults fit their fields.
pub h264_sps_default-IsSps :
    (width height fps profile : ℕ)
    → profile < 2 ^ 8
    → IsSps (h264_sps_default width height fps profile)
unfolding h264_sps_default mbs
h264_sps_default-IsSps width height fps profile h = omega arith
