-- ===== src/Hevc/Sizes/Matrix.antt =====
-- The matrix of the 32-point transform in hevc_intra.c, and the smaller ones that it holds.
use bc250_vulkan_encode_stop.Base.{
  ℕ, ◌-◌, ◌*◌, ◌^◌, ◌%◌, List, [], ◌∷◌, if◌then◌else◌, ◌==◌, ltb, get_or,
}
use bc250_vulkan_encode_stop.Base.Int.{ℤ, pos, negsuc, ◌-ℤ◌}

unfoldable pub dct32_left : List (List ℤ)
dct32_left =
    (pos 64
      ∷ pos 64
      ∷ pos 64
      ∷ pos 64
      ∷ pos 64
      ∷ pos 64
      ∷ pos 64
      ∷ pos 64
      ∷ pos 64
      ∷ pos 64
      ∷ pos 64
      ∷ pos 64
      ∷ pos 64
      ∷ pos 64
      ∷ pos 64
      ∷ pos 64
      ∷ [])
    ∷ (pos 90
        ∷ pos 90
        ∷ pos 88
        ∷ pos 85
        ∷ pos 82
        ∷ pos 78
        ∷ pos 73
        ∷ pos 67
        ∷ pos 61
        ∷ pos 54
        ∷ pos 46
        ∷ pos 38
        ∷ pos 31
        ∷ pos 22
        ∷ pos 13
        ∷ pos 4
        ∷ [])
    ∷ (pos 90
        ∷ pos 87
        ∷ pos 80
        ∷ pos 70
        ∷ pos 57
        ∷ pos 43
        ∷ pos 25
        ∷ pos 9
        ∷ negsuc 8
        ∷ negsuc 24
        ∷ negsuc 42
        ∷ negsuc 56
        ∷ negsuc 69
        ∷ negsuc 79
        ∷ negsuc 86
        ∷ negsuc 89
        ∷ [])
    ∷ (pos 90
        ∷ pos 82
        ∷ pos 67
        ∷ pos 46
        ∷ pos 22
        ∷ negsuc 3
        ∷ negsuc 30
        ∷ negsuc 53
        ∷ negsuc 72
        ∷ negsuc 84
        ∷ negsuc 89
        ∷ negsuc 87
        ∷ negsuc 77
        ∷ negsuc 60
        ∷ negsuc 37
        ∷ negsuc 12
        ∷ [])
    ∷ (pos 89
        ∷ pos 75
        ∷ pos 50
        ∷ pos 18
        ∷ negsuc 17
        ∷ negsuc 49
        ∷ negsuc 74
        ∷ negsuc 88
        ∷ negsuc 88
        ∷ negsuc 74
        ∷ negsuc 49
        ∷ negsuc 17
        ∷ pos 18
        ∷ pos 50
        ∷ pos 75
        ∷ pos 89
        ∷ [])
    ∷ (pos 88
        ∷ pos 67
        ∷ pos 31
        ∷ negsuc 12
        ∷ negsuc 53
        ∷ negsuc 81
        ∷ negsuc 89
        ∷ negsuc 77
        ∷ negsuc 45
        ∷ negsuc 3
        ∷ pos 38
        ∷ pos 73
        ∷ pos 90
        ∷ pos 85
        ∷ pos 61
        ∷ pos 22
        ∷ [])
    ∷ (pos 87
        ∷ pos 57
        ∷ pos 9
        ∷ negsuc 42
        ∷ negsuc 79
        ∷ negsuc 89
        ∷ negsuc 69
        ∷ negsuc 24
        ∷ pos 25
        ∷ pos 70
        ∷ pos 90
        ∷ pos 80
        ∷ pos 43
        ∷ negsuc 8
        ∷ negsuc 56
        ∷ negsuc 86
        ∷ [])
    ∷ (pos 85
        ∷ pos 46
        ∷ negsuc 12
        ∷ negsuc 66
        ∷ negsuc 89
        ∷ negsuc 72
        ∷ negsuc 21
        ∷ pos 38
        ∷ pos 82
        ∷ pos 88
        ∷ pos 54
        ∷ negsuc 3
        ∷ negsuc 60
        ∷ negsuc 89
        ∷ negsuc 77
        ∷ negsuc 30
        ∷ [])
    ∷ (pos 83
        ∷ pos 36
        ∷ negsuc 35
        ∷ negsuc 82
        ∷ negsuc 82
        ∷ negsuc 35
        ∷ pos 36
        ∷ pos 83
        ∷ pos 83
        ∷ pos 36
        ∷ negsuc 35
        ∷ negsuc 82
        ∷ negsuc 82
        ∷ negsuc 35
        ∷ pos 36
        ∷ pos 83
        ∷ [])
    ∷ (pos 82
        ∷ pos 22
        ∷ negsuc 53
        ∷ negsuc 89
        ∷ negsuc 60
        ∷ pos 13
        ∷ pos 78
        ∷ pos 85
        ∷ pos 31
        ∷ negsuc 45
        ∷ negsuc 89
        ∷ negsuc 66
        ∷ pos 4
        ∷ pos 73
        ∷ pos 88
        ∷ pos 38
        ∷ [])
    ∷ (pos 80
        ∷ pos 9
        ∷ negsuc 69
        ∷ negsuc 86
        ∷ negsuc 24
        ∷ pos 57
        ∷ pos 90
        ∷ pos 43
        ∷ negsuc 42
        ∷ negsuc 89
        ∷ negsuc 56
        ∷ pos 25
        ∷ pos 87
        ∷ pos 70
        ∷ negsuc 8
        ∷ negsuc 79
        ∷ [])
    ∷ (pos 78
        ∷ negsuc 3
        ∷ negsuc 81
        ∷ negsuc 72
        ∷ pos 13
        ∷ pos 85
        ∷ pos 67
        ∷ negsuc 21
        ∷ negsuc 87
        ∷ negsuc 60
        ∷ pos 31
        ∷ pos 90
        ∷ pos 54
        ∷ negsuc 37
        ∷ negsuc 89
        ∷ negsuc 45
        ∷ [])
    ∷ (pos 75
        ∷ negsuc 17
        ∷ negsuc 88
        ∷ negsuc 49
        ∷ pos 50
        ∷ pos 89
        ∷ pos 18
        ∷ negsuc 74
        ∷ negsuc 74
        ∷ pos 18
        ∷ pos 89
        ∷ pos 50
        ∷ negsuc 49
        ∷ negsuc 88
        ∷ negsuc 17
        ∷ pos 75
        ∷ [])
    ∷ (pos 73
        ∷ negsuc 30
        ∷ negsuc 89
        ∷ negsuc 21
        ∷ pos 78
        ∷ pos 67
        ∷ negsuc 37
        ∷ negsuc 89
        ∷ negsuc 12
        ∷ pos 82
        ∷ pos 61
        ∷ negsuc 45
        ∷ negsuc 87
        ∷ negsuc 3
        ∷ pos 85
        ∷ pos 54
        ∷ [])
    ∷ (pos 70
        ∷ negsuc 42
        ∷ negsuc 86
        ∷ pos 9
        ∷ pos 90
        ∷ pos 25
        ∷ negsuc 79
        ∷ negsuc 56
        ∷ pos 57
        ∷ pos 80
        ∷ negsuc 24
        ∷ negsuc 89
        ∷ negsuc 8
        ∷ pos 87
        ∷ pos 43
        ∷ negsuc 69
        ∷ [])
    ∷ (pos 67
        ∷ negsuc 53
        ∷ negsuc 77
        ∷ pos 38
        ∷ pos 85
        ∷ negsuc 21
        ∷ negsuc 89
        ∷ pos 4
        ∷ pos 90
        ∷ pos 13
        ∷ negsuc 87
        ∷ negsuc 30
        ∷ pos 82
        ∷ pos 46
        ∷ negsuc 72
        ∷ negsuc 60
        ∷ [])
    ∷ (pos 64
        ∷ negsuc 63
        ∷ negsuc 63
        ∷ pos 64
        ∷ pos 64
        ∷ negsuc 63
        ∷ negsuc 63
        ∷ pos 64
        ∷ pos 64
        ∷ negsuc 63
        ∷ negsuc 63
        ∷ pos 64
        ∷ pos 64
        ∷ negsuc 63
        ∷ negsuc 63
        ∷ pos 64
        ∷ [])
    ∷ (pos 61
        ∷ negsuc 72
        ∷ negsuc 45
        ∷ pos 82
        ∷ pos 31
        ∷ negsuc 87
        ∷ negsuc 12
        ∷ pos 90
        ∷ negsuc 3
        ∷ negsuc 89
        ∷ pos 22
        ∷ pos 85
        ∷ negsuc 37
        ∷ negsuc 77
        ∷ pos 54
        ∷ pos 67
        ∷ [])
    ∷ (pos 57
        ∷ negsuc 79
        ∷ negsuc 24
        ∷ pos 90
        ∷ negsuc 8
        ∷ negsuc 86
        ∷ pos 43
        ∷ pos 70
        ∷ negsuc 69
        ∷ negsuc 42
        ∷ pos 87
        ∷ pos 9
        ∷ negsuc 89
        ∷ pos 25
        ∷ pos 80
        ∷ negsuc 56
        ∷ [])
    ∷ (pos 54
        ∷ negsuc 84
        ∷ negsuc 3
        ∷ pos 88
        ∷ negsuc 45
        ∷ negsuc 60
        ∷ pos 82
        ∷ pos 13
        ∷ negsuc 89
        ∷ pos 38
        ∷ pos 67
        ∷ negsuc 77
        ∷ negsuc 21
        ∷ pos 90
        ∷ negsuc 30
        ∷ negsuc 72
        ∷ [])
    ∷ (pos 50
        ∷ negsuc 88
        ∷ pos 18
        ∷ pos 75
        ∷ negsuc 74
        ∷ negsuc 17
        ∷ pos 89
        ∷ negsuc 49
        ∷ negsuc 49
        ∷ pos 89
        ∷ negsuc 17
        ∷ negsuc 74
        ∷ pos 75
        ∷ pos 18
        ∷ negsuc 88
        ∷ pos 50
        ∷ [])
    ∷ (pos 46
        ∷ negsuc 89
        ∷ pos 38
        ∷ pos 54
        ∷ negsuc 89
        ∷ pos 31
        ∷ pos 61
        ∷ negsuc 87
        ∷ pos 22
        ∷ pos 67
        ∷ negsuc 84
        ∷ pos 13
        ∷ pos 73
        ∷ negsuc 81
        ∷ pos 4
        ∷ pos 78
        ∷ [])
    ∷ (pos 43
        ∷ negsuc 89
        ∷ pos 57
        ∷ pos 25
        ∷ negsuc 86
        ∷ pos 70
        ∷ pos 9
        ∷ negsuc 79
        ∷ pos 80
        ∷ negsuc 8
        ∷ negsuc 69
        ∷ pos 87
        ∷ negsuc 24
        ∷ negsuc 56
        ∷ pos 90
        ∷ negsuc 42
        ∷ [])
    ∷ (pos 38
        ∷ negsuc 87
        ∷ pos 73
        ∷ negsuc 3
        ∷ negsuc 66
        ∷ pos 90
        ∷ negsuc 45
        ∷ negsuc 30
        ∷ pos 85
        ∷ negsuc 77
        ∷ pos 13
        ∷ pos 61
        ∷ negsuc 89
        ∷ pos 54
        ∷ pos 22
        ∷ negsuc 81
        ∷ [])
    ∷ (pos 36
        ∷ negsuc 82
        ∷ pos 83
        ∷ negsuc 35
        ∷ negsuc 35
        ∷ pos 83
        ∷ negsuc 82
        ∷ pos 36
        ∷ pos 36
        ∷ negsuc 82
        ∷ pos 83
        ∷ negsuc 35
        ∷ negsuc 35
        ∷ pos 83
        ∷ negsuc 82
        ∷ pos 36
        ∷ [])
    ∷ (pos 31
        ∷ negsuc 77
        ∷ pos 90
        ∷ negsuc 60
        ∷ pos 4
        ∷ pos 54
        ∷ negsuc 87
        ∷ pos 82
        ∷ negsuc 37
        ∷ negsuc 21
        ∷ pos 73
        ∷ negsuc 89
        ∷ pos 67
        ∷ negsuc 12
        ∷ negsuc 45
        ∷ pos 85
        ∷ [])
    ∷ (pos 25
        ∷ negsuc 69
        ∷ pos 90
        ∷ negsuc 79
        ∷ pos 43
        ∷ pos 9
        ∷ negsuc 56
        ∷ pos 87
        ∷ negsuc 86
        ∷ pos 57
        ∷ negsuc 8
        ∷ negsuc 42
        ∷ pos 80
        ∷ negsuc 89
        ∷ pos 70
        ∷ negsuc 24
        ∷ [])
    ∷ (pos 22
        ∷ negsuc 60
        ∷ pos 85
        ∷ negsuc 89
        ∷ pos 73
        ∷ negsuc 37
        ∷ negsuc 3
        ∷ pos 46
        ∷ negsuc 77
        ∷ pos 90
        ∷ negsuc 81
        ∷ pos 54
        ∷ negsuc 12
        ∷ negsuc 30
        ∷ pos 67
        ∷ negsuc 87
        ∷ [])
    ∷ (pos 18
        ∷ negsuc 49
        ∷ pos 75
        ∷ negsuc 88
        ∷ pos 89
        ∷ negsuc 74
        ∷ pos 50
        ∷ negsuc 17
        ∷ negsuc 17
        ∷ pos 50
        ∷ negsuc 74
        ∷ pos 89
        ∷ negsuc 88
        ∷ pos 75
        ∷ negsuc 49
        ∷ pos 18
        ∷ [])
    ∷ (pos 13
        ∷ negsuc 37
        ∷ pos 61
        ∷ negsuc 77
        ∷ pos 88
        ∷ negsuc 89
        ∷ pos 85
        ∷ negsuc 72
        ∷ pos 54
        ∷ negsuc 30
        ∷ pos 4
        ∷ pos 22
        ∷ negsuc 45
        ∷ pos 67
        ∷ negsuc 81
        ∷ pos 90
        ∷ [])
    ∷ (pos 9
        ∷ negsuc 24
        ∷ pos 43
        ∷ negsuc 56
        ∷ pos 70
        ∷ negsuc 79
        ∷ pos 87
        ∷ negsuc 89
        ∷ pos 90
        ∷ negsuc 86
        ∷ pos 80
        ∷ negsuc 69
        ∷ pos 57
        ∷ negsuc 42
        ∷ pos 25
        ∷ negsuc 8
        ∷ [])
    ∷ (pos 4
        ∷ negsuc 12
        ∷ pos 22
        ∷ negsuc 30
        ∷ pos 38
        ∷ negsuc 45
        ∷ pos 54
        ∷ negsuc 60
        ∷ pos 67
        ∷ negsuc 72
        ∷ pos 78
        ∷ negsuc 81
        ∷ pos 85
        ∷ negsuc 87
        ∷ pos 90
        ∷ negsuc 89
        ∷ [])
    ∷ []

-- `DCT32_LEFT[row][j]`.
unfoldable pub left_half : ℕ → ℕ → ℤ
unfolding dct32_left
left_half row j = get_or (get_or dct32_left row []) j (pos 0)

unfoldable pub hevc_tmat : ℕ → ℕ → ℕ → ℤ
unfolding left_half
hevc_tmat log2n i j =
    let row = i * 2 ^ (5 - log2n) in
    let nn : ℕ = 2 ^ log2n in
    if ltb j 16
    then left_half row j
    else if row % 2 == 1
    then pos 0 -ℤ left_half row (nn - 1 - j)
    else left_half row (nn - 1 - j)
