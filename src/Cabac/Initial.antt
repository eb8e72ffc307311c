-- ===== src/Cabac/Initial.antt =====
-- The slope and the offset of every context's initial state in cabac.c, ctxIdx 0 to 275.
use bc250_vulkan_encode_stop.Base.{List, [], ◌∷◌}
use bc250_vulkan_encode_stop.Base.Int.{ℤ, pos, negsuc}

unfoldable pub cabac_init_i : List (ℤ × ℤ)
cabac_init_i =
    (pos 20, negsuc 14)
    ∷ (pos 2, pos 54)
    ∷ (pos 3, pos 74)
    ∷ (pos 20, negsuc 14)
    ∷ (pos 2, pos 54)
    ∷ (pos 3, pos 74)
    ∷ (negsuc 27, pos 127)
    ∷ (negsuc 22, pos 104)
    ∷ (negsuc 5, pos 53)
    ∷ (negsuc 0, pos 54)
    ∷ (pos 7, pos 51)
    ∷ (pos 0, pos 0)
    ∷ (pos 0, pos 0)
    ∷ (pos 0, pos 0)
    ∷ (pos 0, pos 0)
    ∷ (pos 0, pos 0)
    ∷ (pos 0, pos 0)
    ∷ (pos 0, pos 0)
    ∷ (pos 0, pos 0)
    ∷ (pos 0, pos 0)
    ∷ (pos 0, pos 0)
    ∷ (pos 0, pos 0)
    ∷ (pos 0, pos 0)
    ∷ (pos 0, pos 0)
    ∷ (pos 0, pos 0)
    ∷ (pos 0, pos 0)
    ∷ (pos 0, pos 0)
    ∷ (pos 0, pos 0)
    ∷ (pos 0, pos 0)
    ∷ (pos 0, pos 0)
    ∷ (pos 0, pos 0)
    ∷ (pos 0, pos 0)
    ∷ (pos 0, pos 0)
    ∷ (pos 0, pos 0)
    ∷ (pos 0, pos 0)
    ∷ (pos 0, pos 0)
    ∷ (pos 0, pos 0)
    ∷ (pos 0, pos 0)
    ∷ (pos 0, pos 0)
    ∷ (pos 0, pos 0)
    ∷ (pos 0, pos 0)
    ∷ (pos 0, pos 0)
    ∷ (pos 0, pos 0)
    ∷ (pos 0, pos 0)
    ∷ (pos 0, pos 0)
    ∷ (pos 0, pos 0)
    ∷ (pos 0, pos 0)
    ∷ (pos 0, pos 0)
    ∷ (pos 0, pos 0)
    ∷ (pos 0, pos 0)
    ∷ (pos 0, pos 0)
    ∷ (pos 0, pos 0)
    ∷ (pos 0, pos 0)
    ∷ (pos 0, pos 0)
    ∷ (pos 0, pos 0)
    ∷ (pos 0, pos 0)
    ∷ (pos 0, pos 0)
    ∷ (pos 0, pos 0)
    ∷ (pos 0, pos 0)
    ∷ (pos 0, pos 0)
    ∷ (pos 0, pos 41)
    ∷ (pos 0, pos 63)
    ∷ (pos 0, pos 63)
    ∷ (pos 0, pos 63)
    ∷ (negsuc 8, pos 83)
    ∷ (pos 4, pos 86)
    ∷ (pos 0, pos 97)
    ∷ (negsuc 6, pos 72)
    ∷ (pos 13, pos 41)
    ∷ (pos 3, pos 62)
    ∷ (pos 0, pos 11)
    ∷ (pos 1, pos 55)
    ∷ (pos 0, pos 69)
    ∷ (negsuc 16, pos 127)
    ∷ (negsuc 12, pos 102)
    ∷ (pos 0, pos 82)
    ∷ (negsuc 6, pos 74)
    ∷ (negsuc 20, pos 107)
    ∷ (negsuc 26, pos 127)
    ∷ (negsuc 30, pos 127)
    ∷ (negsuc 23, pos 127)
    ∷ (negsuc 17, pos 95)
    ∷ (negsuc 26, pos 127)
    ∷ (negsuc 20, pos 114)
    ∷ (negsuc 29, pos 127)
    ∷ (negsuc 16, pos 123)
    ∷ (negsuc 11, pos 115)
    ∷ (negsuc 15, pos 122)
    ∷ (negsuc 10, pos 115)
    ∷ (negsuc 11, pos 63)
    ∷ (negsuc 1, pos 68)
    ∷ (negsuc 14, pos 84)
    ∷ (negsuc 12, pos 104)
    ∷ (negsuc 2, pos 70)
    ∷ (negsuc 7, pos 93)
    ∷ (negsuc 9, pos 90)
    ∷ (negsuc 29, pos 127)
    ∷ (negsuc 0, pos 74)
    ∷ (negsuc 5, pos 97)
    ∷ (negsuc 6, pos 91)
    ∷ (negsuc 19, pos 127)
    ∷ (negsuc 3, pos 56)
    ∷ (negsuc 4, pos 82)
    ∷ (negsuc 6, pos 76)
    ∷ (negsuc 21, pos 125)
    ∷ (negsuc 6, pos 93)
    ∷ (negsuc 10, pos 87)
    ∷ (negsuc 2, pos 77)
    ∷ (negsuc 4, pos 71)
    ∷ (negsuc 3, pos 63)
    ∷ (negsuc 3, pos 68)
    ∷ (negsuc 11, pos 84)
    ∷ (negsuc 6, pos 62)
    ∷ (negsuc 6, pos 65)
    ∷ (pos 8, pos 61)
    ∷ (pos 5, pos 56)
    ∷ (negsuc 1, pos 66)
    ∷ (pos 1, pos 64)
    ∷ (pos 0, pos 61)
    ∷ (negsuc 1, pos 78)
    ∷ (pos 1, pos 50)
    ∷ (pos 7, pos 52)
    ∷ (pos 10, pos 35)
    ∷ (pos 0, pos 44)
    ∷ (pos 11, pos 38)
    ∷ (pos 1, pos 45)
    ∷ (pos 0, pos 46)
    ∷ (pos 5, pos 44)
    ∷ (pos 31, pos 17)
    ∷ (pos 1, pos 51)
    ∷ (pos 7, pos 50)
    ∷ (pos 28, pos 19)
    ∷ (pos 16, pos 33)
    ∷ (pos 14, pos 62)
    ∷ (negsuc 12, pos 108)
    ∷ (negsuc 14, pos 100)
    ∷ (negsuc 12, pos 101)
    ∷ (negsuc 12, pos 91)
    ∷ (negsuc 11, pos 94)
    ∷ (negsuc 9, pos 88)
    ∷ (negsuc 15, pos 84)
    ∷ (negsuc 9, pos 86)
    ∷ (negsuc 6, pos 83)
    ∷ (negsuc 12, pos 87)
    ∷ (negsuc 18, pos 94)
    ∷ (pos 1, pos 70)
    ∷ (pos 0, pos 72)
    ∷ (negsuc 4, pos 74)
    ∷ (pos 18, pos 59)
    ∷ (negsuc 7, pos 102)
    ∷ (negsuc 14, pos 100)
    ∷ (pos 0, pos 95)
    ∷ (negsuc 3, pos 75)
    ∷ (pos 2, pos 72)
    ∷ (negsuc 10, pos 75)
    ∷ (negsuc 2, pos 71)
    ∷ (pos 15, pos 46)
    ∷ (negsuc 12, pos 69)
    ∷ (pos 0, pos 62)
    ∷ (pos 0, pos 65)
    ∷ (pos 21, pos 37)
    ∷ (negsuc 14, pos 72)
    ∷ (pos 9, pos 57)
    ∷ (pos 16, pos 54)
    ∷ (pos 0, pos 62)
    ∷ (pos 12, pos 72)
    ∷ (pos 24, pos 0)
    ∷ (pos 15, pos 9)
    ∷ (pos 8, pos 25)
    ∷ (pos 13, pos 18)
    ∷ (pos 15, pos 9)
    ∷ (pos 13, pos 19)
    ∷ (pos 10, pos 37)
    ∷ (pos 12, pos 18)
    ∷ (pos 6, pos 29)
    ∷ (pos 20, pos 33)
    ∷ (pos 15, pos 30)
    ∷ (pos 4, pos 45)
    ∷ (pos 1, pos 58)
    ∷ (pos 0, pos 62)
    ∷ (pos 7, pos 61)
    ∷ (pos 12, pos 38)
    ∷ (pos 11, pos 45)
    ∷ (pos 15, pos 39)
    ∷ (pos 11, pos 42)
    ∷ (pos 13, pos 44)
    ∷ (pos 16, pos 45)
    ∷ (pos 12, pos 41)
    ∷ (pos 10, pos 49)
    ∷ (pos 30, pos 34)
    ∷ (pos 18, pos 42)
    ∷ (pos 10, pos 55)
    ∷ (pos 17, pos 51)
    ∷ (pos 17, pos 46)
    ∷ (pos 0, pos 89)
    ∷ (pos 26, negsuc 18)
    ∷ (pos 22, negsuc 16)
    ∷ (pos 26, negsuc 16)
    ∷ (pos 30, negsuc 24)
    ∷ (pos 28, negsuc 19)
    ∷ (pos 33, negsuc 22)
    ∷ (pos 37, negsuc 26)
    ∷ (pos 33, negsuc 22)
    ∷ (pos 40, negsuc 27)
    ∷ (pos 38, negsuc 16)
    ∷ (pos 33, negsuc 10)
    ∷ (pos 40, negsuc 14)
    ∷ (pos 41, negsuc 5)
    ∷ (pos 38, pos 1)
    ∷ (pos 41, pos 17)
    ∷ (pos 30, negsuc 5)
    ∷ (pos 27, pos 3)
    ∷ (pos 26, pos 22)
    ∷ (pos 37, negsuc 15)
    ∷ (pos 35, negsuc 3)
    ∷ (pos 38, negsuc 7)
    ∷ (pos 38, negsuc 2)
    ∷ (pos 37, pos 3)
    ∷ (pos 38, pos 5)
    ∷ (pos 42, pos 0)
    ∷ (pos 35, pos 16)
    ∷ (pos 39, pos 22)
    ∷ (pos 14, pos 48)
    ∷ (pos 27, pos 37)
    ∷ (pos 21, pos 60)
    ∷ (pos 12, pos 68)
    ∷ (pos 2, pos 97)
    ∷ (negsuc 2, pos 71)
    ∷ (negsuc 5, pos 42)
    ∷ (negsuc 4, pos 50)
    ∷ (negsuc 2, pos 54)
    ∷ (negsuc 1, pos 62)
    ∷ (pos 0, pos 58)
    ∷ (pos 1, pos 63)
    ∷ (negsuc 1, pos 72)
    ∷ (negsuc 0, pos 74)
    ∷ (negsuc 8, pos 91)
    ∷ (negsuc 4, pos 67)
    ∷ (negsuc 4, pos 27)
    ∷ (negsuc 2, pos 39)
    ∷ (negsuc 1, pos 44)
    ∷ (pos 0, pos 46)
    ∷ (negsuc 15, pos 64)
    ∷ (negsuc 7, pos 68)
    ∷ (negsuc 9, pos 78)
    ∷ (negsuc 5, pos 77)
    ∷ (negsuc 9, pos 86)
    ∷ (negsuc 11, pos 92)
    ∷ (negsuc 14, pos 55)
    ∷ (negsuc 9, pos 60)
    ∷ (negsuc 5, pos 62)
    ∷ (negsuc 3, pos 65)
    ∷ (negsuc 11, pos 73)
    ∷ (negsuc 7, pos 76)
    ∷ (negsuc 6, pos 80)
    ∷ (negsuc 8, pos 88)
    ∷ (negsuc 16, pos 110)
    ∷ (negsuc 10, pos 97)
    ∷ (negsuc 19, pos 84)
    ∷ (negsuc 10, pos 79)
    ∷ (negsuc 5, pos 73)
    ∷ (negsuc 3, pos 74)
    ∷ (negsuc 12, pos 86)
    ∷ (negsuc 12, pos 96)
    ∷ (negsuc 10, pos 97)
    ∷ (negsuc 18, pos 117)
    ∷ (negsuc 7, pos 78)
    ∷ (negsuc 4, pos 33)
    ∷ (negsuc 3, pos 48)
    ∷ (negsuc 1, pos 53)
    ∷ (negsuc 2, pos 62)
    ∷ (negsuc 12, pos 71)
    ∷ (negsuc 9, pos 79)
    ∷ (negsuc 11, pos 86)
    ∷ (negsuc 12, pos 90)
    ∷ (negsuc 13, pos 97)
    ∷ []

unfoldable pub cabac_init_pb0 : List (ℤ × ℤ)
cabac_init_pb0 =
    (pos 20, negsuc 14)
    ∷ (pos 2, pos 54)
    ∷ (pos 3, pos 74)
    ∷ (pos 20, negsuc 14)
    ∷ (pos 2, pos 54)
    ∷ (pos 3, pos 74)
    ∷ (negsuc 27, pos 127)
    ∷ (negsuc 22, pos 104)
    ∷ (negsuc 5, pos 53)
    ∷ (negsuc 0, pos 54)
    ∷ (pos 7, pos 51)
    ∷ (pos 23, pos 33)
    ∷ (pos 23, pos 2)
    ∷ (pos 21, pos 0)
    ∷ (pos 1, pos 9)
    ∷ (pos 0, pos 49)
    ∷ (negsuc 36, pos 118)
    ∷ (pos 5, pos 57)
    ∷ (negsuc 12, pos 78)
    ∷ (negsuc 10, pos 65)
    ∷ (pos 1, pos 62)
    ∷ (pos 12, pos 49)
    ∷ (negsuc 3, pos 73)
    ∷ (pos 17, pos 50)
    ∷ (pos 18, pos 64)
    ∷ (pos 9, pos 43)
    ∷ (pos 29, pos 0)
    ∷ (pos 26, pos 67)
    ∷ (pos 16, pos 90)
    ∷ (pos 9, pos 104)
    ∷ (negsuc 45, pos 127)
    ∷ (negsuc 19, pos 104)
    ∷ (pos 1, pos 67)
    ∷ (negsuc 12, pos 78)
    ∷ (negsuc 10, pos 65)
    ∷ (pos 1, pos 62)
    ∷ (negsuc 5, pos 86)
    ∷ (negsuc 16, pos 95)
    ∷ (negsuc 5, pos 61)
    ∷ (pos 9, pos 45)
    ∷ (negsuc 2, pos 69)
    ∷ (negsuc 5, pos 81)
    ∷ (negsuc 10, pos 96)
    ∷ (pos 6, pos 55)
    ∷ (pos 7, pos 67)
    ∷ (negsuc 4, pos 86)
    ∷ (pos 2, pos 88)
    ∷ (pos 0, pos 58)
    ∷ (negsuc 2, pos 76)
    ∷ (negsuc 9, pos 94)
    ∷ (pos 5, pos 54)
    ∷ (pos 4, pos 69)
    ∷ (negsuc 2, pos 81)
    ∷ (pos 0, pos 88)
    ∷ (negsuc 6, pos 67)
    ∷ (negsuc 4, pos 74)
    ∷ (negsuc 3, pos 74)
    ∷ (negsuc 4, pos 80)
    ∷ (negsuc 6, pos 72)
    ∷ (pos 1, pos 58)
    ∷ (pos 0, pos 41)
    ∷ (pos 0, pos 63)
    ∷ (pos 0, pos 63)
    ∷ (pos 0, pos 63)
    ∷ (negsuc 8, pos 83)
    ∷ (pos 4, pos 86)
    ∷ (pos 0, pos 97)
    ∷ (negsuc 6, pos 72)
    ∷ (pos 13, pos 41)
    ∷ (pos 3, pos 62)
    ∷ (pos 0, pos 45)
    ∷ (negsuc 3, pos 78)
    ∷ (negsuc 2, pos 96)
    ∷ (negsuc 26, pos 126)
    ∷ (negsuc 27, pos 98)
    ∷ (negsuc 24, pos 101)
    ∷ (negsuc 22, pos 67)
    ∷ (negsuc 27, pos 82)
    ∷ (negsuc 19, pos 94)
    ∷ (negsuc 15, pos 83)
    ∷ (negsuc 21, pos 110)
    ∷ (negsuc 20, pos 91)
    ∷ (negsuc 17, pos 102)
    ∷ (negsuc 12, pos 93)
    ∷ (negsuc 28, pos 127)
    ∷ (negsuc 6, pos 92)
    ∷ (negsuc 4, pos 89)
    ∷ (negsuc 6, pos 96)
    ∷ (negsuc 12, pos 108)
    ∷ (negsuc 2, pos 46)
    ∷ (negsuc 0, pos 65)
    ∷ (negsuc 0, pos 57)
    ∷ (negsuc 8, pos 93)
    ∷ (negsuc 2, pos 74)
    ∷ (negsuc 8, pos 92)
    ∷ (negsuc 7, pos 87)
    ∷ (negsuc 22, pos 126)
    ∷ (pos 5, pos 54)
    ∷ (pos 6, pos 60)
    ∷ (pos 6, pos 59)
    ∷ (pos 6, pos 69)
    ∷ (negsuc 0, pos 48)
    ∷ (pos 0, pos 68)
    ∷ (negsuc 3, pos 69)
    ∷ (negsuc 7, pos 88)
    ∷ (negsuc 1, pos 85)
    ∷ (negsuc 5, pos 78)
    ∷ (negsuc 0, pos 75)
    ∷ (negsuc 6, pos 77)
    ∷ (pos 2, pos 54)
    ∷ (pos 5, pos 50)
    ∷ (negsuc 2, pos 68)
    ∷ (pos 1, pos 50)
    ∷ (pos 6, pos 42)
    ∷ (negsuc 3, pos 81)
    ∷ (pos 1, pos 63)
    ∷ (negsuc 3, pos 70)
    ∷ (pos 0, pos 67)
    ∷ (pos 2, pos 57)
    ∷ (negsuc 1, pos 76)
    ∷ (pos 11, pos 35)
    ∷ (pos 4, pos 64)
    ∷ (pos 1, pos 61)
    ∷ (pos 11, pos 35)
    ∷ (pos 18, pos 25)
    ∷ (pos 12, pos 24)
    ∷ (pos 13, pos 29)
    ∷ (pos 13, pos 36)
    ∷ (negsuc 9, pos 93)
    ∷ (negsuc 6, pos 73)
    ∷ (negsuc 1, pos 73)
    ∷ (pos 13, pos 46)
    ∷ (pos 9, pos 49)
    ∷ (negsuc 6, pos 100)
    ∷ (pos 9, pos 53)
    ∷ (pos 2, pos 53)
    ∷ (pos 5, pos 53)
    ∷ (negsuc 1, pos 61)
    ∷ (pos 0, pos 56)
    ∷ (pos 0, pos 56)
    ∷ (negsuc 12, pos 63)
    ∷ (negsuc 4, pos 60)
    ∷ (negsuc 0, pos 62)
    ∷ (pos 4, pos 57)
    ∷ (negsuc 5, pos 69)
    ∷ (pos 4, pos 57)
    ∷ (pos 14, pos 39)
    ∷ (pos 4, pos 51)
    ∷ (pos 13, pos 68)
    ∷ (pos 3, pos 64)
    ∷ (pos 1, pos 61)
    ∷ (pos 9, pos 63)
    ∷ (pos 7, pos 50)
    ∷ (pos 16, pos 39)
    ∷ (pos 5, pos 44)
    ∷ (pos 4, pos 52)
    ∷ (pos 11, pos 48)
    ∷ (negsuc 4, pos 60)
    ∷ (negsuc 0, pos 59)
    ∷ (pos 0, pos 59)
    ∷ (pos 22, pos 33)
    ∷ (pos 5, pos 44)
    ∷ (pos 14, pos 43)
    ∷ (negsuc 0, pos 78)
    ∷ (pos 0, pos 60)
    ∷ (pos 9, pos 69)
    ∷ (pos 11, pos 28)
    ∷ (pos 2, pos 40)
    ∷ (pos 3, pos 44)
    ∷ (pos 0, pos 49)
    ∷ (pos 0, pos 46)
    ∷ (pos 2, pos 44)
    ∷ (pos 2, pos 51)
    ∷ (pos 0, pos 47)
    ∷ (pos 4, pos 39)
    ∷ (pos 2, pos 62)
    ∷ (pos 6, pos 46)
    ∷ (pos 0, pos 54)
    ∷ (pos 3, pos 54)
    ∷ (pos 2, pos 58)
    ∷ (pos 4, pos 63)
    ∷ (pos 6, pos 51)
    ∷ (pos 6, pos 57)
    ∷ (pos 7, pos 53)
    ∷ (pos 6, pos 52)
    ∷ (pos 6, pos 55)
    ∷ (pos 11, pos 45)
    ∷ (pos 14, pos 36)
    ∷ (pos 8, pos 53)
    ∷ (negsuc 0, pos 82)
    ∷ (pos 7, pos 55)
    ∷ (negsuc 2, pos 78)
    ∷ (pos 15, pos 46)
    ∷ (pos 22, pos 31)
    ∷ (negsuc 0, pos 84)
    ∷ (pos 25, pos 7)
    ∷ (pos 30, negsuc 6)
    ∷ (pos 28, pos 3)
    ∷ (pos 28, pos 4)
    ∷ (pos 32, pos 0)
    ∷ (pos 34, negsuc 0)
    ∷ (pos 30, pos 6)
    ∷ (pos 30, pos 6)
    ∷ (pos 32, pos 9)
    ∷ (pos 31, pos 19)
    ∷ (pos 26, pos 27)
    ∷ (pos 26, pos 30)
    ∷ (pos 37, pos 20)
    ∷ (pos 28, pos 34)
    ∷ (pos 17, pos 70)
    ∷ (pos 1, pos 67)
    ∷ (pos 5, pos 59)
    ∷ (pos 9, pos 67)
    ∷ (pos 16, pos 30)
    ∷ (pos 18, pos 32)
    ∷ (pos 18, pos 35)
    ∷ (pos 22, pos 29)
    ∷ (pos 24, pos 31)
    ∷ (pos 23, pos 38)
    ∷ (pos 18, pos 43)
    ∷ (pos 20, pos 41)
    ∷ (pos 11, pos 63)
    ∷ (pos 9, pos 59)
    ∷ (pos 9, pos 64)
    ∷ (negsuc 0, pos 94)
    ∷ (negsuc 1, pos 89)
    ∷ (negsuc 8, pos 108)
    ∷ (negsuc 5, pos 76)
    ∷ (negsuc 1, pos 44)
    ∷ (pos 0, pos 45)
    ∷ (pos 0, pos 52)
    ∷ (negsuc 2, pos 64)
    ∷ (negsuc 1, pos 59)
    ∷ (negsuc 3, pos 70)
    ∷ (negsuc 3, pos 75)
    ∷ (negsuc 7, pos 82)
    ∷ (negsuc 16, pos 102)
    ∷ (negsuc 8, pos 77)
    ∷ (pos 3, pos 24)
    ∷ (pos 0, pos 42)
    ∷ (pos 0, pos 48)
    ∷ (pos 0, pos 55)
    ∷ (negsuc 5, pos 59)
    ∷ (negsuc 6, pos 71)
    ∷ (negsuc 11, pos 83)
    ∷ (negsuc 10, pos 87)
    ∷ (negsuc 29, pos 119)
    ∷ (pos 1, pos 58)
    ∷ (negsuc 2, pos 29)
    ∷ (negsuc 0, pos 36)
    ∷ (pos 1, pos 38)
    ∷ (pos 2, pos 43)
    ∷ (negsuc 5, pos 55)
    ∷ (pos 0, pos 58)
    ∷ (pos 0, pos 64)
    ∷ (negsuc 2, pos 74)
    ∷ (negsuc 9, pos 90)
    ∷ (pos 0, pos 70)
    ∷ (negsuc 3, pos 29)
    ∷ (pos 5, pos 31)
    ∷ (pos 7, pos 42)
    ∷ (pos 1, pos 59)
    ∷ (negsuc 1, pos 58)
    ∷ (negsuc 2, pos 72)
    ∷ (negsuc 2, pos 81)
    ∷ (negsuc 10, pos 97)
    ∷ (pos 0, pos 58)
    ∷ (pos 8, pos 5)
    ∷ (pos 10, pos 14)
    ∷ (pos 14, pos 18)
    ∷ (pos 13, pos 27)
    ∷ (pos 2, pos 40)
    ∷ (pos 0, pos 58)
    ∷ (negsuc 2, pos 70)
    ∷ (negsuc 5, pos 79)
    ∷ (negsuc 7, pos 85)
    ∷ []
