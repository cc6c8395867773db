-- ===== src/Hid/Tables.antt =====
-- crates/core/src/hid/macos.rs and windows.rs: the tables, in the order of the source.
use kmwarp.Base.{ℕ, List, [], ◌∷◌}

-- macOS virtual keycode, HID usage.
abbrev pub macos_vk_to_hid : List (ℕ × ℕ)
macos_vk_to_hid =
    (0, 4)
    ∷ (11, 5)
    ∷ (8, 6)
    ∷ (2, 7)
    ∷ (14, 8)
    ∷ (3, 9)
    ∷ (5, 10)
    ∷ (4, 11)
    ∷ (34, 12)
    ∷ (38, 13)
    ∷ (40, 14)
    ∷ (37, 15)
    ∷ (46, 16)
    ∷ (45, 17)
    ∷ (31, 18)
    ∷ (35, 19)
    ∷ (12, 20)
    ∷ (15, 21)
    ∷ (1, 22)
    ∷ (17, 23)
    ∷ (32, 24)
    ∷ (9, 25)
    ∷ (13, 26)
    ∷ (7, 27)
    ∷ (16, 28)
    ∷ (6, 29)
    ∷ (18, 30)
    ∷ (19, 31)
    ∷ (20, 32)
    ∷ (21, 33)
    ∷ (23, 34)
    ∷ (22, 35)
    ∷ (26, 36)
    ∷ (28, 37)
    ∷ (25, 38)
    ∷ (29, 39)
    ∷ (36, 40)
    ∷ (53, 41)
    ∷ (51, 42)
    ∷ (48, 43)
    ∷ (49, 44)
    ∷ (27, 45)
    ∷ (24, 46)
    ∷ (33, 47)
    ∷ (30, 48)
    ∷ (42, 49)
    ∷ (41, 51)
    ∷ (39, 52)
    ∷ (50, 53)
    ∷ (43, 54)
    ∷ (47, 55)
    ∷ (44, 56)
    ∷ (57, 57)
    ∷ (122, 58)
    ∷ (120, 59)
    ∷ (99, 60)
    ∷ (118, 61)
    ∷ (96, 62)
    ∷ (97, 63)
    ∷ (98, 64)
    ∷ (100, 65)
    ∷ (101, 66)
    ∷ (109, 67)
    ∷ (103, 68)
    ∷ (111, 69)
    ∷ (115, 74)
    ∷ (116, 75)
    ∷ (117, 76)
    ∷ (119, 77)
    ∷ (121, 78)
    ∷ (124, 79)
    ∷ (123, 80)
    ∷ (125, 81)
    ∷ (126, 82)
    ∷ (59, 224)
    ∷ (56, 225)
    ∷ (58, 226)
    ∷ (55, 227)
    ∷ (62, 228)
    ∷ (60, 229)
    ∷ (61, 230)
    ∷ (54, 231)
    ∷ []

-- Win32 virtual key, HID usage.
abbrev pub win32_vk_to_hid : List (ℕ × ℕ)
win32_vk_to_hid =
    (65, 4)
    ∷ (66, 5)
    ∷ (67, 6)
    ∷ (68, 7)
    ∷ (69, 8)
    ∷ (70, 9)
    ∷ (71, 10)
    ∷ (72, 11)
    ∷ (73, 12)
    ∷ (74, 13)
    ∷ (75, 14)
    ∷ (76, 15)
    ∷ (77, 16)
    ∷ (78, 17)
    ∷ (79, 18)
    ∷ (80, 19)
    ∷ (81, 20)
    ∷ (82, 21)
    ∷ (83, 22)
    ∷ (84, 23)
    ∷ (85, 24)
    ∷ (86, 25)
    ∷ (87, 26)
    ∷ (88, 27)
    ∷ (89, 28)
    ∷ (90, 29)
    ∷ (49, 30)
    ∷ (50, 31)
    ∷ (51, 32)
    ∷ (52, 33)
    ∷ (53, 34)
    ∷ (54, 35)
    ∷ (55, 36)
    ∷ (56, 37)
    ∷ (57, 38)
    ∷ (48, 39)
    ∷ (13, 40)
    ∷ (27, 41)
    ∷ (8, 42)
    ∷ (9, 43)
    ∷ (32, 44)
    ∷ (189, 45)
    ∷ (187, 46)
    ∷ (219, 47)
    ∷ (221, 48)
    ∷ (220, 49)
    ∷ (186, 51)
    ∷ (222, 52)
    ∷ (192, 53)
    ∷ (188, 54)
    ∷ (190, 55)
    ∷ (191, 56)
    ∷ (20, 57)
    ∷ (112, 58)
    ∷ (113, 59)
    ∷ (114, 60)
    ∷ (115, 61)
    ∷ (116, 62)
    ∷ (117, 63)
    ∷ (118, 64)
    ∷ (119, 65)
    ∷ (120, 66)
    ∷ (121, 67)
    ∷ (122, 68)
    ∷ (123, 69)
    ∷ (45, 73)
    ∷ (36, 74)
    ∷ (33, 75)
    ∷ (46, 76)
    ∷ (35, 77)
    ∷ (34, 78)
    ∷ (39, 79)
    ∷ (37, 80)
    ∷ (40, 81)
    ∷ (38, 82)
    ∷ (162, 224)
    ∷ (160, 225)
    ∷ (164, 226)
    ∷ (91, 227)
    ∷ (163, 228)
    ∷ (161, 229)
    ∷ (165, 230)
    ∷ (92, 231)
    ∷ []

-- HID usage, PS/2 Set-1 scancode with 0xE0 in the high byte of an extended key.
abbrev pub hid_to_scancode_table : List (ℕ × ℕ)
hid_to_scancode_table =
    (4, 30)
    ∷ (5, 48)
    ∷ (6, 46)
    ∷ (7, 32)
    ∷ (8, 18)
    ∷ (9, 33)
    ∷ (10, 34)
    ∷ (11, 35)
    ∷ (12, 23)
    ∷ (13, 36)
    ∷ (14, 37)
    ∷ (15, 38)
    ∷ (16, 50)
    ∷ (17, 49)
    ∷ (18, 24)
    ∷ (19, 25)
    ∷ (20, 16)
    ∷ (21, 19)
    ∷ (22, 31)
    ∷ (23, 20)
    ∷ (24, 22)
    ∷ (25, 47)
    ∷ (26, 17)
    ∷ (27, 45)
    ∷ (28, 21)
    ∷ (29, 44)
    ∷ (30, 2)
    ∷ (31, 3)
    ∷ (32, 4)
    ∷ (33, 5)
    ∷ (34, 6)
    ∷ (35, 7)
    ∷ (36, 8)
    ∷ (37, 9)
    ∷ (38, 10)
    ∷ (39, 11)
    ∷ (40, 28)
    ∷ (41, 1)
    ∷ (42, 14)
    ∷ (43, 15)
    ∷ (44, 57)
    ∷ (45, 12)
    ∷ (46, 13)
    ∷ (47, 26)
    ∷ (48, 27)
    ∷ (49, 43)
    ∷ (51, 39)
    ∷ (52, 40)
    ∷ (53, 41)
    ∷ (54, 51)
    ∷ (55, 52)
    ∷ (56, 53)
    ∷ (57, 58)
    ∷ (58, 59)
    ∷ (59, 60)
    ∷ (60, 61)
    ∷ (61, 62)
    ∷ (62, 63)
    ∷ (63, 64)
    ∷ (64, 65)
    ∷ (65, 66)
    ∷ (66, 67)
    ∷ (67, 68)
    ∷ (68, 87)
    ∷ (69, 88)
    ∷ (73, 57426)
    ∷ (74, 57415)
    ∷ (75, 57417)
    ∷ (76, 57427)
    ∷ (77, 57423)
    ∷ (78, 57425)
    ∷ (79, 57421)
    ∷ (80, 57419)
    ∷ (81, 57424)
    ∷ (82, 57416)
    ∷ (224, 29)
    ∷ (225, 42)
    ∷ (226, 56)
    ∷ (227, 57435)
    ∷ (228, 57373)
    ∷ (229, 54)
    ∷ (230, 57400)
    ∷ (231, 57436)
    ∷ []
