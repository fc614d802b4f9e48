-- ===== src/Text/Classes.antt =====
-- The classes of code points that `psi_vm_text_next_cluster` asks for.
use psi_code.Prelude.{ℕ, Bool, false, ◌&&◌, ◌||◌, List, [], ◌∷◌, ◌==◌, leb, ltb, if◌then◌else◌}

-- `psi_vm_text_in_range`
abbrev pub in_range : ℕ → ℕ → ℕ → Bool
in_range cp first last = leb first cp && leb cp last

unfoldable pub is_regional_indicator : ℕ → Bool
is_regional_indicator cp = in_range cp 0x1f1e6 0x1f1ff

unfoldable pub is_emoji_modifier : ℕ → Bool
is_emoji_modifier cp = in_range cp 0x1f3fb 0x1f3ff

abbrev is_one_of : ℕ → List ℕ → Bool
is_one_of cp [] = false
is_one_of cp (x ∷ xs) = cp == x || is_one_of cp xs

-- the cases of the switch
unfoldable pub is_indic_linker : ℕ → Bool
is_indic_linker cp = is_one_of cp (
    0x094d ∷ 0x09cd ∷ 0x0acd ∷ 0x0b4d ∷ 0x0c4d ∷ 0x0d4d ∷ 0x1039 ∷ 0x17d2 ∷ 0x1a60 ∷ 0x1b44 ∷ 0x1bab
    ∷ 0xa9c0 ∷ 0xaaf6 ∷ 0x10a3f ∷ 0x11133 ∷ 0x113d0 ∷ 0x1193e ∷ 0x11a47 ∷ 0x11a99 ∷ 0x11f42 ∷ [])

-- A range of the consonants, or one of them alone.
pub data Letters : Type 0 where
  upto : ℕ → ℕ → Letters
  only : ℕ → Letters

abbrev is_letter : ℕ → List Letters → Bool
is_letter cp [] = false
is_letter cp (upto first last ∷ ls) = in_range cp first last || is_letter cp ls
is_letter cp (only x ∷ ls) = cp == x || is_letter cp ls

unfoldable pub is_indic_consonant : ℕ → Bool
is_indic_consonant cp =
    if ltb cp 0x0915 || ltb 0x11f33 cp
    then false
    else is_letter cp (
        upto 0x0915 0x0939
        ∷ upto 0x0958 0x095f
        ∷ upto 0x0978 0x097f
        ∷ upto 0x0995 0x09a8
        ∷ upto 0x09aa 0x09b0
        ∷ only 0x09b2
        ∷ upto 0x09b6 0x09b9
        ∷ upto 0x09dc 0x09dd
        ∷ only 0x09df
        ∷ upto 0x09f0 0x09f1
        ∷ upto 0x0a95 0x0aa8
        ∷ upto 0x0aaa 0x0ab0
        ∷ upto 0x0ab2 0x0ab3
        ∷ upto 0x0ab5 0x0ab9
        ∷ only 0x0af9
        ∷ upto 0x0b15 0x0b28
        ∷ upto 0x0b2a 0x0b30
        ∷ upto 0x0b32 0x0b33
        ∷ upto 0x0b35 0x0b39
        ∷ upto 0x0b5c 0x0b5d
        ∷ only 0x0b5f
        ∷ only 0x0b71
        ∷ upto 0x0c15 0x0c28
        ∷ upto 0x0c2a 0x0c39
        ∷ upto 0x0c58 0x0c5a
        ∷ upto 0x0d15 0x0d3a
        ∷ upto 0x1000 0x102a
        ∷ only 0x103f
        ∷ upto 0x1050 0x1055
        ∷ upto 0x105a 0x105d
        ∷ only 0x1061
        ∷ upto 0x1065 0x1066
        ∷ upto 0x106e 0x1070
        ∷ upto 0x1075 0x1081
        ∷ only 0x108e
        ∷ upto 0x1780 0x17b3
        ∷ upto 0x1a20 0x1a54
        ∷ upto 0x1b0b 0x1b0c
        ∷ upto 0x1b13 0x1b33
        ∷ upto 0x1b45 0x1b4c
        ∷ upto 0x1b83 0x1ba0
        ∷ upto 0x1bae 0x1baf
        ∷ upto 0x1bbb 0x1bbd
        ∷ upto 0xa989 0xa98b
        ∷ upto 0xa98f 0xa9b2
        ∷ upto 0xa9e0 0xa9e4
        ∷ upto 0xa9e7 0xa9ef
        ∷ upto 0xa9fa 0xa9fe
        ∷ upto 0xaa60 0xaa6f
        ∷ upto 0xaa71 0xaa73
        ∷ only 0xaa7a
        ∷ upto 0xaa7e 0xaa7f
        ∷ upto 0xaae0 0xaaea
        ∷ upto 0xabc0 0xabda
        ∷ only 0x10a00
        ∷ upto 0x10a10 0x10a13
        ∷ upto 0x10a15 0x10a17
        ∷ upto 0x10a19 0x10a35
        ∷ upto 0x11103 0x11126
        ∷ only 0x11144
        ∷ only 0x11147
        ∷ upto 0x11380 0x11389
        ∷ only 0x1138b
        ∷ only 0x1138e
        ∷ upto 0x11390 0x113b5
        ∷ upto 0x11900 0x11906
        ∷ only 0x11909
        ∷ upto 0x1190c 0x11913
        ∷ upto 0x11915 0x11916
        ∷ upto 0x11918 0x1192f
        ∷ only 0x11a00
        ∷ upto 0x11a0b 0x11a32
        ∷ only 0x11a50
        ∷ upto 0x11a5c 0x11a83
        ∷ upto 0x11f04 0x11f10
        ∷ upto 0x11f12 0x11f33
        ∷ [])

unfoldable pub is_control : ℕ → Bool
is_control cp = ltb cp 0x20 || in_range cp 0x7f 0x9f
