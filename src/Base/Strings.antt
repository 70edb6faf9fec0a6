-- ===== src/Base/Strings.antt =====
-- Python's `str` as a list of code points, with `strip`.
use faethon_system.Base.Bools.{leb, ◌==◌, if◌then◌else◌}
use Prim.Native.Nat.{ℕ}
use Prim.Native.Char.{code}
use Prim.Native.String.{String}
use mathlib.Core.Bool.{Bool, ◌&&◌, ◌||◌}
use mathlib.Core.List.{List, [], ◌∷◌, reverse}

abbrev pub Text : Type 0
Text = List ℕ

-- the text of a literal
abbrev pub text : String → Text
text String.[] = []
text (String.◌∷◌ c s) = code c ∷ text s

-- `str.isspace` of one character
abbrev pub is_space : ℕ → Bool
is_space c =
    (leb 9 c && leb c 13)
    || (leb 28 c && leb c 32)
    || c == 133
    || c == 160
    || c == 5760
    || (leb 8192 c && leb c 8202)
    || c == 8232
    || c == 8233
    || c == 8239
    || c == 8287
    || c == 12288

abbrev pub lstrip : Text → Text
lstrip [] = []
lstrip (c ∷ cs) = let rest = lstrip cs in if is_space c then rest else c ∷ cs

-- `s.strip()`
abbrev pub strip : Text → Text
strip s = reverse (lstrip (reverse (lstrip s)))

-- `not s`
abbrev pub is_empty : Text → Bool
is_empty [] = Bool.true
is_empty (_ ∷ _) = Bool.false
