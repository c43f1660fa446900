-- ===== src/Prelude/PyText.antt =====
-- Python's `str` methods that the source calls, over the code points of a text.
use Prim.Native.Char.{Char, code}
use Prim.Native.String.{String, ◌++◌ as append}
use Prim.Native.Nat.{ℕ}
use mathlib.Core.Bool.{Bool, false, not, ◌&&◌, ◌||◌}
use mathlib.Core.List.{List, [], ◌∷◌, reverse}
use ai_odoo_assistant.Prelude.Tests.{leb, ◌==◌, if◌then◌else◌}

-- [ord(c) for c in text]
abbrev pub codes : String → List ℕ
codes String.[] = []
codes (String.◌∷◌ letter rest) = code letter ∷ codes rest

-- str.isspace of one character
unfoldable pub is_space : ℕ → Bool
is_space c =
    leb 9 c && leb c 13
    || leb 28 c && leb c 32
    || c == 133
    || c == 160
    || c == 5760
    || leb 8192 c && leb c 8202
    || c == 8232
    || c == 8233
    || c == 8239
    || c == 8287
    || c == 12288

unfoldable pub lstrip : List ℕ → List ℕ
unfolding is_space
lstrip [] = []
lstrip (c ∷ s) = if is_space c then lstrip s else c ∷ s

-- s.strip()
unfoldable pub strip : List ℕ → List ℕ
unfolding lstrip
strip s = reverse (lstrip (reverse (lstrip s)))

-- "\x00" in s
unfoldable pub has_nul : List ℕ → Bool
has_nul [] = false
has_nul (c ∷ s) = c == 0 || has_nul s

-- A word goes on where its next character is not a space.
abbrev pub goes_on : String → Bool
goes_on String.[] = false
goes_on (String.◌∷◌ letter rest) = not (is_space (code letter))

abbrev lengthen : Char → List String → List String
lengthen letter [] = String.◌∷◌ letter String.[] ∷ []
lengthen letter (word ∷ words) = String.◌∷◌ letter word ∷ words

-- s.split()
unfoldable pub split : String → List String
split String.[] = []
split (String.◌∷◌ letter rest) =
    if is_space (code letter)
    then split rest
    else if goes_on rest
    then lengthen letter (split rest)
    else String.◌∷◌ letter String.[] ∷ split rest

-- " ".join(words)
unfoldable pub join : List String → String
join [] = ""
join (word ∷ words) = elim words [ [] ↦ word | _ ↦ append word (append " " (join words)) ]

-- " ".join(s.split())
unfoldable pub squeeze : String → String
squeeze s = join (split s)

abbrev trim_end : Char → String → String
trim_end letter String.[] = if is_space (code letter) then "" else String.◌∷◌ letter String.[]
trim_end letter rest = String.◌∷◌ letter rest

-- s.rstrip() and s.lstrip(), on the text itself
unfoldable pub rstrip_text : String → String
rstrip_text String.[] = String.[]
rstrip_text (String.◌∷◌ letter rest) = trim_end letter (rstrip_text rest)

unfoldable pub lstrip_text : String → String
lstrip_text String.[] = String.[]
lstrip_text (String.◌∷◌ letter rest) =
    if is_space (code letter) then lstrip_text rest else String.◌∷◌ letter rest

unfoldable pub strip_text : String → String
strip_text s = rstrip_text (lstrip_text s)
