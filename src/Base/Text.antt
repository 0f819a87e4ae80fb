-- ===== src/Base/Text.antt =====
-- Text as a list of code points, and what the source uses of Python's `str`, for ASCII text.
use Prim.Native.Nat.{ℕ, ◌+◌, ◌-◌, ◌*◌}
use Prim.Native.Char.{code}
use Prim.Native.String.{String}
use mathlib.Core.Path.{◌≡◌, refl}
use native.Mathlib.Omega.{arith}
use text.Mathlib.TextEquality.{Char-path}
use mathlib.Core.Bool.{Bool, true, false, ◌&&◌, ◌||◌}
use mathlib.Core.Option.{Option, none, some}
use mathlib.Core.List.{List, [], ◌∷◌, ◌++◌}
use stock_center.Base.Tests.{leb, ltb, ◌==◌, if◌then◌else◌}

abbrev pub Text : Type 0
Text = List ℕ

-- A literal.
abbrev pub codes : String → Text
codes String.[] = []
codes (String.◌∷◌ c s) = code c ∷ codes s

pub codes-injective : (s t : String) → codes s ≡ codes t → s ≡ t
codes-injective String.[] String.[] e = refl
codes-injective String.[] (String.◌∷◌ d t) e = absurd (let n : [] ≡ code d ∷ codes t = e in cc)
codes-injective (String.◌∷◌ c s) String.[] e = absurd (let n : code c ∷ codes s ≡ [] = e in cc)
codes-injective (String.◌∷◌ c s) (String.◌∷◌ d t) e =
    let k : code c ∷ codes s ≡ code d ∷ codes t = e in
    let same_char = Char-path c d cc in
    let same_rest = codes-injective s t cc in rw (same_char, same_rest) refl

abbrev pub text_eq : Text → Text → Bool
text_eq [] [] = true
text_eq (c ∷ s) (d ∷ t) = c == d && text_eq s t
text_eq _ _ = false

pub text_eq_sound : (s t : Text) → text_eq s t ≡ true → s ≡ t
text_eq_sound [] [] h = refl
text_eq_sound (c ∷ s) (d ∷ t) h = ground (arith, text_eq_sound s t)
text_eq_sound [] (d ∷ t) h = cc
text_eq_sound (c ∷ s) [] h = cc

pub text_eq_refl : (s : Text) → text_eq s s ≡ true
text_eq_refl [] = refl
text_eq_refl (c ∷ s) = ground (arith, text_eq_refl s)

-- The order of texts.
unfoldable pub text_leb : Text → Text → Bool
text_leb [] s = true
text_leb (c ∷ s) [] = false
text_leb (c ∷ s) (d ∷ r) = ltb c d || (c == d && text_leb s r)

unfoldable pub is_digit : ℕ → Bool
is_digit c = leb b'0' c && leb c b'9'

unfoldable pub is_alpha : ℕ → Bool
is_alpha c = (leb b'a' c && leb c b'z') || (leb b'A' c && leb c b'Z')

-- `int(s)` for a text of digits, read from the left.
unfoldable pub int_from : ℕ → Text → ℕ
int_from n [] = n
int_from n (c ∷ s) = int_from (n * 10 + (c - b'0')) s

abbrev pub push_front : ℕ → List Text → List Text
push_front c [] = (c ∷ []) ∷ []
push_front c (w ∷ ws) = (c ∷ w) ∷ ws

-- `s.split(sep)` for one separator character.
unfoldable pub split : ℕ → Text → List Text
split sep [] = [] ∷ []
split sep (c ∷ s) = let rest = split sep s in if c == sep then [] ∷ rest else push_front c rest

-- `sep.join(words)` for one separator character.
unfoldable pub join : ℕ → List Text → Text
join sep [] = []
join sep (w ∷ []) = w
join sep (w ∷ v ∷ ws) = w ++ (sep ∷ join sep (v ∷ ws))

-- What stands before the first `sep`, and what stands behind it if there is one.
unfoldable pub partition : ℕ → Text → Text × Option Text
partition sep [] = ([], none)
partition sep (c ∷ s) =
    let (before, behind) = partition sep s in
    if c == sep then ([], some s) else (c ∷ before, behind)

unfoldable pub is_space : ℕ → Bool
is_space c = c == 32 || (leb 9 c && leb c 13) || (leb 28 c && leb c 31)

abbrev close : Text → List Text → List Text
close [] ws = ws
close (c ∷ w) ws = (c ∷ w) ∷ ws

-- `s.split()`: the runs of other characters than white space. `words_from` also gives the run
-- that begins at the front.
unfoldable pub words_from : Text → Text × List Text
words_from [] = ([], [])
words_from (c ∷ s) =
    let (run, ws) = words_from s in if is_space c then ([], close run ws) else (c ∷ run, ws)

unfoldable pub words : Text → List Text
unfolding words_from is_space
words s = let (run, ws) = words_from s in close run ws
