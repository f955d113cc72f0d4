-- ===== src/Base/Text.antt =====
-- Python's text where the program looks into it: the list of its code points.
use Prim.Native.Nat.{ℕ, zero, suc}
use Prim.Native.Char.{code}
use Prim.Native.String.{String}
use mathlib.Core.Bool.{Bool, true, false, ◌&&◌, ◌||◌}
use mathlib.Core.List.{List, [], ◌∷◌, ◌++◌, reverse, reverse-cons, append_assoc, append-nil}
use mathlib.Core.Path.{◌≡◌, refl, sym, ap, ◌∙◌}
use native.Mathlib.Omega.{arith}
use rfsn_agent_full.Base.Lists.{any, all, All}
use rfsn_agent_full.Base.Tests.{leb, ◌==◌, if◌then◌else◌, Bool-cases}
use mathlib.Core.Logic.{inl, inr}

abbrev pub Text : Type 0
Text = List ℕ

abbrev pub codes : String → Text
codes String.[] = []
codes (String.◌∷◌ c s) = code c ∷ codes s

-- `s.startswith(t)`
abbrev pub starts_with : Text → Text → Bool
starts_with s [] = true
starts_with [] (d ∷ t) = false
starts_with (c ∷ s) (d ∷ t) = c == d && starts_with s t

-- `t in s`
abbrev pub has_sub : Text → Text → Bool
has_sub [] t = starts_with [] t
has_sub (c ∷ s) t = starts_with (c ∷ s) t || has_sub s t

-- `s.endswith(t)`
abbrev pub ends_with : Text → Text → Bool
ends_with s t = starts_with (reverse s) (reverse t)

abbrev pub eq_text : Text → Text → Bool
eq_text [] [] = true
eq_text [] (d ∷ t) = false
eq_text (c ∷ s) [] = false
eq_text (c ∷ s) (d ∷ t) = c == d && eq_text s t

-- The white space of `str.strip` and `str.split`.
abbrev pub is_space : ℕ → Bool
is_space c =
    (leb 9 c && leb c 13)
    || (leb 28 c && leb c 32)
    || c == 133
    || c == 160
    || c == 5760
    || (leb 8192 c && leb c 8202)
    || c == 8232
    || c == 8233
    || c == 8239
    || c == 8287
    || c == 12288

abbrev pub drop_while : (ℕ → Bool) → Text → Text
drop_while p [] = []
drop_while p (c ∷ s) = let rest = drop_while p s in if p c then rest else c ∷ s

-- `s.strip()`
abbrev pub strip : Text → Text
strip s = reverse (drop_while is_space (reverse (drop_while is_space s)))

-- `s.lstrip("/")`
abbrev pub lstrip_slash : Text → Text
lstrip_slash = drop_while (λ c. c == b'/')

-- The line breaks of `str.splitlines`.
abbrev pub is_break : ℕ → Bool
is_break c = (leb 10 c && leb c 13) || (leb 28 c && leb c 30) || c == 133 || c == 8232 || c == 8233

abbrev flush : Text → List Text → List Text
flush [] rest = rest
flush line rest = reverse line ∷ rest

-- `line` is the line so far, reversed; after a carriage return a line feed is a part of the break.
abbrev lines_from : Bool → Text → Text → List Text
lines_from after_cr line [] = flush line []
lines_from after_cr line (c ∷ s) =
    let skip = lines_from false line s in
    let next = reverse line ∷ lines_from (c == 13) [] s in
    let more = lines_from false (c ∷ line) s in
    if after_cr && c == 10 then skip else if is_break c then next else more

-- `s.splitlines()`
abbrev pub splitlines : Text → List Text
splitlines s = lines_from false [] s

words_from : Text → Text → List Text
words_from word [] = flush word []
words_from word (c ∷ s) =
    let ended = words_from [] s in
    let longer = words_from (c ∷ word) s in if is_space c then flush word ended else longer

-- `s.split()`
unfoldable pub words : Text → List Text
unfolding words_from
words s = words_from [] s

-- `s[n:]`
abbrev pub drop_text : ℕ → Text → Text
drop_text zero s = s
drop_text (suc n) [] = []
drop_text (suc n) (c ∷ s) = drop_text n s

abbrev pub mem_text : Text → List Text → Bool
mem_text x = any (eq_text x)

pub eq_text_sound : (s t : Text) → eq_text s t ≡ true → s ≡ t
eq_text_sound [] [] h = refl
eq_text_sound [] (d ∷ t) h = cc
eq_text_sound (c ∷ s) [] h = cc
eq_text_sound (c ∷ s) (d ∷ t) h =
    let e : c ≡ d = ground (arith, h) in
    let f : eq_text s t ≡ true = ground (arith, h) in cc (e, eq_text_sound s t f)

pub eq_text_refl : (x : Text) → eq_text x x ≡ true
eq_text_refl [] = refl
eq_text_refl (c ∷ x) = ground (arith, eq_text_refl x)

pub mem_text-append_left :
    (x : Text) (xs ys : List Text) → mem_text x xs ≡ true → mem_text x (xs ++ ys) ≡ true
mem_text-append_left x [] ys h = cc h
mem_text-append_left x (z ∷ xs) ys h = elim (Bool-cases (eq_text x z)) [
  | inl here ↦ rw here refl
  | inr later ↦ rw later (mem_text-append_left x xs ys (rw later at h))
]

pub mem_text-append_right :
    (x : Text) (xs ys : List Text) → mem_text x ys ≡ true → mem_text x (xs ++ ys) ≡ true
mem_text-append_right x [] ys h = h
mem_text-append_right x (z ∷ xs) ys h = ground (arith, mem_text-append_right x xs ys h)

-- What holds of every text of a list holds of each.
pub all_mem :
    (q : Text → Bool) (x : Text) (seen : List Text)
    → all q seen ≡ true
    → mem_text x seen ≡ true
    → q x ≡ true
all_mem q x [] h m = cc
all_mem q x (y ∷ seen) h m = elim (Bool-cases (eq_text x y)) [
  | inl same ↦ rw (eq_text_sound x y same) (ground (arith, h))
  | inr other ↦ all_mem q x seen (ground (arith, h)) (ground (arith, m))
]

abbrev pub IsInWord : ℕ → Type 0
IsInWord c = is_space c ≡ false

words_from-append :
    (w : ℕ) (ws name s : Text)
    → All IsInWord name
    → words_from (w ∷ ws) (name ++ 32 ∷ s) ≡ (reverse (w ∷ ws) ++ name) ∷ words_from [] s
unfolding words_from
words_from-append w ws [] s a = ap (λ r. r ∷ words_from [] s) (sym (append-nil (reverse (w ∷ ws))))
words_from-append w ws (c ∷ name) s (p, a) = rw p (
    words_from-append c (w ∷ ws) name s a
    ∙ ap (λ r. r ∷ words_from [] s)
        (ap (λ r. r ++ name) (reverse-cons c (w ∷ ws))
          ∙ append_assoc (reverse (w ∷ ws)) (c ∷ []) name))

-- The first word of a text, up to a space.
pub words-append :
    (c : ℕ) (name s : Text)
    → All IsInWord (c ∷ name)
    → words ((c ∷ name) ++ 32 ∷ s) ≡ (c ∷ name) ∷ words s
unfolding words words_from
words-append c name s (p, a) = rw p (words_from-append c [] name s a)

words_from-some :
    (w : ℕ) (ws s : Text) → (v : Text) × (vs : List Text) × (words_from (w ∷ ws) s ≡ v ∷ vs)
unfolding words_from
words_from-some w ws [] = (_, _, refl)
words_from-some w ws (c ∷ s) = elim (Bool-cases (is_space c)) [
  | inl space ↦ rw space (_, _, refl)
  | inr other ↦ rw other (words_from-some c (w ∷ ws) s)
]

-- A text that does not begin with a space has a word.
pub words-some :
    (c : ℕ) (s : Text)
    → is_space c ≡ false
    → (v : Text) × (vs : List Text) × (words (c ∷ s) ≡ v ∷ vs)
unfolding words words_from
words-some c s p = rw p (words_from-some c [] s)

-- What the program asks of the Unicode tables: `str.lower`, the text in which every character that
-- `re.IGNORECASE` takes for a small ASCII letter is that letter, and `\d` and `\w` of regular
-- expressions.
pub record Unicode : Type 0 where
  pub lower : Text → Text
  pub fold_case : Text → Text
  pub is_decimal : ℕ → Bool
  pub is_word : ℕ → Bool
