-- ===== src/Keys/Text.antt =====
-- What src/util/pk_pairs.go uses of Go's texts: strings.Split at two spaces, the lines of
-- bufio.Scanner, and fmt.Println. A text is its bytes.
use mathlib.Core.List.{append_assoc, append-nil}
use dreddit.Base.{
  ℕ, ◌≡◌, refl, sym, ap, ◌∙◌, Bool, true, false, ◌&&◌, List, [], ◌∷◌, ◌++◌, Bytes, ◌==◌,
  if◌then◌else◌, not, arith,
}

-- strings.Split(text, "  "); `acc` is the part that is being read.
unfoldable pub split : Bytes → Bytes → List Bytes
split acc [] = acc ∷ []
split acc (x ∷ []) = (acc ++ x ∷ []) ∷ []
split acc (x ∷ y ∷ text) = elim ((x == 32) && (y == 32)) [
  | true ↦ acc ∷ split [] text
  | false ↦ split (acc ++ x ∷ []) (y ∷ text)
]

-- A line without a carriage return at its end.
unfoldable pub drop_cr : Bytes → Bytes
drop_cr [] = []
drop_cr (x ∷ []) = if x == 13 then [] else x ∷ []
drop_cr (x ∷ y ∷ line) = x ∷ drop_cr (y ∷ line)

-- The lines that bufio.Scanner finds in what is left of a text.
unfoldable pub lines : Bytes → Bytes → List Bytes
unfolding drop_cr
lines [] [] = []
lines (a ∷ acc) [] = drop_cr (a ∷ acc) ∷ []
lines acc (x ∷ text) = elim (x == 10) [
  | true ↦ drop_cr acc ∷ lines [] text
  | false ↦ lines (acc ++ x ∷ []) text
]

-- `scanner.Scan()` and then `scanner.Text()`, which is empty when there is no further line.
abbrev pub scan : List Bytes → Bytes × List Bytes
scan [] = ([], [])
scan (line ∷ rest) = (line, rest)

-- fmt.Println of two strings.
abbrev pub println : Bytes → Bytes → Bytes
println a b = a ++ 32 ∷ (b ++ 10 ∷ [])

-- No end of line stands in the text.
abbrev pub is_line : Bytes → Bool
is_line [] = true
is_line (x ∷ text) = not (x == 10) && (not (x == 13) && is_line text)

-- No space either.
abbrev pub is_plain : Bytes → Bool
is_plain [] = true
is_plain (x ∷ text) = not (x == 32) && (not (x == 10) && (not (x == 13) && is_plain text))

line_first :
    (x : ℕ) (text : Bytes)
    → is_line (x ∷ text) ≡ true
    → ((x == 10) ≡ false) × ((x == 13) ≡ false) × (is_line text ≡ true)
line_first x text h = (ground arith, ground arith, ground arith)

plain_first :
    (x : ℕ) (text : Bytes)
    → is_plain (x ∷ text) ≡ true
    → ((x == 32) ≡ false) × (is_plain text ≡ true)
plain_first x text h = (ground arith, ground arith)

pub is_plain-is_line : (text : Bytes) → is_plain text ≡ true → is_line text ≡ true
is_plain-is_line [] h = refl
is_plain-is_line (x ∷ text) h = ground (arith, is_plain-is_line text)

pub is_line-append : (a b : Bytes) → is_line a ≡ true → is_line b ≡ true → is_line (a ++ b) ≡ true
is_line-append [] b ha hb = hb
is_line-append (x ∷ a) b ha hb = ground (arith, is_line-append a b)

pub split_plain : (acc text : Bytes) → is_plain text ≡ true → split acc text ≡ (acc ++ text) ∷ []
unfolding split
split_plain acc [] plain = ap (λ (l : Bytes). l ∷ []) (sym (append-nil acc))
split_plain acc (x ∷ []) plain = refl
split_plain acc (x ∷ y ∷ text) plain =
    let (no_space, rest) = plain_first x (y ∷ text) plain in
    rw (no_space, split)
      (split_plain (acc ++ x ∷ []) (y ∷ text) rest
        ∙ ap (λ (l : Bytes). l ∷ []) (append_assoc acc (x ∷ []) (y ∷ text)))

drop_cr-line : (text : Bytes) → is_line text ≡ true → drop_cr text ≡ text
unfolding drop_cr
drop_cr-line [] h = refl
drop_cr-line (x ∷ []) h = rw (line_first x [] h).1 refl
drop_cr-line (x ∷ y ∷ text) h = ap (◌∷◌ x) (drop_cr-line (y ∷ text) (line_first x (y ∷ text) h).2)

lines-fed :
    (acc text rest : Bytes)
    → is_line text ≡ true
    → lines acc (text ++ 10 ∷ rest) ≡ drop_cr (acc ++ text) ∷ lines [] rest
unfolding lines
lines-fed acc [] rest h = ap (λ (l : Bytes). drop_cr l ∷ lines [] rest) (sym (append-nil acc))
lines-fed acc (x ∷ text) rest h =
    let (no_feed, no_return, more) = line_first x text h in
    rw (no_feed, lines)
      (lines-fed (acc ++ x ∷ []) text rest more
        ∙ ap (λ (l : Bytes). drop_cr l ∷ lines [] rest) (append_assoc acc (x ∷ []) text))

-- A line ends at its line feed.
pub lines-line :
    (text rest : Bytes) → is_line text ≡ true → lines [] (text ++ 10 ∷ rest) ≡ text ∷ lines [] rest
lines-line text rest h =
    lines-fed [] text rest h ∙ ap (λ (l : Bytes). l ∷ lines [] rest) (drop_cr-line text h)
