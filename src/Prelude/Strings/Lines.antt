-- ===== src/Prelude/Strings/Lines.antt =====
-- What `lines` makes of a text that is put together from lines.
use mathlib.Core.Path.{◌≡◌, refl, ap, ◌∙◌}
use mathlib.Core.Logic.{◌≢◌}
use mathlib.Core.List.{List, [], ◌∷◌, ◌++◌, append-nil, append_assoc}
use native.Mathlib.Omega.{arith}
use pheidippides.Prelude.Lists.{All}
use pheidippides.Prelude.Equality.{Text}
use pheidippides.Prelude.Strings.{text_lines, text_lines_from, strip_return, emit}
use pheidippides.Prelude.Strings.Laws.{emit-filled}

-- No line feed and no carriage return.
abbrev pub IsLine : Text → Type 0
IsLine s = All (λ c. (c ≢ 10) × (c ≢ 13)) s

strip_return-line : (s : Text) → IsLine s → strip_return s ≡ s
unfolding strip_return
strip_return-line [] a = refl
strip_return-line (c ∷ []) ((n, r), a) = ground arith
strip_return-line (c ∷ d ∷ s) (n, a) = ap (λ x. c ∷ x) (strip_return-line (d ∷ s) a)

text_lines_from-line :
    (start line s : Text)
    → IsLine line
    → text_lines_from start (line ++ 10 ∷ s) ≡ strip_return (start ++ line) ∷ text_lines_from [] s
unfolding text_lines_from
text_lines_from-line start [] s a = rw (append-nil start) refl
text_lines_from-line start (c ∷ line) s ((n, r), a) =
    ground
      (arith, text_lines_from-line (start ++ c ∷ []) line s a, append_assoc start (c ∷ []) line)

pub text_lines-line :
    (line s : Text) → IsLine line → text_lines (line ++ 10 ∷ s) ≡ line ∷ text_lines s
unfolding text_lines
text_lines-line line s a =
    text_lines_from-line [] line s a ∙ ap (λ l. l ∷ text_lines_from [] s) (strip_return-line line a)

text_lines_from-last :
    (start line : Text) → IsLine line → text_lines_from start line ≡ emit (start ++ line) []
unfolding text_lines_from
text_lines_from-last start [] a = rw (append-nil start) refl
text_lines_from-last start (c ∷ line) ((n, r), a) =
    ground (arith, text_lines_from-last (start ++ c ∷ []) line a, append_assoc start (c ∷ []) line)

pub text_lines-last : (line : Text) → IsLine line → line ≢ [] → text_lines line ≡ line ∷ []
unfolding text_lines
text_lines-last line a n = text_lines_from-last [] line a ∙ emit-filled line [] n

-- Lines with a line feed between them.
abbrev pub join : List Text → Text
join [] = []
join (line ∷ []) = line
join (line ∷ next ∷ more) = line ++ 10 ∷ join (next ∷ more)

-- Lines with a line feed after each.
abbrev pub unlines : List Text → Text
unlines [] = []
unlines (line ∷ more) = line ++ 10 ∷ unlines more

abbrev pub EndsFilled : List Text → Type 0
EndsFilled [] = Unit
EndsFilled (line ∷ []) = line ≢ []
EndsFilled (line ∷ next ∷ more) = EndsFilled (next ∷ more)

pub text_lines-join : (ls : List Text) → All IsLine ls → EndsFilled ls → text_lines (join ls) ≡ ls
text_lines-join [] a n = unfold text_lines in refl
text_lines-join (line ∷ []) (a, _) n = text_lines-last line a n
text_lines-join (line ∷ next ∷ more) (a, rest) n =
    text_lines-line line (join (next ∷ more)) a
    ∙ ap (λ x. line ∷ x) (text_lines-join (next ∷ more) rest n)

pub text_lines-unlines :
    (ls : List Text) (s : Text) → All IsLine ls → text_lines (unlines ls ++ s) ≡ ls ++ text_lines s
text_lines-unlines [] s a = refl
text_lines-unlines (line ∷ more) s (a, rest) =
    ap text_lines (append_assoc line (10 ∷ unlines more) s)
    ∙ text_lines-line line (unlines more ++ s) a
    ∙ ap (λ x. line ∷ x) (text_lines-unlines more s rest)
