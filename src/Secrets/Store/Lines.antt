-- ===== src/Secrets/Store/Lines.antt =====
-- Texts of whole lines, as `lines` reads them and the edits write them.
use Prim.Native.Char.{Char, code}
use glidesh.Common.{
  ◌≡◌, refl, ◌∙◌, ◌++◌, sym, ap, arith, String, true, false, ◌&&◌, List, [], ◌∷◌, ◌==◌, glue, All,
}
use glidesh.Common.Chars.{lines}
use glidesh.Secrets.Store.{is_empty, join_lines, ends_line, end_as, put_end}

-- A line as `lines` gives it: it has no line feed, and no carriage return at its end.
abbrev pub IsLine : String → Type 0
IsLine String.[] = Unit
IsLine (String.◌∷◌ c s) =
    ((code c == b'\n') ≡ false) × ((code c == b'\r' && is_empty s) ≡ false) × IsLine s

-- Each line with its line feed.
abbrev pub unlines : List String → String
unlines [] = ""
unlines (l ∷ ls) = glue l (String.◌∷◌ "\n" (unlines ls))

-- The last line has a character.
abbrev pub EndsInText : List String → Type 0
EndsInText [] = Unit
EndsInText (l ∷ []) = is_empty l ≡ false
EndsInText (l ∷ m ∷ ls) = EndsInText (m ∷ ls)

lines-glue : (l s : String) → IsLine l → lines (glue l (String.◌∷◌ "\n" s)) ≡ l ∷ lines s
unfolding lines
lines-glue String.[] s h = refl
lines-glue (String.◌∷◌ c String.[]) s h = ground arith
lines-glue (String.◌∷◌ c (String.◌∷◌ d l)) s h = ground (arith, lines-glue (String.◌∷◌ d l) s h.2)

pub lines-unlines : (ls : List String) → All IsLine ls → lines (unlines ls) ≡ ls
lines-unlines [] h = unfold lines in refl
lines-unlines (l ∷ ls) h = rw (lines-glue l (unlines ls) h.0, lines-unlines ls h.1)

pub glue_assoc : (a b c : String) → glue (glue a b) c ≡ glue a (glue b c)
glue_assoc String.[] b c = refl
glue_assoc (String.◌∷◌ x a) b c = ap (String.◌∷◌ x) (glue_assoc a b c)

ends_line-cons :
    (c d : Char) (s : String)
    → ends_line (String.◌∷◌ c (String.◌∷◌ d s)) ≡ ends_line (String.◌∷◌ d s)
unfolding ends_line
ends_line-cons c d s = refl

pub ends_line-glue :
    (a : String) (c : Char) (s : String)
    → ends_line (glue a (String.◌∷◌ c s)) ≡ ends_line (String.◌∷◌ c s)
ends_line-glue String.[] c s = refl
ends_line-glue (String.◌∷◌ d String.[]) c s = ends_line-cons d c s
ends_line-glue (String.◌∷◌ d (String.◌∷◌ e a)) c s =
    rw (ends_line-cons d e (glue a (String.◌∷◌ c s))) (ends_line-glue (String.◌∷◌ e a) c s)

-- It does not end in a line feed.
abbrev pub HasNoFeed : String → Type 0
HasNoFeed l = ends_line l ≡ false

pub ends_line-line : (l : String) → IsLine l → ends_line l ≡ false
unfolding ends_line
ends_line-line String.[] h = refl
ends_line-line (String.◌∷◌ c String.[]) h = h.0
ends_line-line (String.◌∷◌ c (String.◌∷◌ d l)) h = ends_line-line (String.◌∷◌ d l) h.2

ends_line-feed : (ls : List String) → ends_line (String.◌∷◌ "\n" (unlines ls)) ≡ true
ends_line-feed [] = unfold ends_line in refl
ends_line-feed (String.[] ∷ ls) = ends_line-cons "\n" "\n" (unlines ls) ∙ ends_line-feed ls
ends_line-feed (String.◌∷◌ c l ∷ ls) =
    ends_line-cons "\n" c (glue l (String.◌∷◌ "\n" (unlines ls)))
    ∙ ends_line-glue (String.◌∷◌ c l) "\n" (unlines ls)
    ∙ ends_line-feed ls

pub ends_line-unlines : (l : String) (ls : List String) → ends_line (unlines (l ∷ ls)) ≡ true
ends_line-unlines l ls = ends_line-glue l "\n" (unlines ls) ∙ ends_line-feed ls

unlines-join_lines :
    (l : String) (ls : List String) → glue (join_lines (l ∷ ls)) "\n" ≡ unlines (l ∷ ls)
unfolding join_lines
unlines-join_lines l [] = refl
unlines-join_lines l (m ∷ ls) =
    glue_assoc l _ "\n" ∙ ap (λ s. glue l (String.◌∷◌ "\n" s)) (unlines-join_lines m ls)

is_empty-glue : (a : String) (c : Char) (s : String) → is_empty (glue a (String.◌∷◌ c s)) ≡ false
is_empty-glue String.[] c s = refl
is_empty-glue (String.◌∷◌ d a) c s = refl

pub is_empty-join_lines :
    (l : String) (ls : List String) → EndsInText (l ∷ ls) → is_empty (join_lines (l ∷ ls)) ≡ false
unfolding join_lines
is_empty-join_lines l [] h = h
is_empty-join_lines l (m ∷ ls) h = is_empty-glue l "\n" (join_lines (m ∷ ls))

ends_line-after : (s : String) → is_empty s ≡ false → ends_line (String.◌∷◌ "\n" s) ≡ ends_line s
ends_line-after String.[] h = cc
ends_line-after (String.◌∷◌ c s) h = ends_line-cons "\n" c s

ends_line-join_lines :
    (l : String) (ls : List String)
    → All HasNoFeed (l ∷ ls)
    → EndsInText (l ∷ ls)
    → ends_line (join_lines (l ∷ ls)) ≡ false
unfolding join_lines
ends_line-join_lines l [] h e = h.0
ends_line-join_lines l (m ∷ ls) h e =
    ends_line-glue l "\n" (join_lines (m ∷ ls))
    ∙ ends_line-after (join_lines (m ∷ ls)) (is_empty-join_lines m ls e)
    ∙ ends_line-join_lines m ls h.1 e

-- Joined lines end as those that they replace.
pub end_as-unlines :
    (x : String) (xs : List String) (l : String) (ls : List String)
    → All HasNoFeed (l ∷ ls)
    → EndsInText (l ∷ ls)
    → end_as (unlines (x ∷ xs)) (join_lines (l ∷ ls)) ≡ unlines (l ∷ ls)
unfolding end_as
end_as-unlines x xs l ls h e =
    rw (ends_line-unlines x xs, ends_line-join_lines l ls h e) (unlines-join_lines l ls)

unlines-append : (ls ms : List String) → unlines (ls ++ ms) ≡ glue (unlines ls) (unlines ms)
unlines-append [] ms = refl
unlines-append (l ∷ ls) ms =
    rw (unlines-append ls ms) (sym (glue_assoc l (String.◌∷◌ "\n" (unlines ls)) (unlines ms)))

-- What `upsert_scalar` writes where no line was replaced.
pub put_end-append :
    (content new : String) (ls : List String)
    → All HasNoFeed ls
    → EndsInText ls
    → put_end content new (ls, false) ≡ unlines (ls ++ new ∷ [])
put_end-append content new [] h e = unfold join_lines in refl
put_end-append content new (l ∷ ls) h e =
    rw (is_empty-join_lines l ls e, ends_line-join_lines l ls h e, unlines-join_lines l ls)
      (sym (unlines-append (l ∷ ls) (new ∷ [])))
