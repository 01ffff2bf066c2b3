-- ===== src/Delta/Builds.antt =====
-- Lists of delta commands joined, and the text that they build.
use libfossil.Base.{◌≡◌, refl, List, [], ◌∷◌, ◌++◌, append_assoc, Bytes, All, All-append}
use libfossil.Delta.Commands.{Command, render, expand, Fits}

pub render-append : (xs ys : List Command) → render (xs ++ ys) ≡ render xs ++ render ys
render-append [] ys = refl
render-append (c ∷ xs) ys = rw (render-append xs ys, append_assoc)

expand-append :
    (source : Bytes) (xs ys : List Command)
    → expand source (xs ++ ys) ≡ expand source xs ++ expand source ys
expand-append source [] ys = refl
expand-append source (c ∷ xs) ys = rw (expand-append source xs ys, append_assoc)

-- Commands that build `text`, each within the source.
pub record Builds (source : Bytes) (cmds : List Command) (text : Bytes) : Type 0 where
  pub fits : All (Fits source) cmds
  pub text_is : expand source cmds ≡ text

pub Builds-append :
    (source : Bytes) (xs ys : List Command) (s t : Bytes)
    → Builds source xs s
    → Builds source ys t
    → Builds source (xs ++ ys) (s ++ t)
Builds-append source xs ys s t b b' = record {
  fits = All-append (Fits source) xs ys b.fits b'.fits;
  text_is = rw (expand-append source xs ys, b.text_is, b'.text_is);
}
