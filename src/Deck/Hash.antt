-- ===== src/Deck/Hash.antt =====
-- internal/deck/rcard.go: `ComputeR`, the checksum of a check-in's files.
use libfossil.Base.{
  ◌≡◌, refl, Option, none, some, List, [], ◌∷◌, ◌++◌, ◌==◌, if◌then◌else◌, Bytes, codes, length,
}
use libfossil.Base.Sort.{sort, sort-sort, length-sort}
use libfossil.Text.{format_nat}
use libfossil.Deck.Artifact.{Deck, Environment, FileCard}
use libfossil.Deck.Carried.{canonical}
use libfossil.Deck.RoundTrip.{file_less_asym}
use libfossil.Deck.Marshal.{is_empty, file_less}

-- What is written into the checksum for the files in turn; `none` if a content cannot be fetched.
unfoldable pub r_text : (Bytes → Option Bytes) → List FileCard → Option Bytes
r_text get_content [] = some []
r_text get_content (x ∷ xs) =
    let rest = r_text get_content xs in
    if is_empty x.uuid then rest else elim (get_content x.uuid) [
      | none ↦ none
      | some content ↦ elim rest [
        | none ↦ none
        | some text ↦
            some (x.name ++ (b' ' ∷ (format_nat (length content) ++ b'\n' ∷ (content ++ text))))
      ]
    ]

unfoldable pub compute_r :
    {T : Type 0} → Environment T → (Bytes → Option Bytes) → Deck T → Option Bytes
compute_r env get_content x =
    if length x.f == 0
    then some (codes "d41d8cd98f00b204e9800998ecf8427e")
    else elim (r_text get_content (sort file_less x.f)) [
      | none ↦ none
      | some text ↦ some (env.md5_hex text)
    ]

-- `ComputeR` does not depend on whether a deck is as it was made or as it is read back.
pub compute_r-canonical :
    {T : Type 0} (env : Environment T) (get_content : Bytes → Option Bytes) (x : Deck T)
    → compute_r env get_content (canonical x) ≡ compute_r env get_content x
unfolding compute_r
compute_r-canonical env get_content x =
    rw (length-sort file_less x.f, sort-sort file_less x.f file_less_asym) refl
