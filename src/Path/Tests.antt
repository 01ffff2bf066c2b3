-- ===== src/Path/Tests.antt =====
-- Runs of internal/path/path.go, and the theorem about it on concrete edges.
use libfossil.Base.{◌≡◌, refl, arith, true, false, List, [], ◌∷◌, ok, err}
use libfossil.Blob.{has_rid}
use libfossil.Path.{
  Edge, no_path, shortest, search, search_fuel, scan, neighbors, children, parents, rid_of,
  depth_of, reconstructed, reconstruct, chain, reverse_onto, number,
}
use libfossil.Path.Shortest.{IsShortest, shortest-IsShortest}

-- A line of five check-ins, with a merge from the first into the fourth.
abbrev pub line : List Edge
line =
    record { pid = 1; cid = 2; isprim = true }
    ∷ record { pid = 2; cid = 3; isprim = true }
    ∷ record { pid = 3; cid = 4; isprim = true }
    ∷ record { pid = 4; cid = 5; isprim = true }
    ∷ record { pid = 1; cid = 4; isprim = false }
    ∷ []

merge_taken :
    shortest line 1 5 false []
    ≡ ok (
        record { rid = 1; depth = 0 }
        ∷ record { rid = 4; depth = 1 }
        ∷ record { rid = 5; depth = 2 }
        ∷ [])
unfolding shortest search search_fuel scan neighbors children parents rid_of depth_of has_rid
    reconstructed reconstruct chain reverse_onto number
merge_taken = refl

pub skipped_cuts : shortest line 1 5 true (3 ∷ []) ≡ err no_path
unfolding shortest search search_fuel scan neighbors children parents rid_of depth_of has_rid
    reconstructed reconstruct chain reverse_onto number
skipped_cuts = refl

shortest-IsShortest_example : IsShortest line false (3 ∷ []) 1 5 (shortest line 1 5 false (3 ∷ []))
shortest-IsShortest_example =
    shortest-IsShortest line false (3 ∷ []) 1 5 (omega arith) (omega arith)
