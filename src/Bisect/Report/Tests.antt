-- ===== src/Bisect/Report/Tests.antt =====
-- Runs of `Status` and `List`, and the theorems about them on concrete sessions.
use libfossil.Base.{
  ℕ, ◌<◌, ◌≡◌, ◌≢◌, refl, arith, true, subst, some, List, [], ◌∷◌, if◌then◌else◌, Bytes, codes,
  length, get_elem?, ok,
}
use libfossil.Base.Int.{pos}
use libfossil.Blob.{has_rid}
use libfossil.Text.{
  parse_int, is_digit, digits_value, parse_digits, positive_int, negative_int, fields, fields_loop,
  space_width, wide_space, add_word, is_space, starts_wide_space,
}
use libfossil.Path.{
  PathStep, shortest, search, search_fuel, scan, neighbors, children, parents, rid_of, depth_of,
  reconstructed, reconstruct, chain, reverse_onto, number,
}
use libfossil.Path.Routes.{IsRoute, rids}
use libfossil.Path.Shortest.{IsShortest, shortest-IsShortest}
use libfossil.Path.Tests.{line, skipped_cuts}
use libfossil.Bisect.{
  load_endpoints, parse_rid, found_path, path_between, parse_skip_set, skips_of, add_skip, is_id,
  is_skipped,
}
use libfossil.Bisect.Tests.{session, plain, next_run, next_plain, none_skipped}
use libfossil.Bisect.Report.{
  status, steps_of, ends_or_zero, is_unset, ListEntry, Tables, good_label, bad_label, current_label,
  next_label, skip_label, path_avoiding, skipped_rids, list, next_rid, rid_at, label_of, entries_of,
  entry_of, describe, row_for, date_for,
}
use libfossil.Bisect.Report.Listed.{rids_of}
use libfossil.Bisect.Report.Labels.{IsLabelled, list-IsLabelled}
use libfossil.Bisect.Report.Agreed.{list-next}
use libfossil.Bisect.Report.Blocked.{list-unlabelled}

abbrev tables : Tables ℕ
tables = record {
  blob = (1, codes "aa") ∷ (2, codes "bb") ∷ (3, codes "cc") ∷ [];
  event = (1, 7) ∷ [];
}

abbrev date : ℕ → Bytes
date n = n ∷ []

one_skipped : parse_skip_set session ≡ pos 3 ∷ []
unfolding parse_skip_set skips_of add_skip parse_int is_digit digits_value parse_digits positive_int
    negative_int fields fields_loop space_width wide_space add_word is_space starts_wide_space
one_skipped = refl

abbrev listed : List ListEntry
listed =
    record { rid = 1; uuid = codes "aa"; date = 7 ∷ []; label = good_label }
    ∷ record { rid = 2; uuid = codes "bb"; date = []; label = current_label }
    ∷ record { rid = 3; uuid = codes "cc"; date = []; label = skip_label }
    ∷ record { rid = 4; uuid = codes "?"; date = []; label = [] }
    ∷ record { rid = 5; uuid = codes "?"; date = []; label = bad_label }
    ∷ []

list_run : list date tables line session (pos 2) ≡ ok listed
unfolding list load_endpoints parse_rid path_between path_avoiding found_path parse_skip_set
    skips_of add_skip skipped_rids next_rid rid_at label_of entries_of entry_of describe row_for
    date_for is_id is_skipped shortest search search_fuel scan neighbors children parents rid_of
    depth_of has_rid reconstructed reconstruct chain reverse_onto number parse_int is_digit
    digits_value parse_digits positive_int negative_int fields fields_loop space_width wide_space
    add_word is_space starts_wide_space
list_run = refl

list-IsLabelled_example :
    (g : ℕ) × (b : ℕ) × (p : List PathStep) × (load_endpoints session ≡ ok (pos g, pos b))
    × (path_between line (pos g) (pos b) ≡ ok p)
    × (rids_of listed ≡ rids p)
    × (length listed ≡ length p)
    × ((i : ℕ) (e : ListEntry) → get_elem? listed i ≡ some e → IsLabelled g b (length p) i e)
list-IsLabelled_example = list-IsLabelled date tables line session (pos 2) listed list_run

list-next_example :
    (out : List ListEntry) × (i : ℕ) × (e : ListEntry) × (list date tables line plain (pos 2)
      ≡ ok out)
    × (get_elem? out i ≡ some e)
    × (e.rid ≡ 3)
    × (e.label ≡ (if is_id (pos 2) 3 then current_label else next_label))
list-next_example = list-next date tables line plain (pos 2) 3 next_plain none_skipped

no_way : (q : List ℕ) → IsRoute line true (skipped_rids (parse_skip_set session)) 1 5 q → ⊥
unfolding skipped_rids
no_way = rw one_skipped (
    subst (IsShortest line true (3 ∷ []) 1 5) skipped_cuts
      (shortest-IsShortest line true (3 ∷ []) 1 5 (omega arith) (omega arith)))

ends_read : load_endpoints session ≡ ok (pos 1, pos 5)
unfolding load_endpoints parse_rid parse_int is_digit digits_value parse_digits positive_int
ends_read = refl

list-unlabelled_example :
    (out : List ListEntry) × (list date tables line session (pos 2) ≡ ok out)
    × ((i : ℕ) (e : ListEntry) → get_elem? out i ≡ some e → 0 < e.rid → e.label ≢ next_label)
list-unlabelled_example =
    list-unlabelled date tables line session (pos 2) 4 1 5 next_run ends_read no_way

-- The skipped check-in cuts the path that `Status` counts, while `Next` still gives a rid.
status_run :
    status (λ n. n) line session
    ≡ ok (record { good = pos 1; bad = pos 5; log = codes "1 -5 s3"; steps = 0 })
unfolding status steps_of ends_or_zero is_unset load_endpoints parse_rid path_avoiding found_path
    parse_skip_set skips_of add_skip skipped_rids shortest search search_fuel scan neighbors
    children parents rid_of depth_of has_rid reconstructed reconstruct chain reverse_onto number
    parse_int is_digit digits_value parse_digits positive_int negative_int fields fields_loop
    space_width wide_space add_word is_space starts_wide_space
status_run = refl
