-- ===== src/Bisect/Tests.antt =====
-- Runs of internal/bisect/bisect.go, and the theorems about it on a concrete session.
use libfossil.Base.{◌+◌, ◌^◌, ◌≤◌, length, ◌≡◌, inl, refl, arith, List, [], ◌∷◌, ok, codes}
use libfossil.Base.Int.{pos}
use libfossil.Blob.{has_rid}
use libfossil.Text.{
  format_int, format_nat, parse_int, is_digit, digits_value, parse_digits, positive_int,
  negative_int, fields, fields_loop, space_width, wide_space, add_word, is_space, starts_wide_space,
  decimal_digits,
}
use libfossil.Path.{
  PathStep, shortest, search, search_fuel, scan, neighbors, children, parents, rid_of, depth_of,
  reconstructed, reconstruct, chain, reverse_onto, number,
}
use libfossil.Path.Tests.{line}
use libfossil.Bisect.{
  Session, mark_good, mark_bad, skip, reset, append_log_entry, load_endpoints, parse_rid,
  found_path, path_between, parse_skip_set, skips_of, add_skip, is_id, is_skipped, is_candidate,
  outward, pick, at_index, next_on, next,
}
use libfossil.Bisect.Midpoint.{Picks, next_on-Picks}
use libfossil.Bisect.Few.{untried, tried, few_tests}
use libfossil.Bisect.Log.Told.{
  said_good, said_bad, said_skip, tell, tell_all, skips, parse_skip_set-tell_all,
}
use libfossil.Bisect.Progress.{IsShorter, next-IsShorter, remaining}

abbrev pub session : Session
session = record { good = codes "1"; bad = codes "5"; log = codes "1 -5 s3" }

abbrev after : Session
after = record { good = codes "4"; bad = codes "5"; log = codes "1 -5 s3 4" }

-- The rid in the middle is skipped, and the one behind it is taken.
pub next_run : next line session ≡ ok 4
unfolding next load_endpoints parse_rid path_between found_path parse_skip_set skips_of add_skip
    is_id is_skipped is_candidate outward pick at_index next_on shortest search search_fuel scan
    neighbors children parents rid_of depth_of has_rid reconstructed reconstruct chain reverse_onto
    number parse_int is_digit digits_value parse_digits positive_int negative_int fields fields_loop
    space_width wide_space add_word is_space starts_wide_space
next_run = refl

marked : mark_good session 4 ≡ ok after
unfolding mark_good append_log_entry format_nat decimal_digits
marked = refl

next-IsShorter_example : IsShorter line session after
next-IsShorter_example = next-IsShorter line session after 4 next_run (omega arith) (inl marked)

abbrev four_steps : List PathStep
four_steps =
    record { rid = 1; depth = 0 }
    ∷ record { rid = 2; depth = 1 }
    ∷ record { rid = 3; depth = 2 }
    ∷ record { rid = 4; depth = 3 }
    ∷ []

next_on-Picks_example :
    Picks (pos 4) four_steps (pos 3 ∷ []) (next_on (pos 4) four_steps (pos 3 ∷ []))
next_on-Picks_example = next_on-Picks (pos 4) four_steps (pos 3 ∷ [])

abbrev pub plain : Session
plain = record { good = codes "1"; bad = codes "5"; log = codes "1 -5" }

abbrev halved : Session
halved = record { good = codes "3"; bad = codes "5"; log = codes "1 -5 3" }

pub next_plain : next line plain ≡ ok 3
unfolding next load_endpoints parse_rid path_between found_path parse_skip_set skips_of add_skip
    is_id is_skipped is_candidate outward pick at_index next_on shortest search search_fuel scan
    neighbors children parents rid_of depth_of has_rid reconstructed reconstruct chain reverse_onto
    number parse_int is_digit digits_value parse_digits positive_int negative_int fields fields_loop
    space_width wide_space add_word is_space starts_wide_space
next_plain = refl

pub none_skipped : parse_skip_set plain ≡ []
unfolding parse_skip_set skips_of add_skip parse_int is_digit digits_value parse_digits positive_int
    negative_int fields fields_loop space_width wide_space add_word is_space starts_wide_space
none_skipped = refl

marked_plain : mark_good plain 3 ≡ ok halved
unfolding mark_good append_log_entry format_nat decimal_digits
marked_plain = refl

told : tell_all (said_good 1 ∷ said_bad 5 ∷ said_skip 3 ∷ []) (reset after) ≡ ok session
unfolding tell_all tell reset mark_good mark_bad skip append_log_entry format_int format_nat
    decimal_digits
told = refl

parse_skip_set-tell_all_example :
    parse_skip_set session ≡ skips (said_good 1 ∷ said_bad 5 ∷ said_skip 3 ∷ [])
parse_skip_set-tell_all_example =
    parse_skip_set-tell_all (said_good 1 ∷ said_bad 5 ∷ said_skip 3 ∷ []) after session
      (omega arith) told

told_plain : tell_all (said_good 1 ∷ said_bad 5 ∷ []) (reset after) ≡ ok plain
unfolding tell_all tell reset mark_good mark_bad skip append_log_entry format_int format_nat
    decimal_digits
told_plain = refl

next_halved : next line halved ≡ ok 4
unfolding next load_endpoints parse_rid path_between found_path parse_skip_set skips_of add_skip
    is_id is_skipped is_candidate outward pick at_index next_on shortest search search_fuel scan
    neighbors children parents rid_of depth_of has_rid reconstructed reconstruct chain reverse_onto
    number parse_int is_digit digits_value parse_digits positive_int negative_int fields fields_loop
    space_width wide_space add_word is_space starts_wide_space
next_halved = refl

few_tests_example : (p : List PathStep) × (remaining line plain ≡ ok p) × (2 ^ 1 + 2 ≤ length p)
few_tests_example =
    few_tests line (said_good 1 ∷ said_bad 5 ∷ []) after plain halved 1 4 (omega arith) told_plain
      refl (tried 3 untried next_plain (omega arith) (inl marked_plain)) next_halved
