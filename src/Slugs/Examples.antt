-- ===== src/Slugs/Examples.antt =====
-- Slugs at concrete titles: one whose first slug is taken and whose second is free.
use reasonbridge.Prelude.{
  trim, to_lower_case, is_space, ◌≤◌, ◌≡◌, refl, true, false, ◌||◌, ◌&&◌, arith, Text, text, ◌==◌,
}
use reasonbridge.Slugs.{
  Outside, hash_from, magnitude, generate_base_slug, join_runs, trim_hyphens, drop_hyphens,
  drop_end_hyphens, generate_hash_suffix, generate_unique_slug,
}
use reasonbridge.Slugs.Hash.{IsSuffix, generate_hash_suffix-IsSuffix}
use reasonbridge.Slugs.Rules.{IsUsual}
use reasonbridge.Slugs.Unique.{is_found_free, is_first_taken, all_taken, generate_unique_slug-free}

-- Every call is at the time 1700000000000, and only the first query is answered that the slug is taken.
abbrev one_collision : Outside
one_collision = record {
  now = λ k. 1700000000000;
  exists = λ k slug. k == 0;
  random_text = text "k3x9q2zz";
}

abbrev title : Text
title = text "Climate: \"Act Now\""

base : generate_base_slug title ≡ text "climate-act-now"
unfolding generate_base_slug join_runs trim_hyphens drop_hyphens drop_end_hyphens trim to_lower_case
    is_space
base = refl

generate_hash_suffix-IsSuffix_example :
    IsSuffix (magnitude (hash_from 0 title)) (generate_hash_suffix title)
generate_hash_suffix-IsSuffix_example = generate_hash_suffix-IsSuffix title

generate_unique_slug-free_example :
    (is_found_free one_collision (generate_unique_slug one_collision title)
        || (is_first_taken one_collision title
            && all_taken one_collision 10 1 (generate_base_slug title)))
      ≡ true
    × (generate_unique_slug one_collision title).1 ≤ 11
generate_unique_slug-free_example =
    generate_unique_slug-free one_collision title (rw base (omega arith))

one_collision-IsUsual : IsUsual one_collision (λ slug. false)
one_collision-IsUsual = record {
  times = λ k. omega arith;
  random_word = record { digits = refl; some_digits = omega arith; at_most = omega arith };
}
