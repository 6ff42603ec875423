-- ===== src/Tests/Addresses.antt =====
-- Tests of register/brreg.rs.
use fau_portalen.Prelude.{◌≡◌, ◌↔◌, refl, Option, some, List, [], ◌∷◌, Memᴰ, leb, ◌&&◌, ◌-◌}
use fau_portalen.Tests.{ascii}
use fau_portalen.Text.{Text, codes, join, split, trim, text_cmp, is_whitespace}
use fau_portalen.Prelude.{sort_by, insert_by}
use fau_portalen.Register.Fold.{
  map_norwegian, map_letter, map_letters, latin_fold, push_char, collapse_step, collapse_from,
  collapse,
}
use fau_portalen.Register.Search.{search_query, split_where}
use fau_portalen.Register.Brreg.Words.{
  fold_words, core_words, name_core, nonempty_words, find_pair, position, rposition,
  first_digit_index, marker_end, is_personal, sequence_start, find_sequence, is_postbox,
}
use fau_portalen.Register.Brreg.Street.{
  strip_suffix, canonical_suffix, street_word, push_word, push_words, normalise_street_words,
}
use fau_portalen.Register.Brreg.Suggest.{
  Casing, before, from_first, trim_end_matches, trim_matches, recase_run, recase_from, recase,
  recase_words, suggest_fau_name,
}
use fau_portalen.Register.Brreg.{
  AddressKey, key_cmp, dedup_keys_after, dedup_keys, valid_postcode, keys_with, sorted_keys,
  streets_of, school_match_end, street_line, address_keys, care_of_line, care_of_keys,
}
use fau_portalen.Register.Brreg.Keys.{IsPostcode, IsPlainLine, address_keys_iff}
use fau_portalen.Register.Brreg.CareOf.{care_of_keys-IsCareOf}
use fau_portalen.Register.Brreg.Marker.{IsCareOf}

abbrev lines : List Text
lines =
    codes "Bispeveien 73 B"
    ∷ codes "c/o Hosle skole, Hosleveien 24"
    ∷ codes "v/ Kari Nordmann, Hjemveien 12"
    ∷ codes "Postboks 4"
    ∷ []

abbrev postcode : Option Text
postcode = some (codes " 1362 ")

abbrev bispeveien : AddressKey
bispeveien = record { street = codes "bispevei 73b"; postcode = codes "1362" }

abbrev hosleveien : AddressKey
hosleveien = record { street = codes "hoslevei 24"; postcode = codes "1362" }

address_keys_runs : address_keys ascii lines postcode ≡ bispeveien ∷ []
unfolding join split trim text_cmp sort_by insert_by map_norwegian map_letter map_letters latin_fold
    push_char collapse_step collapse_from collapse search_query fold_words core_words name_core
    find_pair position rposition first_digit_index marker_end is_personal sequence_start
    find_sequence is_postbox strip_suffix canonical_suffix street_word push_word push_words
    normalise_street_words key_cmp dedup_keys_after dedup_keys valid_postcode keys_with sorted_keys
    streets_of school_match_end street_line address_keys care_of_line care_of_keys is_whitespace
address_keys_runs = refl

care_of_keys_runs : care_of_keys ascii lines postcode (codes "Hosle skole") ≡ hosleveien ∷ []
unfolding join split trim text_cmp sort_by insert_by map_norwegian map_letter map_letters latin_fold
    push_char collapse_step collapse_from collapse search_query fold_words core_words name_core
    find_pair position rposition first_digit_index marker_end is_personal sequence_start
    find_sequence is_postbox strip_suffix canonical_suffix street_word push_word push_words
    normalise_street_words key_cmp dedup_keys_after dedup_keys valid_postcode keys_with sorted_keys
    streets_of school_match_end street_line address_keys care_of_line care_of_keys is_whitespace
care_of_keys_runs = refl

abbrev casing : Casing
casing = record { is_lowercase = λ c. leb 97 c && leb c 122; to_uppercase = λ c. (c - 32) ∷ [] }

suggest_fau_name_runs :
    suggest_fau_name ascii casing (codes "FAU-ET VED HOSLE SKOLE") (codes "Hosle skole")
    ≡ codes "FAU-et ved Hosle skole"
unfolding join trim is_whitespace split_where before from_first trim_end_matches trim_matches
    recase_run recase_from recase recase_words suggest_fau_name
suggest_fau_name_runs = refl

address_keys_iff_example : Memᴰ bispeveien (address_keys ascii lines postcode) ↔ (
    IsPostcode postcode (codes "1362")
    × ((line : Text) × Memᴰ line lines × IsPlainLine ascii line (codes "bispevei 73b")))
address_keys_iff_example = address_keys_iff ascii lines postcode bispeveien

hosleveien_counts : Memᴰ hosleveien (care_of_keys ascii lines postcode (codes "Hosle skole"))
hosleveien_counts = rw care_of_keys_runs (Memᴰ.head refl)

care_of_keys-IsCareOf_example :
    IsPostcode postcode (codes "1362")
    × ((line : Text) × Memᴰ line lines
        × IsCareOf
            (fold_words ascii (codes "Hosle skole"))
            (nonempty_words (name_core ascii (codes "Hosle skole")))
            (fold_words ascii line)
            (codes "hoslevei 24"))
care_of_keys-IsCareOf_example =
    care_of_keys-IsCareOf ascii lines postcode (codes "Hosle skole") hosleveien hosleveien_counts
