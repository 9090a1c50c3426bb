-- ===== src/Api/Tags/Tests.antt =====
-- Runs of tags.
use tick_framework.Base.{◌≡◌, refl, List, [], ◌∷◌, none, some, Bytes, codes, All}
use tick_framework.Api.Tags.{parse_tags, parse_tuple}
use tick_framework.Api.Tags.RoundTrip.{IsTag, print_tags, entered, parse_tags-print_tags}

-- the tags <in:query> and <e:\<>
abbrev tags : List (Bytes × Bytes)
tags = (codes "in", codes "q") ∷ (codes "e", codes "<") ∷ []

tags-IsTag : All IsTag tags
unfolding tick_framework.Api.Tags.trim_right_blanks
tags-IsTag = (
  record {
    name_bytes = ((refl, refl, refl), ((refl, refl, refl), tt));
    name_begins = refl;
    name_ends = refl;
    value_bytes = (refl, tt);
    value_begins = refl;
    value_ends = refl;
  },
  (
    record {
      name_bytes = ((refl, refl, refl), tt);
      name_begins = refl;
      name_ends = refl;
      value_bytes = (refl, tt);
      value_begins = refl;
      value_ends = refl;
    },
    tt,
  ),
)

parse_tags-print_tags_example : parse_tags (print_tags tags) ≡ some (entered tags [])
parse_tags-print_tags_example = parse_tags-print_tags tags tags-IsTag

-- a backslash at the end
backslash_panics : parse_tags (codes "<in:q\\") ≡ none
unfolding parse_tags tick_framework.Api.Tags.parse_from tick_framework.Api.Tags.step
    tick_framework.Api.Tags.step_inside tick_framework.Api.Tags.step_plain
    tick_framework.Api.Tags.take_plain tick_framework.Api.Tags.trim_right_blanks
backslash_panics = refl

-- one bound is both
one_bound : parse_tuple (codes "3") ≡ some (codes "3", codes "3")
unfolding parse_tuple tick_framework.Api.Tags.tuple_of tick_framework.Base.split
one_bound = refl
