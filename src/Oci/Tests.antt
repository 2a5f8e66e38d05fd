-- ===== src/Oci/Tests.antt =====
-- Concrete image references.
use kc_docker.Shared.{
  none, some, ◌≡◌, refl, arith, codes, split_once, rsplit_once, text_eq, trim, trim_end, trim_start,
  strip_prefix,
}
use kc_docker.Oci.Reference.{
  ImageReference, split_digest, split_tag, split_registry, qualify, parse, canonical, display_name,
}
use kc_docker.Oci.Reference.Laws.{IsCanonical, parse-IsQualified, parse-canonical}

abbrev alpine : ImageReference
alpine = record {
  registry = codes "registry-1.docker.io";
  repository = codes "library/alpine";
  tag = codes "3.19";
  digest = none;
}

alpine_parsed : parse (codes " docker.io/alpine:3.19 ") ≡ some alpine
unfolding parse split_digest split_tag split_registry qualify trim trim_end trim_start split_once
    rsplit_once text_eq
alpine_parsed = refl

alpine_displayed : display_name alpine ≡ codes "alpine:3.19"
unfolding display_name strip_prefix text_eq
alpine_displayed = refl

-- A port before the first slash is no tag.
port_is_no_tag :
    parse (codes "localhost:5000/app")
    ≡ some (record {
      registry = codes "localhost:5000";
      repository = codes "app";
      tag = codes "latest";
      digest = none;
    })
unfolding parse split_digest split_tag split_registry qualify trim trim_end trim_start split_once
    rsplit_once text_eq
port_is_no_tag = refl

-- The displayed name of a repository below `library/` whose next part has a dot is read as one of
-- another registry.
dotted_library :
    parse (codes "library/a.b/c")
    ≡ some (record {
      registry = codes "registry-1.docker.io";
      repository = codes "library/a.b/c";
      tag = codes "latest";
      digest = none;
    })
unfolding parse split_digest split_tag split_registry qualify trim trim_end trim_start split_once
    rsplit_once text_eq
dotted_library = refl

alpine-IsCanonical : IsCanonical alpine
unfolding text_eq
alpine-IsCanonical = record {
  qualified = parse-IsQualified (codes " docker.io/alpine:3.19 ") alpine alpine_parsed;
  registry = refl;
  registry_solid = ground arith;
  registry_at = ground arith;
  registry_slash = ground arith;
  repository_solid = ground arith;
  repository_at = ground arith;
  tag_solid = ground arith;
  tag_at = ground arith;
  tag_colon = ground arith;
}

parse-canonical_example : parse (canonical alpine) ≡ some (record alpine { digest = none })
parse-canonical_example = parse-canonical alpine alpine-IsCanonical
