-- ===== src/Yapper/Tests.antt =====
-- yapper: the theorems at concrete inputs.
use Prim.Native.Nat.{Ordering}
use mind_craft.Base.{
  ℕ, Text, codes, List, Option, sym, replicate, length, ltb, ◌==◌, true, none, some, [], ◌∷◌, ◌++◌,
  ◌≡◌, refl, ok, if◌then◌else◌, arith, Assoc,
}
use mind_craft.Yapper.Types.{Versions, included, excluded, unbounded, both, ModInfo}
use mind_craft.Yapper.Escape.{escape_discord, unescape, unescape-escape_discord}
use mind_craft.Yapper.Packets.{Codec, Cipher, pad, be_bytes, send_thing, recv_thing}
use mind_craft.Yapper.Packets.RoundTrip.{recv_thing-send_thing}
use mind_craft.Yapper.ModParser.Toml
use mind_craft.Yapper.ModParser.Toml.{
  Toml, read_toml, Mods, default, ModsToml, ModsDefault, ModsWithCreditsList, credits, convert,
  with_credit_list, credits_of_list, credits-convert,
}
use mind_craft.Yapper.ModParser.Range.{parse_range, version_bounds}
use mind_craft.Yapper.ModParser.RoundTrip.{
  lo_text, hi_text, IsPlain, map_bound, parse_range_written, parse_range_lone_parenthesis,
}
use mind_craft.Yapper.ModParser.Parse.{Bytes, Libs, parse_mod_ext, read_metadata}
use mind_craft.Yapper.ModParser.Dependencies.{Describes, parse_mod_ext-Describes}

abbrev ordering : ℕ → ℕ → Ordering
ordering a b = if ltb a b then Ordering.lt else if a == b then Ordering.eq else Ordering.gt

-- Versions that are as new as their text is long.
abbrev pub test_versions : Versions ℕ
test_versions = record { new = length; cmp = ordering; eq = λ a b. a == b; show = λ _. [] }

abbrev pub test_entry : Text → ModsDefault
test_entry id = record {
  mod_id = id;
  version = codes "1.0";
  display_name = none;
  logo_file = none;
  description = none;
  display_url = none;
  credits = none;
  authors = none;
}

-- A mods.toml that is nothing but an id, with one dependency.
abbrev pub test_toml : Toml
test_toml = record {
  from_str_default = λ id. some (record {
    logo_file = none;
    mods = test_entry id ∷ [];
    dependencies =
        (
          id,
          record {
            mod_id = codes "forge";
            mandatory = true;
            version_range = some (codes "[47,)");
            side = both;
          }
              ∷ [],
        )
        ∷ [];
  });
  from_str_list = λ _. none;
}

abbrev pub test_libs : Libs ℕ
test_libs = record {
  versions = test_versions;
  toml = test_toml;
  open_zip = λ bytes. some ((codes "META-INF/mods.toml", bytes) ∷ []);
  from_utf8 = some;
  canonicalize = some;
}

abbrev test_info : ModInfo ℕ
test_info = record {
  filename = codes "a.jar";
  path = codes "/m/a.jar";
  mod_id = codes "a";
  name = none;
  description = none;
  version = 3;
  logo = none;
  url = none;
  credits = none;
  authors = none;
  dependencies =
      record {
        mod_id = codes "forge";
        mandatory = true;
        min_version = included 2;
        max_version = unbounded;
        side = both;
      }
      ∷ [];
}

test_info_parsed : parse_mod_ext test_libs (codes "/m/a.jar") none (some (codes "a")) ≡ ok test_info
unfolding parse_mod_ext read_toml Toml.version Toml.mod_id version_bounds Toml.display_name
    Toml.description Toml.logo_file Toml.display_url Toml.credits Toml.authors
test_info_parsed = refl

parse_mod_ext-Describes_example :
    (archive : Assoc Bytes) × (meta : ModsToml Mods) × (read_metadata test_libs (some (codes "a"))
      ≡ ok (archive, meta))
    × Describes test_info meta
parse_mod_ext-Describes_example =
    parse_mod_ext-Describes test_libs (codes "/m/a.jar") none (some (codes "a")) test_info
      test_info_parsed

unescape-escape_discord_example : unescape (escape_discord (codes "a_b\n*")) ≡ some (codes "a_b\n*")
unescape-escape_discord_example = unescape-escape_discord (codes "a_b\n*")

IsPlain-one : IsPlain (included (codes "1.20"))
unfolding IsPlain
IsPlain-one = (ground arith, refl)

IsPlain-two : IsPlain (excluded (codes "1.21"))
unfolding IsPlain
IsPlain-two = (ground arith, refl)

parse_range_written_example :
    parse_range test_versions
      (lo_text (included (codes "1.20")) ++ b',' ∷ hi_text (excluded (codes "1.21")))
    ≡ ok (
      map_bound test_versions (included (codes "1.20")),
      map_bound test_versions (excluded (codes "1.21")),
    )
parse_range_written_example =
    parse_range_written test_versions (included (codes "1.20")) (excluded (codes "1.21"))
      IsPlain-one IsPlain-two

parse_range_lone_parenthesis_example :
    (parse_range test_versions (codes "(," ++ hi_text (excluded (codes "1.21")))
      ≡ ok (excluded 0, map_bound test_versions (excluded (codes "1.21"))))
    × (parse_range test_versions (codes "[," ++ hi_text (excluded (codes "1.21")))
        ≡ ok (unbounded, map_bound test_versions (excluded (codes "1.21"))))
parse_range_lone_parenthesis_example =
    parse_range_lone_parenthesis test_versions (excluded (codes "1.21")) IsPlain-two

abbrev first_byte : List ℕ → Option ℕ
first_byte [] = none
first_byte (n ∷ _) = some n

abbrev one_byte : Codec ℕ
one_byte = record { encode = λ n. some (n ∷ []); decode = first_byte }

abbrev plain_cipher : Cipher
plain_cipher = record { encrypt = λ _ plain. some plain; decrypt = λ _ secret. some secret }

one_byte-decodes :
    (t : ℕ) (vec more : List ℕ)
    → one_byte.encode t ≡ some vec
    → one_byte.decode (vec ++ more) ≡ some t
one_byte-decodes t [] more h = absurd (ground arith)
one_byte-decodes t (x ∷ vec) more h = ground arith

abbrev zero_iv : List ℕ
zero_iv = replicate 16 0

abbrev sent : List ℕ
sent = zero_iv ++ (0 ∷ 0 ∷ 0 ∷ 16 ∷ 7 ∷ replicate 15 0)

sent_seven : send_thing one_byte plain_cipher zero_iv 7 ≡ ok sent
unfolding send_thing pad be_bytes
sent_seven = refl

recv_thing-send_thing_example : recv_thing one_byte plain_cipher (sent ++ 9 ∷ []) ≡ ok (7, 9 ∷ [])
recv_thing-send_thing_example =
    recv_thing-send_thing one_byte plain_cipher (λ iv plain secret h. sym h) one_byte-decodes
      zero_iv 7 sent (9 ∷ []) refl (omega arith) sent_seven
