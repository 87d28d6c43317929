-- ===== src/Yapper/ModParser/Parse.antt =====
-- yapper/src/mod_parser.rs: `parse_mod_ext` over the bytes of a jar file. The crates zip and toml,
-- UTF-8 decoding and `canonicalize` are parameters.
use mind_craft.Base.{
  ℕ, Text, codes, text_eq, starts_with, split, trim, lookup, Assoc, file_name, any, map, Option,
  none, some, Result, ok, err, ◌>>=◌, ok_or, context, option_or, unwrap_or, List, [], ◌∷◌, ◌++◌,
  if◌then◌else◌,
}
use mind_craft.Yapper.Types.{Versions, ModDependency, ModInfo}
use mind_craft.Yapper.ModParser.Toml
use mind_craft.Yapper.ModParser.Toml.{Dependencies, Mods, ModsToml, Toml, read_toml}
use mind_craft.Yapper.ModParser.Range.{version_bounds}

abbrev pub Bytes : Type 0
Bytes = List ℕ

-- What `parse_mod_ext` uses of the crates zip, toml and mvn_version and of the system: the entries
-- of an archive by name, the text of some bytes, and the absolute path of a file.
pub record Libs (V : Type 0) : Type 0 where
  pub versions : Versions V
  pub toml : Toml
  pub open_zip : Bytes → Option (Assoc Bytes)
  pub from_utf8 : Bytes → Option Text
  pub canonicalize : Text → Option Text

split_authors : Option Text → Option (List Text)
unfolding split trim
split_authors none = none
split_authors (some authors) = some (map trim (split b',' authors))

-- `mods.remove(0)` of a list that has one element.
unfoldable pub only_mod : List Mods → Result Mods
only_mod (m ∷ []) = ok m
only_mod _ = err "Expected to find metadata for 1 mod"

module _ {V : Type 0} (libs : Libs V) where
  -- One dependency of the loop, against those that were collected before.
  unfoldable pub add_dependency :
      Text → List (ModDependency V) → Dependencies → Result (List (ModDependency V))
  unfolding text_eq
  add_dependency own dependencies dep =
      if text_eq dep.mod_id own
      then ok dependencies
      else if any (λ x. text_eq x.mod_id dep.mod_id) dependencies
      then err "Dependency declared twice!"
      else do
        (lo, hi) ← version_bounds libs.versions dep.version_range
        ok (
            dependencies
            ++ record {
              mod_id = dep.mod_id;
              mandatory = dep.mandatory;
              min_version = lo;
              max_version = hi;
              side = dep.side;
            }
              ∷ [])

  unfoldable pub add_list :
      Text → List (ModDependency V) → List Dependencies → Result (List (ModDependency V))
  unfolding add_dependency
  add_list own dependencies [] = ok dependencies
  add_list own dependencies (dep ∷ deps) = do
    more ← add_dependency own dependencies dep
    add_list own more deps

  -- The two nested loops over the declared dependencies.
  unfoldable pub add_dependencies :
      Text → List (ModDependency V) → Assoc (List Dependencies) → Result (List (ModDependency V))
  unfolding add_list
  add_dependencies own dependencies [] = ok dependencies
  add_dependencies own dependencies ((_, deps) ∷ rest) = do
    more ← add_list own dependencies deps
    add_dependencies own more rest

  -- The bytes of the logo, in the archive or in its META-INF; every failure gives none.
  unfoldable pub logo_data : Assoc Bytes → Option Text → Option Bytes
  unfolding lookup
  logo_data archive none = none
  logo_data archive (some logo) =
      option_or (lookup logo archive) (lookup (codes "META-INF/" ++ logo) archive)

  second_word : List Text → Option Text
  second_word (_ ∷ word ∷ _) = some word
  second_word _ = none

  line_version : Text → Option Text
  unfolding starts_with trim split second_word
  line_version line =
      if starts_with line (codes "Implementation-Version: ")
      then second_word (split b' ' (trim line))
      else none

  -- The second word of the first line with the key that has one.
  unfoldable pub manifest_version : List Text → Option Text
  unfolding line_version
  manifest_version [] = none
  manifest_version (line ∷ lines) = elim (line_version line) [
    | some v ↦ some v
    | none ↦ manifest_version lines
  ]

  -- The version text: of the entry, of the manifest, or of forge.
  unfoldable pub the_version : Assoc Bytes → Option Text → Text → Result Text
  unfolding trim text_eq lookup split manifest_version
  the_version archive forge_ver ver =
      if text_eq (trim ver) (codes "${file.jarVersion}")
      then (do
        manifest ←
            ok_or (lookup (codes "META-INF/MANIFEST.MF") archive) "Couldn't open jar manifest"
        manifest_data ← ok_or (libs.from_utf8 manifest) "Failed to read manifest data"
        ok (unwrap_or (manifest_version (split b'\n' manifest_data)) ver))
      else if text_eq (trim ver) (codes "${global.forgeVersion}")
      then ok_or forge_ver "Forge version needed but not provided"
      else ok ver

  -- The archive and its metadata, from the content of the file: `none` if it cannot be opened.
  unfoldable pub read_metadata : Option Bytes → Result (Assoc Bytes × ModsToml Mods)
  unfolding lookup
  read_metadata content = do
    file ← ok_or content "Failed to reopen the newly downloaded mod"
    archive ← ok_or (libs.open_zip file) "Failed to parse zip file"
    mod_info ← ok_or (lookup (codes "META-INF/mods.toml") archive) "Couldn't find mod metadata"
    mods_toml ← ok_or (libs.from_utf8 mod_info) "Failed to read mod metadata"
    meta ← read_toml libs.toml mods_toml
    ok (archive, meta)

  -- What is read of the one entry of the metadata.
  unfoldable pub describe_mod :
      Text → Option Text → Assoc Bytes → ModsToml Mods → Mods → Result (ModInfo V)
  unfolding logo_data the_version trim file_name split_authors add_dependencies
  describe_mod path forge_ver archive meta mods = do
    let logo = logo_data archive (option_or (Toml.logo_file mods) meta.logo_file)
    version ← context (the_version archive forge_ver (Toml.version mods)) "Failed to get version"
    dependencies ← add_dependencies (Toml.mod_id mods) [] meta.dependencies
    canonical ← ok_or (libs.canonicalize path) "Couldn't canonicalize path"
    ok (record {
      filename = unwrap_or (file_name path) (Toml.mod_id mods ++ codes ".jar");
      path = canonical;
      mod_id = Toml.mod_id mods;
      name = Toml.display_name mods;
      description = Toml.description mods;
      version = libs.versions.new (trim version);
      logo = logo;
      url = Toml.display_url mods;
      credits = Toml.credits mods;
      authors = split_authors (Toml.authors mods);
      dependencies = dependencies;
    })

  -- `parse_mod_ext` of the file at `path`.
  unfoldable pub parse_mod_ext : Text → Option Text → Option Bytes → Result (ModInfo V)
  unfolding read_metadata only_mod describe_mod
  parse_mod_ext path forge_ver content = do
    (archive, meta) ← read_metadata content
    mods ← only_mod meta.mods
    describe_mod path forge_ver archive meta mods

  -- `parse_mod`.
  unfoldable pub parse_mod : Text → Option Bytes → Result (ModInfo V)
  unfolding parse_mod_ext
  parse_mod path = parse_mod_ext path none
