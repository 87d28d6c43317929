-- ===== src/Spam/Tests.antt =====
-- spam: the theorems at concrete inputs.
use mind_craft.Base.{
  ℕ, Text, codes, Assoc, insert, contains_key, Bool, true, false, Option, none, some, List, [], ◌∷◌,
  ◌≡◌, refl, ◌⊎◌, ok,
}
use mind_craft.Spam.{
  Token, uploaded, unauthorized, archive, not_found, Field, authorized, create_file, write_chunks,
  finish_upload, fill_file, store_field, take_field, when_authorized, post_mods,
}
use mind_craft.Spam.Uploads.{Extends, post_mods-Extends, MayWrite}
use mind_craft.Spam.Downloads.{downloads, downloads-post_mods}

abbrev tokens : Assoc Token
tokens =
    (
      codes "t",
      record {
        created = 0;
        expires = none;
        assets_mods = some (record { read = true; write = true });
      },
    )
    ∷ []

abbrev header : Option Text
header = some (codes "Bearer t")

abbrev field : Field
field = record {
  name = some (codes "file");
  chunks = some (1 ∷ []) ∷ some (2 ∷ []) ∷ [];
  flushed = true;
}

abbrev draws : ℕ → Text × Bool
draws _ = (codes "u", false)

abbrev parse : Text → Option Text
parse = some

abbrev stored : Assoc (List ℕ)
stored = (codes "u", 1 ∷ 2 ∷ []) ∷ []

upload_done :
    post_mods parse tokens header (some field) draws [] ≡ ok (uploaded (codes "u"), stored)
unfolding post_mods authorized when_authorized take_field store_field create_file write_chunks
    finish_upload fill_file contains_key insert
upload_done = refl

post_mods-Extends_example :
    (MayWrite parse tokens header × Extends [] stored)
    ⊎ ((uploaded (codes "u") ≡ unauthorized) × (stored ≡ []))
post_mods-Extends_example =
    post_mods-Extends parse tokens header (some field) draws [] (uploaded (codes "u")) stored
      upload_done

downloads-post_mods_example :
    (content : List ℕ) × (write_chunks [] field.chunks ≡ some content)
    × (downloads parse (codes "u") stored ≡ (archive content, not_found))
downloads-post_mods_example =
    downloads-post_mods parse tokens header field draws [] stored (codes "u") upload_done refl
