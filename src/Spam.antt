-- ===== src/Spam.antt =====
-- spam/src/main.rs and config.rs: the server that takes archives of mods with a token and gives each of
-- them out once. UUIDs come from the crate uuid: `parse_uuid` is `Uuid::from_str`, and its values are
-- texts here.
pub mod Uploads
pub mod Downloads
pub mod Tests
use mind_craft.Base.{
  ℕ, zero, suc, Text, codes, text_eq, split_once, Assoc, lookup, insert, remove, contains_key, Bool,
  true, false, not, ◌||◌, Option, none, some, List, [], ◌∷◌, ◌++◌, Result, ok, err, panic, diverge,
  if◌then◌else◌,
}

-- `Access`, a set of two flags.
pub record Access : Type 0 where
  pub read : Bool
  pub write : Bool

-- `Token`; `Scope` has one value, so the map of scopes is at most one access.
pub record Token : Type 0 where
  pub created : ℕ
  pub expires : Option ℕ
  pub assets_mods : Option Access

-- What a handler sends back.
pub data Reply : Type 0 where
  unauthorized bad_request internal_server_error not_found : Reply
  uploaded : Text → Reply
  archive : List ℕ → Reply

-- A field of the multipart body; a chunk that cannot be read or written is `none`.
pub record Field : Type 0 where
  pub name : Option Text
  pub chunks : List (Option (List ℕ))
  pub flushed : Bool

-- `Token::index`: a missing scope panics.
may_write : Option Access → Result Bool
may_write none = panic
may_write (some access) = ok access.write

token_of : Assoc Token → Option Text → Result Bool
unfolding lookup may_write
token_of tokens none = ok false
token_of tokens (some uuid) = elim (lookup uuid tokens) [
  | none ↦ ok false
  | some token ↦ may_write token.assets_mods
]

bearer : (Text → Option Text) → Option (Text × Text) → Option Text
unfolding text_eq
bearer parse_uuid none = none
bearer parse_uuid (some (scheme, token)) =
    if text_eq scheme (codes "Bearer") then parse_uuid token else none

-- The test of the authorization header.
unfoldable pub authorized : (Text → Option Text) → Assoc Token → Option Text → Result Bool
unfolding split_once bearer token_of
authorized parse_uuid tokens none = ok false
authorized parse_uuid tokens (some authorization) =
    token_of tokens (bearer parse_uuid (split_once b' ' authorization))

-- The loop that creates a file with a new name, in at most 99 rounds. The draws are the UUIDs with
-- the outcome of each `create_new` where the name is free.
unfoldable pub create_file : ℕ → (ℕ → Text × Bool) → ℕ → Assoc (List ℕ) → Option Text
create_file zero draws i assets = none
create_file (suc rounds) draws i assets =
    let (uuid, failed) = draws i in
    let later = create_file rounds draws (suc i) assets in
    if failed || contains_key uuid assets then later else some uuid

-- The chunks of the file, in their order; `none` where one is lost.
unfoldable pub write_chunks : List ℕ → List (Option (List ℕ)) → Option (List ℕ)
write_chunks written [] = some written
write_chunks written (none ∷ chunks) = none
write_chunks written (some chunk ∷ chunks) = write_chunks (written ++ chunk) chunks

unfoldable pub flushed_content : Bool → Option (List ℕ) → Option (List ℕ)
flushed_content true written = written
flushed_content false written = none

-- The end of an upload to a file that was created: a failure deletes the file again.
unfoldable pub finish_upload : Text → Option (List ℕ) → Assoc (List ℕ) → Reply × Assoc (List ℕ)
finish_upload uuid none assets = (internal_server_error, remove uuid (insert uuid [] assets))
finish_upload uuid (some content) assets = (uploaded uuid, insert uuid content assets)

unfoldable pub fill_file : Field → Option Text → Assoc (List ℕ) → Reply × Assoc (List ℕ)
unfolding flushed_content
fill_file field none assets = (internal_server_error, assets)
fill_file field (some uuid) assets =
    finish_upload uuid (flushed_content field.flushed (write_chunks [] field.chunks)) assets

unfoldable pub store_field : Field → (ℕ → Text × Bool) → Assoc (List ℕ) → Reply × Assoc (List ℕ)
store_field field draws assets = fill_file field (create_file 99 draws 0 assets) assets

named_file : Option Text → Bool
unfolding text_eq
named_file none = false
named_file (some name) = text_eq name (codes "file")

unfoldable pub take_field :
    Option Field → (ℕ → Text × Bool) → Assoc (List ℕ) → Reply × Assoc (List ℕ)
unfolding named_file
take_field none draws assets = (bad_request, assets)
take_field (some field) draws assets =
    if named_file field.name then store_field field draws assets else (bad_request, assets)

unfoldable pub when_authorized :
    Result Bool
    → Option Field
    → (ℕ → Text × Bool)
    → Assoc (List ℕ)
    → Result (Reply × Assoc (List ℕ))
when_authorized (ok true) field draws assets = ok (take_field field draws assets)
when_authorized (ok false) field draws assets = ok (unauthorized, assets)
when_authorized (err e) field draws assets = err e
when_authorized panic field draws assets = panic
when_authorized diverge field draws assets = diverge

-- `post_mods`.
unfoldable pub post_mods :
    (Text → Option Text)
    → Assoc Token
    → Option Text
    → Option Field
    → (ℕ → Text × Bool)
    → Assoc (List ℕ)
    → Result (Reply × Assoc (List ℕ))
post_mods parse_uuid tokens header field draws assets =
    when_authorized (authorized parse_uuid tokens header) field draws assets

-- `serve_mods`, where the open and the removal can fail; the file is read although it is removed.
unfoldable pub serve_mods :
    (Text → Option Text) → Text → Bool → Bool → Assoc (List ℕ) → Reply × Assoc (List ℕ)
serve_mods parse_uuid unique_id open_fails remove_fails assets = elim (parse_uuid unique_id) [
  | none ↦ (not_found, assets)
  | some uuid ↦ elim (lookup uuid assets) [
    | none ↦ (not_found, assets)
    | some content ↦
        if open_fails
        then (not_found, assets)
        else (archive content, if remove_fails then assets else remove uuid assets)
  ]
]
